-- ===== src/Generator/Delivery/Examples.antt =====
-- A generated service behind a gateway with the defaults.
use grpc_gateway_rust.Prelude.{ℕ, refl, List, Str, Option, none, some, lit}
use grpc_gateway_rust.Http.{MetadataEntry}
use grpc_gateway_rust.Http.Concrete.{list_headers, list_metadata}
use grpc_gateway_rust.Http.Message.{Request, Response}
use grpc_gateway_rust.Errors.{GatewayError}
use grpc_gateway_rust.Layers.Examples.{Headers}
use grpc_gateway_rust.Defaults.{default_error_handler}
use grpc_gateway_rust.Gateway.{default}
use grpc_gateway_rust.Gateway.Builder.{Gateway, new_gateway, handled}
use grpc_gateway_rust.Gateway.Examples.{rendering}
use grpc_gateway_rust.Generator.Routing.{no_binding, spelled, nothing_spelled, method_spelled}
use grpc_gateway_rust.Generator.Answering.{generated_router}
use grpc_gateway_rust.Generator.Examples.{
  naming, options, library_service, runtime, refusing, templates, read_request, read-IsProper,
}
use grpc_gateway_rust.Generator.Delivery.{Delivered, handled-Delivered}

abbrev pub no_decoding : Str → Option Str
no_decoding s = some s

abbrev pub library_gateway : Gateway list_headers list_metadata Unit Unit Unit ℕ
library_gateway =
    new_gateway list_headers list_metadata Unit Unit Unit ℕ rendering (λ w. lit "0")
      (generated_router list_headers list_metadata runtime naming options (λ c. Str) (λ c. Str)
        refusing no_decoding none default library_service).router

abbrev pub handler : Request Headers (List MetadataEntry) → GatewayError → Response Headers
handler = default_error_handler list_headers rendering

handled-Delivered_example :
    Delivered list_headers list_metadata runtime naming options
      (λ c. Str)
      (λ c. Str)
      refusing
      no_decoding
      library_gateway
      (lit "lib")
      templates
      handler
      read_request
      0
      (handled list_headers list_metadata Unit Unit Unit ℕ no_decoding library_gateway read_request
        0)
handled-Delivered_example =
    handled-Delivered list_headers list_metadata runtime naming options (λ c. Str) (λ c. Str)
      refusing no_decoding library_gateway library_service templates handler read_request 0
      (unfold new_gateway in refl) (unfold new_gateway in refl) refl
      (method_spelled (spelled refl refl read-IsProper no_binding) nothing_spelled)
