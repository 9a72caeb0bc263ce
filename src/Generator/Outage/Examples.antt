-- ===== src/Generator/Outage/Examples.antt =====
-- The library service while its gRPC service is down.
use grpc_gateway_rust.Prelude.{ℕ, ◌≡◌, ◌≤◌, refl, Str, lit}
use grpc_gateway_rust.Http.Concrete.{list_headers, list_metadata}
use grpc_gateway_rust.Http.Message.{Response, success}
use grpc_gateway_rust.Layers.Examples.{Headers}
use grpc_gateway_rust.Gateway.Builder.{handled}
use grpc_gateway_rust.Gateway.Examples.{rendering}
use grpc_gateway_rust.Generator.Routing.{no_binding, spelled, nothing_spelled, method_spelled}
use grpc_gateway_rust.Generator.Examples.{
  naming, options, library_service, runtime, refusing, down, templates, read_request, read-IsProper,
}
use grpc_gateway_rust.Generator.Delivery.Examples.{no_decoding}
use grpc_gateway_rust.Generator.Outage.{IsRefusing, default_gateway, handled-IsErrorStatus}

refusing-IsRefusing : IsRefusing list_metadata (λ c. Str) (λ c. Str) refusing down
refusing-IsRefusing = record { fails = λ e. cc e; refuses = λ code call w. refl }

handled-IsErrorStatus_example :
    (resp : Response Headers) × ((handled list_headers list_metadata Unit Unit Unit ℕ no_decoding
        (default_gateway list_headers list_metadata runtime naming options
          (λ c. Str)
          (λ c. Str)
          refusing
          no_decoding
          Unit
          Unit
          Unit
          rendering
          (λ w. lit "0")
          library_service)
        read_request
        0).0
      ≡ success resp)
    × (400 ≤ resp.status)
    × (resp.status ≤ 504)
handled-IsErrorStatus_example =
    handled-IsErrorStatus list_headers list_metadata runtime naming options (λ c. Str) (λ c. Str)
      refusing no_decoding Unit Unit Unit rendering (λ w. lit "0") library_service read_request 0
      down refusing-IsRefusing templates refl
      (method_spelled (spelled refl refl read-IsProper no_binding) nothing_spelled)
