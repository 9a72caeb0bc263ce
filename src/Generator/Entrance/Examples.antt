-- ===== src/Generator/Entrance/Examples.antt =====
-- A request for a shelf, through the whole stack.
use grpc_gateway_rust.Prelude.{ℕ, ◌≡◌, refl, Str, lit}
use grpc_gateway_rust.Http.Concrete.{list_headers, list_metadata}
use grpc_gateway_rust.Http.Message.{Response, success}
use grpc_gateway_rust.Layers.Examples.{Headers}
use grpc_gateway_rust.Layers.Body.{box_response_body}
use grpc_gateway_rust.Gateway.Outer.{into_service}
use grpc_gateway_rust.Gateway.Passing.{IsPassing}
use grpc_gateway_rust.Gateway.Examples.{rendering, layers}
use grpc_gateway_rust.Generator.Routing.{no_binding, spelled, nothing_spelled, method_spelled}
use grpc_gateway_rust.Generator.Examples.{
  naming, options, library_service, runtime, refusing, templates, read_request, read-IsProper,
}
use grpc_gateway_rust.Generator.Delivery.Examples.{no_decoding}
use grpc_gateway_rust.Generator.Outage.{default_gateway}
use grpc_gateway_rust.Generator.Entrance.{Allowed, into_service-Delivered}

layers-IsPassing : IsPassing layers
layers-IsPassing = record { traced = λ s q w. refl; ungoverned = λ s q w. refl }

into_service-Delivered_example :
    (resp : Response Headers) × (after : ℕ) × Allowed list_headers list_metadata runtime naming
      options
      (λ c. Str)
      (λ c. Str)
      refusing
      no_decoding
      Unit
      Unit
      Unit
      rendering
      (λ w. lit "0")
      layers
      library_service
      templates
      read_request
      0
      (success resp, after)
    × (into_service list_headers list_metadata Unit Unit Unit ℕ no_decoding layers
          (default_gateway list_headers list_metadata runtime naming options
            (λ c. Str)
            (λ c. Str)
            refusing
            no_decoding
            Unit
            Unit
            Unit
            rendering
            (λ w. lit "0")
            library_service)
          read_request
          0
        ≡ (success (box_response_body layers.to_string resp), after))
into_service-Delivered_example =
    into_service-Delivered list_headers list_metadata runtime naming options (λ c. Str) (λ c. Str)
      refusing no_decoding Unit Unit Unit rendering (λ w. lit "0") layers library_service templates
      read_request 0 layers-IsPassing refl
      (method_spelled (spelled refl refl read-IsProper no_binding) nothing_spelled)
