-- ===== src/Generator/Deployment/Examples.antt =====
-- The file of the library, behind a gateway with the defaults.
use grpc_gateway_rust.Prelude.{◌≡◌, refl, none, some, List, [], ◌∷◌, Str, done}
use grpc_gateway_rust.Http.Concrete.{list_headers, list_metadata}
use grpc_gateway_rust.Bindings.Services.{ServiceDefinition, process_file}
use grpc_gateway_rust.Bindings.Examples.{library, registry}
use grpc_gateway_rust.Matching.Examples.{read}
use grpc_gateway_rust.Gateway.Builder.{new_gateway}
use grpc_gateway_rust.Gateway.Passing.{PassesOn}
use grpc_gateway_rust.Gateway.Examples.{layers}
use grpc_gateway_rust.Generator.Sources.{
  no_more, rule_spells, none_spelled, without_rule, with_rule,
}
use grpc_gateway_rust.Generator.Examples.{
  naming, options, runtime, refusing, read_request, read-IsProper,
}
use grpc_gateway_rust.Generator.Delivery.Examples.{no_decoding, library_gateway, handler}
use grpc_gateway_rust.Generator.Deployment.{AllDeliver, process_file-AllDeliver}

layers-PassesOn : PassesOn layers
layers-PassesOn = record { traced = λ s q w. refl; governed = λ a b s q w. refl }

process_file-AllDeliver_example :
    (ds : List ServiceDefinition) × (process_file library registry ≡ done ds)
    × AllDeliver list_headers list_metadata runtime naming options
        (λ c. Str)
        (λ c. Str)
        refusing
        no_decoding
        layers
        none
        (some 4)
        library_gateway
        handler
        read_request
        0
        ds
        (((read ∷ []) ∷ []) ∷ [])
process_file-AllDeliver_example =
    process_file-AllDeliver list_headers list_metadata runtime naming options (λ c. Str) (λ c. Str)
      refusing no_decoding layers none (some 4) library_gateway handler read_request 0 library
      registry (((read ∷ []) ∷ []) ∷ []) layers-PassesOn (unfold new_gateway in refl)
      (with_rule refl (rule_spells refl read-IsProper no_more) (without_rule refl none_spelled), tt)
