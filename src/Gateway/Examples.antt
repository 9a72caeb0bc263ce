-- ===== src/Gateway/Examples.antt =====
-- The theorems on the gateway at a gateway with the defaults and one route.
use grpc_gateway_rust.Prelude.{ℕ, refl, Option, none, some, List, [], ◌∷◌, Str, lit}
use grpc_gateway_rust.Http.{MetadataEntry}
use grpc_gateway_rust.Http.Concrete.{list_headers, list_metadata}
use grpc_gateway_rust.Http.Message.{Request, Response, frame, data_frame, Service}
use grpc_gateway_rust.Errors.{GatewayError}
use grpc_gateway_rust.Compiler.{compile}
use grpc_gateway_rust.Router.{Router, new, route}
use grpc_gateway_rust.Layers.Examples.{Headers, a_request, answer_ok}
use grpc_gateway_rust.Defaults.{Rendering, default_error_handler}
use grpc_gateway_rust.Gateway.{RouterService, all_characters}
use grpc_gateway_rust.Gateway.Builder.{Gateway, new_gateway, handled}
use grpc_gateway_rust.Layers.Health.{default_health_config}
use grpc_gateway_rust.Gateway.Outer.{TowerLayers, into_service}
use grpc_gateway_rust.Gateway.Availability.{Outcomes, into_service-Outcomes}
use grpc_gateway_rust.Gateway.Answering.{Handled, handled-Handled}

abbrev pub one_route : Router (Service Headers (List MetadataEntry) ℕ)
one_route = route new (lit "GET") (compile (lit "/v1/{name}")) answer_ok

abbrev no_decoding : Str → Option Str
no_decoding s = some s

abbrev a_service : RouterService Headers (List MetadataEntry) ℕ
a_service = record { router = one_route; auth_verifier = none; unescaping_mode = all_characters }

abbrev v1_request : Request Headers (List MetadataEntry)
v1_request = record a_request { path = lit "/v1/x" }

abbrev pub rendering : Rendering
rendering = record {
  display = λ e. lit "error";
  to_json = λ m. m.message;
  full = λ bytes. frame (data_frame bytes) ∷ [];
}

-- The world is a counter.
abbrev a_gateway : Gateway list_headers list_metadata Unit Unit Unit ℕ
a_gateway =
    new_gateway list_headers list_metadata Unit Unit Unit ℕ rendering (λ w. lit "0") one_route

abbrev handler : Request Headers (List MetadataEntry) → GatewayError → Response Headers
handler = default_error_handler list_headers rendering

handled-Handled_example :
    Handled list_headers list_metadata no_decoding a_gateway handler v1_request 0
      (handled list_headers list_metadata Unit Unit Unit ℕ no_decoding a_gateway v1_request 0)
handled-Handled_example =
    handled-Handled list_headers list_metadata no_decoding a_gateway handler v1_request 0
      (unfold new_gateway in refl)

-- Every layer of tower as it is without a limit.
abbrev pub layers : TowerLayers Headers (List MetadataEntry) ℕ Unit Unit
layers = record {
  clock = λ w. w;
  retry_layer = λ policy service. service;
  trace_and_cors = λ cors service. service;
  govern = λ config service. service;
  compress = λ c service. service;
  report = λ name status w. w;
  to_string = λ e. lit "error";
  full = λ bytes. frame (data_frame bytes) ∷ [];
}

abbrev probed_gateway : Gateway list_headers list_metadata Unit Unit Unit ℕ
probed_gateway = record a_gateway { health_check_config = some default_health_config }

into_service-Outcomes_example :
    Outcomes list_headers list_metadata Unit Unit Unit ℕ no_decoding layers probed_gateway a_request
      0
      (into_service list_headers list_metadata Unit Unit Unit ℕ no_decoding layers probed_gateway
        a_request 0)
into_service-Outcomes_example =
    into_service-Outcomes list_headers list_metadata Unit Unit Unit ℕ no_decoding layers
      probed_gateway a_request 0 (unfold new_gateway in refl)
