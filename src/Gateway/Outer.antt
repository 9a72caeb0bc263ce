-- ===== src/Gateway/Outer.antt =====
-- gateway-runtime/src/gateway.rs, `into_service`: the whole stack of a gateway.
use grpc_gateway_rust.Prelude.{ℕ, Option, none, some, ◌++◌, Str, lit}
use grpc_gateway_rust.Http.{HeaderApi, MetadataApi}
use grpc_gateway_rust.Http.Message.{Request, Response, Body, Outcome, success, failure, Service}
use grpc_gateway_rust.Errors.{GatewayError, custom}
use grpc_gateway_rust.Layers.Governance.{GovernanceConfig, GatewayRetryPolicy}
use grpc_gateway_rust.Layers.Body.{VecRequest, wrap_request, vec_body_call, box_response_body}
use grpc_gateway_rust.Layers.Health.{ServingStatus, new_health, health_call}
use grpc_gateway_rust.Gateway.Builder.{Gateway, inner_service}

-- `Box<dyn Error>`: an error of the gateway, or one of a layer of tower, as its display text.
pub data BoxError : Type 0 where
  of_gateway : GatewayError → BoxError
  of_layer : Str → BoxError

pub data BoxOutcome (H : Type 0) : Type 0 where
  succeeded : Response H → BoxOutcome H
  failed : BoxError → BoxOutcome H

abbrev pub gateway_error_to_box_error : GatewayError → BoxError
gateway_error_to_box_error e = of_gateway e

abbrev pub display_box : (GatewayError → Str) → BoxError → Str
display_box to_string (of_gateway e) = to_string e
display_box to_string (of_layer text) = text

abbrev pub box_error_to_gateway_error : (GatewayError → Str) → BoxError → GatewayError
box_error_to_gateway_error to_string e =
    custom 500 (lit "Governance error: " ++ display_box to_string e)

-- `MapErrLayer`, in both directions
abbrev pub to_box_outcome : {H : Type 0} → Outcome H → BoxOutcome H
to_box_outcome (success resp) = succeeded resp
to_box_outcome (failure e) = failed (gateway_error_to_box_error e)

abbrev pub of_box_outcome : {H : Type 0} → (GatewayError → Str) → BoxOutcome H → Outcome H
of_box_outcome to_string (succeeded resp) = success resp
of_box_outcome to_string (failed e) = failure (box_error_to_gateway_error to_string e)

-- `MapResponseLayer::new(box_response_body)`
abbrev pub box_outcome : {H : Type 0} → (GatewayError → Str) → Outcome H → Outcome H
box_outcome to_string (success resp) = success (box_response_body to_string resp)
box_outcome to_string (failure e) = failure e

-- What the stack takes of tower and tower-http: the retry layer; the trace layer with the CORS layer,
-- on the adapted requests; buffer, load shedding, limits of rate and concurrency and the timeout, by
-- their configuration; and compression. `to_string` is `Display` of an error (Errors.Handling.display
-- with the texts of statuses), and `full` is `http_body_util::Full`.
pub record TowerLayers (H M W Cors Compression : Type 0) : Type 0 where
  pub clock : W → ℕ
  pub retry_layer : GatewayRetryPolicy → Service H M W → Service H M W
  pub trace_and_cors :
      Option Cors → (VecRequest H M → W → Outcome H × W) → VecRequest H M → W → Outcome H × W
  pub govern :
      GovernanceConfig → (Request H M → W → BoxOutcome H × W) → Request H M → W → BoxOutcome H × W
  pub compress : Compression → Service H M W → Service H M W
  pub report : Str → ServingStatus → W → W
  pub to_string : GatewayError → Str
  pub full : Str → Body

module _ (api : HeaderApi) (md : MetadataApi) (Cors Compression Token W : Type 0)
    (decode : Str → Option Str) (layers : TowerLayers api.Headers md.Metadata W Cors Compression)
    (g : Gateway api md Cors Compression Token W) where
  abbrev pub adapted_service : Request api.Headers md.Metadata → W → Outcome api.Headers × W
  adapted_service req w =
      layers.trace_and_cors g.cors_layer
        (vec_body_call
          (inner_service api md Cors Compression Token W decode g layers.clock layers.retry_layer))
        (wrap_request req) w

  abbrev pub boxed_service : Request api.Headers md.Metadata → W → BoxOutcome api.Headers × W
  boxed_service req w = let answer = adapted_service req w in (to_box_outcome answer.0, answer.1)

  unfoldable pub governed_stack : Service api.Headers md.Metadata W
  unfolding vec_body_call
  governed_stack req w =
      let answer = layers.govern g.governance_config boxed_service req w in
      (of_box_outcome layers.to_string answer.0, answer.1)

  unfoldable pub normalized_stack : Service api.Headers md.Metadata W
  unfolding governed_stack box_response_body
  normalized_stack req w =
      let answer = governed_stack req w in (box_outcome layers.to_string answer.0, answer.1)

  unfoldable pub service_with_health : Service api.Headers md.Metadata W
  unfolding normalized_stack health_call
  service_with_health = elim g.health_check_config [
    | none ↦ normalized_stack
    | some config ↦
        health_call api layers.full
          (new_health api layers.full normalized_stack layers.report config)
  ]

  unfoldable pub into_service : Service api.Headers md.Metadata W
  unfolding service_with_health box_response_body
  into_service req w = elim g.compression_layer [
    | none ↦ service_with_health req w
    | some compression ↦
        let answer = layers.compress compression service_with_health req w in
        (box_outcome layers.to_string answer.0, answer.1)
  ]
