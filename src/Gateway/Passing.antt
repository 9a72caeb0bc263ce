-- ===== src/Gateway/Passing.antt =====
-- gateway-runtime/src/gateway.rs, `into_service` of a gateway with the defaults: the outer stack passes
-- on what the inner one answers.
use grpc_gateway_rust.Prelude.{ℕ, ◌≡◌, none, Option, Str}
use grpc_gateway_rust.Http.{HeaderApi, MetadataApi}
use grpc_gateway_rust.Http.Message.{Request, Response, Outcome, success, Service}
use grpc_gateway_rust.Router.{Router}
use grpc_gateway_rust.Defaults.{Rendering}
use grpc_gateway_rust.Layers.Governance.{no_governance, GovernanceConfig}
use grpc_gateway_rust.Layers.Body.{VecRequest, box_response_body}
use grpc_gateway_rust.Layers.Metrics.{metrics_call}
use grpc_gateway_rust.Layers.Tracing.{trace_call}
use grpc_gateway_rust.Gateway.Builder.{Gateway, new_gateway, handled}
use grpc_gateway_rust.Gateway.Outer.{
  TowerLayers, BoxOutcome, governed_stack, normalized_stack, service_with_health, into_service,
}

-- What tower and tower-http document of their layers where none is configured: the trace layer only
-- logs, and a buffer around no limit passes on what is asked and answered.
pub record IsPassing {H M W Cors Compression : Type 0} (layers : TowerLayers H M W Cors Compression)
    : Type 0 where
  pub traced :
      (service : VecRequest H M → W → Outcome H × W) (req : VecRequest H M) (w : W)
      → layers.trace_and_cors none service req w ≡ service req w
  pub ungoverned :
      (service : Request H M → W → BoxOutcome H × W) (req : Request H M) (w : W)
      → layers.govern no_governance service req w ≡ service req w

module _ (api : HeaderApi) (md : MetadataApi) (Cors Compression Token W : Type 0)
    (decode : Str → Option Str) (layers : TowerLayers api.Headers md.Metadata W Cors Compression)
    (r : Rendering) (nanos : W → Str) (router : Router (Service api.Headers md.Metadata W)) where
  abbrev given : Gateway api md Cors Compression Token W
  given = new_gateway api md Cors Compression Token W r nanos router

  -- The response of the inner stack, with its body boxed.
  pub into_service-handled :
      (req : Request api.Headers md.Metadata) (w after : W) (resp : Response api.Headers)
      → IsPassing layers
      → handled api md Cors Compression Token W decode given req w ≡ (success resp, after)
      → into_service api md Cors Compression Token W decode layers given req w
        ≡ (success (box_response_body layers.to_string resp), after)
  unfolding into_service service_with_health normalized_stack governed_stack new_gateway
      metrics_call trace_call
  into_service-handled req w after resp passing inner =
      rw (passing.ungoverned, passing.traced, inner)

abbrev pub body_limits : Option ℕ → Option ℕ → GovernanceConfig
body_limits max_req max_resp = record no_governance {
  max_request_body_size = max_req;
  max_response_body_size = max_resp;
}

-- The same of a governance that limits the size of bodies only, which the layers of tower do not read.
pub record PassesOn {H M W Cors Compression : Type 0} (layers : TowerLayers H M W Cors Compression)
    : Type 0 where
  pub traced :
      (service : VecRequest H M → W → Outcome H × W) (req : VecRequest H M) (w : W)
      → layers.trace_and_cors none service req w ≡ service req w
  pub governed :
      (max_req max_resp : Option ℕ) (service : Request H M → W → BoxOutcome H × W)
      (req : Request H M) (w : W)
      → layers.govern (body_limits max_req max_resp) service req w ≡ service req w

module _ (api : HeaderApi) (md : MetadataApi) {Cors Compression Token W : Type 0}
    (decode : Str → Option Str) (layers : TowerLayers api.Headers md.Metadata W Cors Compression)
    (max_req max_resp : Option ℕ) where
  -- A gateway without health check, compression, CORS and observers, whose governance only limits bodies.
  abbrev pub without_layers :
      Gateway api md Cors Compression Token W → Gateway api md Cors Compression Token W
  without_layers g = record g {
    metrics_recorder = none;
    tracing_start = none;
    tracing_end = none;
    cors_layer = none;
    compression_layer = none;
    governance_config = body_limits max_req max_resp;
    health_check_config = none;
  }

  pub into_service-without_layers :
      (g : Gateway api md Cors Compression Token W) (req : Request api.Headers md.Metadata)
      (w after : W) (resp : Response api.Headers)
      → PassesOn layers
      → handled api md Cors Compression Token W decode (without_layers g) req w
        ≡ (success resp, after)
      → into_service api md Cors Compression Token W decode layers (without_layers g) req w
        ≡ (success (box_response_body layers.to_string resp), after)
  unfolding into_service service_with_health normalized_stack governed_stack metrics_call trace_call
  into_service-without_layers g req w after resp passing inner =
      rw (passing.governed, passing.traced, inner)
