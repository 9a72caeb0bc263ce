-- ===== src/Layers/Health.antt =====
-- gateway-runtime/src/layers/health.rs: the layer that answers the probes of liveness and readiness.
pub mod Probes
use grpc_gateway_rust.Prelude.{Map, Str, [], lit, insert, str_eq, ◌&&◌, ◌||◌, if◌then◌else◌}
use grpc_gateway_rust.Http.{HeaderApi}
use grpc_gateway_rust.Http.Message.{Response, Body, Outcome, success, Service}

-- `tonic_health::ServingStatus`
pub data ServingStatus : Type 0 where
  unknown_status serving not_serving : ServingStatus

pub record HealthCheckConfig : Type 0 where
  pub liveness_path : Str
  pub readiness_path : Str
  pub liveness_service : Str
  pub readiness_service : Str

-- `HealthCheckConfig::default()`
abbrev pub default_health_config : HealthCheckConfig
default_health_config = record {
  liveness_path = lit "/healthz";
  readiness_path = lit "/readyz";
  liveness_service = [];
  readiness_service = [];
}

-- `report` is `HealthReporter::set_service_status`, and `full` is `http_body_util::Full`.
module _ (api : HeaderApi) (full : Str → Body) where
  pub record HealthService (M W : Type 0) : Type 0 where
    pub inner : Service api.Headers M W
    pub config : HealthCheckConfig
    pub status_map : Map ServingStatus
    pub report : Str → ServingStatus → W → W

  -- `HealthService::new`
  abbrev pub new_health :
      {M W : Type 0}
      → Service api.Headers M W
      → (Str → ServingStatus → W → W)
      → HealthCheckConfig
      → HealthService M W
  new_health inner report config = record {
    inner = inner;
    config = config;
    status_map = [];
    report = report;
  }

  unfoldable pub set_serving_status :
      {M W : Type 0} → Str → ServingStatus → HealthService M W → W → HealthService M W × W
  set_serving_status service status health w = (
    record health { status_map = insert service status health.status_map },
    health.report service status w,
  )

  abbrev pub serving_response : Response api.Headers
  serving_response = record {
    status = 200;
    headers = api.insert_header (lit "content-type") (lit "application/json") api.no_headers;
    body = full (lit "{\"status\": \"SERVING\"}");
  }

  unfoldable pub health_call : {M W : Type 0} → HealthService M W → Service api.Headers M W
  health_call health req w =
      if str_eq req.method (lit "GET")
      then if str_eq req.path health.config.liveness_path
        then (success serving_response, w)
        else if str_eq req.path health.config.readiness_path
        then (success serving_response, w)
        else health.inner req w
      else health.inner req w
