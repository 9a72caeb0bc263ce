-- ===== src/Layers/Health/Probes.antt =====
-- What the probes report.
use grpc_gateway_rust.Prelude.{◌≡◌, refl, Str}
use grpc_gateway_rust.Http.{HeaderApi}
use grpc_gateway_rust.Http.Message.{Request, Body}
use grpc_gateway_rust.Layers.Health.{ServingStatus, HealthService, set_serving_status, health_call}

-- Setting the status of a service, also to not serving, changes no answer of the layer: the probes
-- of liveness and readiness do not depend on it.
pub health_call-set_serving_status :
    (api : HeaderApi) (full : Str → Body) {M W : Type 0} (health : HealthService api full M W)
    (service : Str) (status : ServingStatus) (req : Request api.Headers M) (w v : W)
    → health_call api full (set_serving_status api full service status health v).0 req w
      ≡ health_call api full health req w
unfolding set_serving_status health_call
health_call-set_serving_status api full health service status req w v = refl
