-- ===== src/Layers/Metrics.antt =====
-- gateway-runtime/src/layers/metrics.rs: the layer that reports each request to a recorder.
use grpc_gateway_rust.Prelude.{ℕ, ◌-◌, Option, none, some}
use grpc_gateway_rust.Http.Message.{Request, Outcome, Service, partial_request}

-- A recorder acts on the world; the duration is in nanoseconds.
abbrev pub MetricsRecorder : Type 0 → Type 0 → Type 0 → Type 0
MetricsRecorder H M W = Request H M → Outcome H → ℕ → W → W

-- `clock` reads the monotonic clock of the world.
pub record MetricsLayer (H M W : Type 0) : Type 0 where
  pub inner : Service H M W
  pub recorder : Option (MetricsRecorder H M W)
  pub clock : W → ℕ

abbrev pub record_metrics :
    {H M W : Type 0} → Option (MetricsRecorder H M W) → Request H M → Outcome H → ℕ → W → W
record_metrics none req res duration w = w
record_metrics (some rec) req res duration w = rec req res duration w

unfoldable pub metrics_call : {H M W : Type 0} → MetricsLayer H M W → Service H M W
metrics_call layer req w =
    let start_time = layer.clock w in
    let out = layer.inner req w in
    let duration = layer.clock out.1 - start_time in
    (out.0, record_metrics layer.recorder (partial_request req) out.0 duration out.1)
