-- ===== src/Layers/Tracing.antt =====
-- gateway-runtime/src/layers/tracing.rs: the layer that calls a handler before and after a request.
use grpc_gateway_rust.Prelude.{Option, none, some}
use grpc_gateway_rust.Http.Message.{Request, Outcome, Service}

-- The handlers act on the world; `T` is the type of the token that goes from one to the other.
abbrev pub TracingStartHandler : Type 0 → Type 0 → Type 0 → Type 0 → Type 0
TracingStartHandler T H M W = Request H M → W → T × W

abbrev pub TracingEndHandler : Type 0 → Type 0 → Type 0 → Type 0
TracingEndHandler T H W = T → Outcome H → W → W

pub record TraceLayer (T H M W : Type 0) : Type 0 where
  pub inner : Service H M W
  pub start : Option (TracingStartHandler T H M W)
  pub end : Option (TracingEndHandler T H W)

module _ {T H W : Type 0} where
  abbrev pub trace_start :
      {M : Type 0} → Option (TracingStartHandler T H M W) → Request H M → W → Option T × W
  trace_start none req w = (none, w)
  trace_start (some start) req w = let out = start req w in (some out.0, out.1)

  abbrev pub trace_end : Option (TracingEndHandler T H W) → Option T → Outcome H → W → W
  trace_end none token res w = w
  trace_end (some end) none res w = w
  trace_end (some end) (some t) res w = end t res w

unfoldable pub trace_call : {T H M W : Type 0} → TraceLayer T H M W → Service H M W
trace_call layer req w =
    let started = trace_start layer.start req w in
    let out = layer.inner req started.1 in (out.0, trace_end layer.end started.0 out.0 out.1)
