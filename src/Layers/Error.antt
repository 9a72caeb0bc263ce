-- ===== src/Layers/Error.antt =====
-- gateway-runtime/src/layers/error.rs: the layer that turns errors into responses.
use grpc_gateway_rust.Prelude.{Option, none, some}
use grpc_gateway_rust.Http.Message.{
  Request, Response, Outcome, success, failure, Service, partial_request,
}
use grpc_gateway_rust.Errors.{GatewayError}

abbrev pub ErrorHandler : Type 0 → Type 0 → Type 0
ErrorHandler H M = Request H M → GatewayError → Response H

pub record ErrorLayer (H M W : Type 0) : Type 0 where
  pub inner : Service H M W
  pub handler : Option (ErrorHandler H M)

-- The match on the result of the inner service.
abbrev pub handle : {H M : Type 0} → Option (ErrorHandler H M) → Request H M → Outcome H → Outcome H
handle handler req (success resp) = success resp
handle (some h) req (failure err) = success (h req err)
handle none req (failure err) = failure err

unfoldable pub error_call : {H M W : Type 0} → ErrorLayer H M W → Service H M W
error_call layer req w =
    let out = layer.inner req w in (handle layer.handler (partial_request req) out.0, out.1)
