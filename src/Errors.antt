-- ===== src/Errors.antt =====
-- gateway-runtime/src/errors.rs: the errors of the gateway and their HTTP status codes.
pub mod Laws
pub mod Handling
use grpc_gateway_rust.Prelude.{ℕ, Str}
use grpc_gateway_rust.Http.{
  Code, ok, cancelled, unknown, invalid_argument, deadline_exceeded, not_found, already_exists,
  permission_denied, resource_exhausted, failed_precondition, aborted, out_of_range, unimplemented,
  internal, unavailable, data_loss, unauthenticated, Status,
}

-- A source error is kept as its display text.
pub data GatewayError : Type 0 where
  encoding : Str → GatewayError
  upstream : Status → GatewayError
  http : Str → GatewayError
  custom : ℕ → Str → GatewayError
  method_not_allowed : GatewayError
  no_route : GatewayError

-- `StatusCode::from_u16(499)` is valid, so the fallback of `Cancelled` is not taken.
unfoldable pub map_code_to_status : Code → ℕ
map_code_to_status ok = 200
map_code_to_status cancelled = 499
map_code_to_status unknown = 500
map_code_to_status invalid_argument = 400
map_code_to_status deadline_exceeded = 504
map_code_to_status not_found = 404
map_code_to_status already_exists = 409
map_code_to_status permission_denied = 403
map_code_to_status resource_exhausted = 429
map_code_to_status failed_precondition = 400
map_code_to_status aborted = 409
map_code_to_status out_of_range = 400
map_code_to_status unimplemented = 501
map_code_to_status internal = 500
map_code_to_status unavailable = 503
map_code_to_status data_loss = 500
map_code_to_status unauthenticated = 401

-- The status that both error handlers choose.
unfoldable pub status_of : GatewayError → ℕ
unfolding map_code_to_status
status_of (upstream s) = map_code_to_status s.code
status_of (http e) = 500
status_of (custom s m) = s
status_of method_not_allowed = 405
status_of no_route = 404
status_of (encoding e) = 400
