-- ===== src/Gateway.antt =====
-- gateway-runtime/src/gateway.rs: the service that dispatches to a route, the builder of a gateway,
-- and the inner stack of layers that `into_service` builds around the dispatch.
pub mod Builder
pub mod Dispatch
pub mod Stack
pub mod Answering
pub mod Outer
pub mod Availability
pub mod Passing
pub mod Examples
use grpc_gateway_rust.Prelude.{Option, none, some, Str, Map}
use grpc_gateway_rust.Http.Message.{Request, Extensions, Outcome, failure, Service}
use grpc_gateway_rust.Errors.{GatewayError, no_route}
use grpc_gateway_rust.Router.{Router, RouteMetadata, Match, match_request}

pub data UnescapingMode : Type 0 where
  all_characters default : UnescapingMode

-- The error, or none where the request may pass.
abbrev pub AuthVerifier : Type 0 → Type 0 → Type 0
AuthVerifier H M = Request H M → RouteMetadata → Option GatewayError

pub record RouterService (H M W : Type 0) : Type 0 where
  pub router : Router (Service H M W)
  pub auth_verifier : Option (AuthVerifier H M)
  pub unescaping_mode : UnescapingMode

abbrev pub verify :
    {H M : Type 0} → Option (AuthVerifier H M) → Request H M → RouteMetadata → Option GatewayError
verify none req metadata = none
verify (some verifier) req metadata = verifier req metadata

-- `req.extensions_mut().insert(params)`
abbrev pub set_params : {H M : Type 0} → Map Str → Request H M → Request H M
set_params params req = record req { extensions = record req.extensions { params = some params } }

-- What `call` does with the result of the lookup.
unfoldable pub dispatch :
    {H M W : Type 0} → Option (AuthVerifier H M) → Option (Match (Service H M W)) → Service H M W
dispatch auth none req w = (failure no_route, w)
dispatch auth (some (service, params, metadata)) req w = elim (verify auth req metadata) [
  | some e ↦ (failure e, w)
  | none ↦ service (set_params params req) w
]

-- `decode` is `percent_decode_str(..).decode_utf8()`.
module _ (decode : Str → Option Str) where
  abbrev pub unescape : UnescapingMode → Str → Str
  unescape default path = path
  unescape all_characters path = elim (decode path) [ none ↦ path | some decoded ↦ decoded ]

  unfoldable pub router_call : {H M W : Type 0} → RouterService H M W → Service H M W
  unfolding dispatch
  router_call service req w =
      let path = unescape service.unescaping_mode req.path in
      dispatch service.auth_verifier (match_request service.router req.method path) req w
