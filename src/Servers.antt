-- ===== src/Servers.antt =====
-- examples/src/a_bit_of_everything/gateway.rs and examples/src/load_balancing/gateway.rs: the function
-- that hyper calls for a request, which is the same in both; they share a router of services behind
-- mutexes. The gateway of examples/src/actix_integration is a child, and so is the gRPC server behind
-- them (Upstream).
pub mod Actix
pub mod Answers
pub mod Copies
pub mod Several
pub mod Upstream
mod Examples
use grpc_gateway_rust.Prelude.{ℕ, Option, none, some, List, [], ◌∷◌, Str, lit}
use grpc_gateway_rust.Http.{HeaderApi, MetadataApi}
use grpc_gateway_rust.Http.Message.{Request, Response, Body, Outcome, success, failure, Service}
use grpc_gateway_rust.Router.{Router, Match, route, match_request}
use grpc_gateway_rust.Utilities.Sharing.{SyncService, new_sync, get_locked}
use grpc_gateway_rust.Gateway.{set_params}
use grpc_gateway_rust.Generator.Service.{MethodCode, RegistrationCode}
use grpc_gateway_rust.Generator.Emitted.{Runtime, Method, registered}

-- The generated registration at the type `SyncService`, whose `From` wraps a service.
module _ (api : HeaderApi) (md : MetadataApi) (runtime : Runtime md.Metadata) {W : Type 0}
    (In Out : MethodCode → Type 0)
    (methods : (code : MethodCode)
      → Method code.server_streaming (In code) (Out code) md.Metadata W) where
  unfoldable pub register_shared :
      List (MethodCode × RegistrationCode)
      → Router (SyncService (Service api.Headers md.Metadata W))
      → Router (SyncService (Service api.Headers md.Metadata W))
  unfolding registered
  register_shared [] router = router
  register_shared ((code, registration) ∷ rest) router = register_shared rest (
      route router registration.http_method registration.pattern
        (new_sync (registered api md runtime code (methods code) registration)))

-- `full` is `http_body_util::Full`.
module _ (api : HeaderApi) (full : Str → Body) where
  abbrev pub plain_response : ℕ → Str → Response api.Headers
  plain_response status text = record {
    status = status;
    headers = api.no_headers;
    body = full text;
  }

  -- The match on what the service returns.
  abbrev pub respond : Outcome api.Headers → Response api.Headers
  respond (success resp) = resp
  respond (failure e) = plain_response 500 []

  module _ {M W : Type 0} where
    -- The response, or none for a panic, on which hyper closes the connection. The guard of the mutex is
    -- dropped before the call, which goes to a clone of the service.
    unfoldable pub serve_matched :
        Option (Match (SyncService (Service api.Headers M W)))
        → Request api.Headers M
        → W
        → Option (Response api.Headers) × W
    unfolding get_locked
    serve_matched none req w = (some (plain_response 404 []), w)
    serve_matched (some (service, params, metadata)) req w = elim (get_locked service) [
      | none ↦ (none, w)
      | some s ↦ let out = s (set_params params req) w in (some (respond out.0), out.1)
    ]

    -- A request and its collected body, or none where the body cannot be collected.
    unfoldable pub serve :
        Router (SyncService (Service api.Headers M W))
        → Request api.Headers M
        → Option Str
        → W
        → Option (Response api.Headers) × W
    unfolding serve_matched
    serve router req none w = (some (plain_response 400 (lit "Bad Request")), w)
    serve router req (some bytes) w =
        serve_matched (match_request router req.method req.path) (record req { body = bytes }) w
