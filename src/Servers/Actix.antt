-- ===== src/Servers/Actix.antt =====
-- examples/src/actix_integration/gateway.rs: the handler that bridges actix-web, whose types are those
-- of an earlier version of the crate http, to the router of the gateway.
use grpc_gateway_rust.Prelude.{ℕ, Option, none, some, List, [], ◌∷◌, ◌++◌, Str, lit, ◌>>=◌}
use grpc_gateway_rust.Http.{HeaderApi}
use grpc_gateway_rust.Http.Message.{
  Request, Response, Body, Outcome, success, failure, Service, no_extensions,
}
use grpc_gateway_rust.Errors.{GatewayError}
use grpc_gateway_rust.Router.{Router, Match, match_request}
use grpc_gateway_rust.Utilities.Sharing.{SyncService, get_locked}
use grpc_gateway_rust.Gateway.{set_params}

-- `actix_web::HttpRequest` with the headers in the order of iteration, and `web::Bytes`.
pub record ActixRequest : Type 0 where
  pub method : Str
  pub uri : Str
  pub path : Str
  pub headers : List (Str × Str)
  pub body : Str

pub record HttpResponse (H : Type 0) : Type 0 where
  pub status : ℕ
  pub headers : H
  pub body : Str

-- What the handler calls: the conversions between the two versions, none where they fail; the iteration
-- of `for (k, v) in parts.headers`; `collect`; and `{:?}` of an error.
pub record Bridge (H : Type 0) : Type 0 where
  pub to_method : Str → Option Str
  -- The path and the query of a URI.
  pub to_uri : Str → Option (Str × Option Str)
  pub to_name : Str → Option Str
  pub to_value : Str → Option Str
  pub to_status : ℕ → Option ℕ
  pub into_iter : H → List (Option Str × Str)
  pub collect : Body → Option Str
  pub debug : GatewayError → Str

module _ (api actix : HeaderApi) (bridge : Bridge api.Headers) where
  abbrev pub converted : Str → Str → Option (Str × Str)
  converted k v = bridge.to_name k >>= λ key. bridge.to_value v >>= λ val. some (key, val)

  abbrev pub insert_converted :
      (target : HeaderApi) → Option (Str × Str) → target.Headers → target.Headers
  insert_converted target none h = h
  insert_converted target (some (key, val)) h = target.insert_header key val h

  -- The loop over the headers of the request.
  unfoldable pub copy_request_headers : List (Str × Str) → api.Headers → api.Headers
  copy_request_headers [] h = h
  copy_request_headers ((k, v) ∷ es) h =
      copy_request_headers es (insert_converted api (converted k v) h)

  -- The loop over the headers of the response; a further value of a name comes without its name.
  unfoldable pub copy_response_headers : List (Option Str × Str) → actix.Headers → actix.Headers
  copy_response_headers [] h = h
  copy_response_headers ((none, v) ∷ es) h = copy_response_headers es h
  copy_response_headers ((some key, v) ∷ es) h =
      copy_response_headers es (insert_converted actix (converted key v) h)

  abbrev pub text_response : ℕ → Str → HttpResponse actix.Headers
  text_response status text = record { status = status; headers = actix.no_headers; body = text }

  -- The response of the service, or none for a panic on its status.
  unfoldable pub bridge_response : Response api.Headers → Option (HttpResponse actix.Headers)
  unfolding copy_response_headers
  bridge_response resp = elim (bridge.collect resp.body) [
    | none ↦ some (text_response 500 (lit "Body Error"))
    | some bytes ↦ bridge.to_status resp.status >>= λ status. some (record {
      status = status;
      headers = copy_response_headers (bridge.into_iter resp.headers) actix.no_headers;
      body = bytes;
    })
  ]

  abbrev pub bridge_outcome : Outcome api.Headers → Option (HttpResponse actix.Headers)
  bridge_outcome (success resp) = bridge_response resp
  bridge_outcome (failure e) = some (text_response 500 (lit "Gateway Error: " ++ bridge.debug e))

  -- The request for the router, or none for a panic on its method or its URI.
  unfoldable pub bridge_request : {M : Type 0} → ActixRequest → Option (Request api.Headers M)
  unfolding copy_request_headers
  bridge_request req = bridge.to_method req.method >>= λ method. bridge.to_uri req.uri >>= λ uri.
      some (record {
        method = method;
        path = uri.0;
        query = uri.1;
        version = 11;
        headers = copy_request_headers req.headers api.no_headers;
        extensions = no_extensions;
        body = req.body;
      })

  module _ {M W : Type 0} where
    unfoldable pub handle_matched :
        Option (Match (SyncService (Service api.Headers M W)))
        → Request api.Headers M
        → W
        → Option (HttpResponse actix.Headers) × W
    unfolding get_locked bridge_response
    handle_matched none req w = (some (text_response 404 []), w)
    handle_matched (some (service, params, metadata)) req w = elim (get_locked service) [
      | none ↦ (none, w)
      | some s ↦ let out = s (set_params params req) w in (bridge_outcome out.0, out.1)
    ]

    -- The response, or none for a panic. The path is that of the original URI.
    unfoldable pub gateway_handler :
        Router (SyncService (Service api.Headers M W))
        → ActixRequest
        → W
        → Option (HttpResponse actix.Headers) × W
    unfolding bridge_request handle_matched
    gateway_handler router actix_req w = elim (bridge_request actix_req) [
      | none ↦ (none, w)
      | some req ↦ handle_matched (match_request router req.method actix_req.path) req w
    ]
