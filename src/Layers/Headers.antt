-- ===== src/Layers/Headers.antt =====
-- gateway-runtime/src/layers/headers.rs: the layer that renames and drops headers.
pub mod Renaming
use grpc_gateway_rust.Prelude.{Option, none, some, List, [], ◌∷◌, Str, ◌>>=◌}
use grpc_gateway_rust.Http.{HeaderApi}
use grpc_gateway_rust.Http.Message.{Request, Response, Outcome, success, failure, Service}

abbrev pub HeaderMatcher : Type 0
HeaderMatcher = Str → Option Str

module _ (api : HeaderApi) where
  pub record HeaderLayer (M W : Type 0) : Type 0 where
    pub inner : Service api.Headers M W
    pub incoming_matcher : Option HeaderMatcher
    pub outgoing_matcher : Option HeaderMatcher

  -- The name under which a header is passed on.
  abbrev pub new_name : HeaderMatcher → Str → Option Str
  new_name matcher key = matcher key >>= api.parse_name

  abbrev pub insert_named : Option Str → Str → api.Headers → api.Headers
  insert_named none value h = h
  insert_named (some k) value h = api.insert_header k value h

  -- The loop over the headers.
  unfoldable pub match_entries : HeaderMatcher → List (Str × Str) → api.Headers → api.Headers
  match_entries matcher [] h = h
  match_entries matcher ((key, value) ∷ es) h =
      match_entries matcher es (insert_named (new_name matcher key) value h)

  unfoldable pub match_headers : Option HeaderMatcher → api.Headers → api.Headers
  unfolding match_entries
  match_headers none h = h
  match_headers (some matcher) h = match_entries matcher (api.entries h) api.no_headers

  unfoldable pub match_response : Option HeaderMatcher → Outcome api.Headers → Outcome api.Headers
  unfolding match_headers
  match_response matcher (failure e) = failure e
  match_response matcher (success resp) =
      success (record resp { headers = match_headers matcher resp.headers })

  unfoldable pub header_call : {M W : Type 0} → HeaderLayer M W → Service api.Headers M W
  unfolding match_response match_headers
  header_call layer req w =
      let req' = record req { headers = match_headers layer.incoming_matcher req.headers } in
      let out = layer.inner req' w in (match_response layer.outgoing_matcher out.0, out.1)
