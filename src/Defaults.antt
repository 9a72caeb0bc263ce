-- ===== src/Defaults.antt =====
-- gateway-runtime/src/defaults.rs and gateway-runtime/src/handlers.rs: the handlers that a gateway
-- uses unless it is given others, and those that mirror the Go gateway.
pub mod Laws
pub mod Matchers
mod Examples
use grpc_gateway_rust.Prelude.{
  ℕ, Bool, true, false, not, ◌||◌, Option, none, some, List, [], ◌∷◌, ◌++◌, Str, lit, str_eq,
  contains, to_lowercase, is_empty, parse_uint, leb, ltb, if◌then◌else◌, ◌>>=◌,
}
use grpc_gateway_rust.Http.{
  HeaderApi, unauthenticated, MetadataApi, MetadataKind, ascii, MetadataEntry,
}
use grpc_gateway_rust.Http.Message.{Request, Response, Body}
use grpc_gateway_rust.Errors.{GatewayError, upstream, status_of}
use grpc_gateway_rust.Router.{AuthLocation, header, query, cookie, AuthConfig, RouteMetadata}

-- The JSON object of an error response.
pub record ErrorMessage : Type 0 where
  pub message : Str
  pub status_code : ℕ
  pub title : Str

-- What writes an error: its `Display`, `serde_json::to_vec(..).unwrap_or_default()`, and
-- `http_body_util::Full`.
pub record Rendering : Type 0 where
  pub display : GatewayError → Str
  pub to_json : ErrorMessage → Str
  pub full : Str → Body

-- The matchers of header names.
unfoldable pub default_incoming_header_matcher : Str → Option Str
default_incoming_header_matcher key =
    let key_lower = to_lowercase key in
    if str_eq key_lower (lit "authorization")
    then none
    else if str_eq key_lower (lit "x-request-id")
    then none
    else if str_eq key_lower (lit "refresh")
    then some (lit "x-refresh-token")
    else some key_lower

unfoldable pub default_outgoing_header_matcher : Str → Option Str
default_outgoing_header_matcher key = some (to_lowercase key)

unfoldable pub incoming_header_matcher : Str → Option Str
incoming_header_matcher key =
    let key_lower = to_lowercase key in
    if str_eq key_lower (lit "authorization")
    then none
    else if str_eq key_lower (lit "refresh")
    then some (lit "x-refresh-token")
    else some key_lower

unfoldable pub outgoing_header_matcher : Str → Option Str
outgoing_header_matcher key = some (to_lowercase key)

abbrev pub first : List Str → Option Str
first [] = none
first (v ∷ vs) = some v

module _ (api : HeaderApi) where
  abbrev pub json_headers : api.Headers
  json_headers = api.insert_header (lit "content-type") (lit "application/json") api.no_headers

  unfoldable pub default_error_handler :
      {M : Type 0} → Rendering → Request api.Headers M → GatewayError → Response api.Headers
  unfolding status_of
  default_error_handler r req err =
      let msg : ErrorMessage = record {
        message = r.display err;
        status_code = status_of err;
        title = lit "Error";
      } in
      record { status = status_of err; headers = json_headers; body = r.full (r.to_json msg) }

  unfoldable pub custom_http_error :
      {M : Type 0} → Rendering → Request api.Headers M → GatewayError → Response api.Headers
  unfolding status_of default_error_handler
  custom_http_error r req err =
      let code = status_of err in
      let msg : ErrorMessage = record {
        message = r.display err;
        status_code = code;
        title = lit "Error";
      } in
      if leb code 300 || ltb 505 code
      then default_error_handler r req err
      else record { status = code; headers = json_headers; body = r.full (r.to_json msg) }

  -- The status that a value of `x-http-code` names.
  unfoldable pub status_override : Str → Option ℕ
  status_override val = api.to_str val >>= parse_uint 65536 >>= api.from_u16

  abbrev pub set_status : Option ℕ → ℕ → ℕ
  set_status none old = old
  set_status (some status) old = status

  unfoldable pub default_response_modifier :
      {M : Type 0} → Request api.Headers M → Response api.Headers → Response api.Headers
  unfolding status_override
  default_response_modifier req resp = elim (first (api.get_all (lit "x-http-code") resp.headers)) [
    | none ↦ resp
    | some val ↦ record resp {
      status = set_status (status_override val) resp.status;
      headers =
          api.remove_header (lit "grpc-metadata-x-http-status-code")
            (api.remove_header (lit "x-http-code") resp.headers);
    }
  ]

  unfoldable pub http_response_modifier :
      {M : Type 0} → Request api.Headers M → Response api.Headers → Response api.Headers
  unfolding status_override
  http_response_modifier req resp = elim (first (api.get_all (lit "x-http-code") resp.headers)) [
    | none ↦ resp
    | some val ↦ record resp {
      status = set_status (status_override val) resp.status;
      headers =
          api.remove_header (lit "grpc-metadata-x-http-status-code")
            (api.remove_header (lit "x-http-code") resp.headers);
    }
  ]

  -- `headers.contains_key(name)`: the name is read as a header name first.
  abbrev pub contains_key : Str → api.Headers → Bool
  contains_key name h = elim (api.parse_name name) [
    | none ↦ false
    | some k ↦ not (is_empty (api.get_all k h))
  ]

  abbrev pub credential_text : Str → Option Str → Bool
  credential_text name none = false
  credential_text name (some text) = contains text (name ++ lit "=")

  -- Is the credential where the route asks for it?
  unfoldable pub is_present : {M : Type 0} → AuthConfig → Request api.Headers M → Bool
  is_present auth req = elim auth.location [
    | header ↦ contains_key auth.name req.headers
    | query ↦ credential_text auth.name req.query
    | cookie ↦
        credential_text auth.name (first (api.get_all (lit "cookie") req.headers) >>= api.to_str)
  ]

  -- The error, or none where the request may pass.
  unfoldable pub default_auth_verifier :
      {M : Type 0} → Request api.Headers M → RouteMetadata → Option GatewayError
  unfolding is_present
  default_auth_verifier req metadata = elim metadata.auth_required [
    | none ↦ none
    | some auth ↦
        if str_eq auth.scheme (lit "ApiKey")
        then if is_present auth req
          then none
          else some (
              upstream (record {
                code = unauthenticated;
                message = lit "Missing authentication: " ++ auth.name;
              }))
        else none
  ]

-- `nanos` writes the time since the epoch; the value of a key is put if it parses.
module _ (api : MetadataApi) {W : Type 0} (nanos : W → Str) where
  abbrev pub put_text : Str → Option Str → api.Metadata → api.Metadata
  put_text k none m = m
  put_text k (some v) m = api.put_entry (record { kind = ascii; key = k; value = v }) m

  unfoldable pub default_metadata_annotator :
      {H : Type 0} → Request H api.Metadata → W → api.Metadata × W
  default_metadata_annotator req w =
      let req_id = lit "req-" ++ nanos w in
      let map = put_text (lit "x-request-id") (api.parse_ascii req_id) api.no_entries in
      (put_text (lit "x-gateway-ip") (some (lit "127.0.0.1")) map, w)
