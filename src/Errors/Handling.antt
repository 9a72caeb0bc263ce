-- ===== src/Errors/Handling.antt =====
-- gateway-runtime/src/errors.rs: the text of an error, and the response for a gRPC status.
use grpc_gateway_rust.Prelude.{ℕ, List, [], ◌++◌, Str, lit}
use grpc_gateway_rust.Http.{HeaderApi, Code, Status}
use grpc_gateway_rust.Http.Message.{Response, Body}
use grpc_gateway_rust.Errors.{
  GatewayError, encoding, upstream, http, custom, method_not_allowed, no_route, map_code_to_status,
}

-- What the code calls of other crates: the texts of statuses, the numbers of codes, JSON, and bodies.
pub record Reporting : Type 0 where
  pub display_status : Status → Str
  pub display_code : ℕ → Str
  pub code_number : Code → ℕ
  -- `serde_json::to_vec(..).unwrap_or_default()` of an object with `code`, `message` and `details`
  pub to_vec : ℕ → Str → List Str → Str
  pub full : Str → Body

-- `Display` of `GatewayError`
unfoldable pub display : Reporting → GatewayError → Str
display r (encoding e) = lit "failed to serialize/deserialize message: " ++ e
display r (upstream s) = lit "upstream gRPC error: " ++ r.display_status s
display r (http e) = lit "HTTP protocol error: " ++ e
display r (custom c m) = lit "HTTP error " ++ r.display_code c ++ lit ": " ++ m
display r method_not_allowed = lit "Method not allowed"
display r no_route = lit "Not found"

-- The header is valid, so the builder does not fail.
unfoldable pub handle_error : (api : HeaderApi) → Reporting → Status → Response api.Headers
unfolding map_code_to_status
handle_error api r status = record {
  status = map_code_to_status status.code;
  headers = api.insert_header (lit "content-type") (lit "application/json") api.no_headers;
  body = r.full (r.to_vec (r.code_number status.code) status.message []);
}
