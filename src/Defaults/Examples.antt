-- ===== src/Defaults/Examples.antt =====
-- The theorems on the default handlers at concrete requests and responses.
use grpc_gateway_rust.Prelude.{
  arith, ℕ, parse_uint, ◌≡◌, refl, some, List, [], ◌∷◌, lit, str_eq, to_lowercase,
}
use grpc_gateway_rust.Http.{MetadataEntry}
use grpc_gateway_rust.Http.Concrete.{list_headers}
use grpc_gateway_rust.Http.Message.{Request, Response, frame, data_frame}
use grpc_gateway_rust.Layers.Headers.{match_headers}
use grpc_gateway_rust.Layers.Examples.{Headers, two_values, a_request}
use grpc_gateway_rust.Defaults.{
  Rendering, default_response_modifier, default_incoming_header_matcher, default_auth_verifier,
}
use grpc_gateway_rust.Defaults.Laws.{Overrides, default_response_modifier_lem}
use grpc_gateway_rust.Defaults.Matchers.{
  header_key, missing_key, default_incoming_header_matcher-match_headers,
  default_auth_verifier-authorization,
}

abbrev rendering : Rendering
rendering = record {
  display = λ e. lit "error";
  to_json = λ m. m.message;
  full = λ bytes. frame (data_frame bytes) ∷ [];
}

-- 418, as in the repository's test.
abbrev teapot : Response Headers
teapot = record {
  status = 200;
  headers = (lit "x-http-code", lit "418") ∷ (lit "etag", lit "e") ∷ [];
  body = [];
}

default_response_modifier_lem_example :
    (list_headers.get_all
        (lit "x-http-code")
        (default_response_modifier list_headers a_request teapot).headers
      ≡ [])
    × (list_headers.get_all
          (lit "etag")
          (default_response_modifier list_headers a_request teapot).headers
        ≡ list_headers.get_all (lit "etag") teapot.headers)
    × ((status : ℕ)
        → Overrides list_headers teapot.headers status
        → (default_response_modifier list_headers a_request teapot).status ≡ status)
    × (((status : ℕ) → Overrides list_headers teapot.headers status → ⊥)
        → (default_response_modifier list_headers a_request teapot).status ≡ 200)
unfolding str_eq
default_response_modifier_lem_example =
    default_response_modifier_lem list_headers a_request teapot (lit "etag") refl refl

teapot-Overrides : Overrides list_headers teapot.headers 418
unfolding str_eq parse_uint
teapot-Overrides = record {
  value = lit "418";
  text = lit "418";
  is_first = refl;
  is_text = refl;
  is_number = refl;
  from = omega arith;
  to = omega arith;
}

teapot_status : (default_response_modifier list_headers a_request teapot).status ≡ 418
unfolding default_response_modifier str_eq
teapot_status =
    (default_response_modifier_lem list_headers a_request teapot (lit "etag") refl refl).2 418
      teapot-Overrides

default_incoming_header_matcher-match_headers_example :
    (list_headers.get_all
        (lit "authorization")
        (match_headers list_headers (some default_incoming_header_matcher) two_values)
      ≡ [])
    × (list_headers.get_all
          (lit "x-request-id")
          (match_headers list_headers (some default_incoming_header_matcher) two_values)
        ≡ [])
default_incoming_header_matcher-match_headers_example =
    default_incoming_header_matcher-match_headers list_headers two_values

-- The request of the other examples, as the verifier gets it.
abbrev matched_request : Request Headers (List MetadataEntry)
matched_request = record a_request {
  headers = match_headers list_headers (some default_incoming_header_matcher) two_values;
}

default_auth_verifier-authorization_example :
    default_auth_verifier list_headers matched_request (header_key (lit "Authorization"))
    ≡ some (missing_key (lit "Authorization"))
unfolding to_lowercase
default_auth_verifier-authorization_example =
    default_auth_verifier-authorization list_headers matched_request (lit "Authorization")
      two_values refl refl
