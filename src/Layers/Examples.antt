-- ===== src/Layers/Examples.antt =====
-- The theorems on the layers at concrete requests, bodies and headers.
use grpc_gateway_rust.Prelude.{◌+◌, ℕ, ◌≡◌, ◌↔◌, ◌≤◌, none, some, List, [], ◌∷◌, Str, lit, All}
use grpc_gateway_rust.Http.{MetadataEntry, unavailable}
use grpc_gateway_rust.Http.Concrete.{list_headers}
use grpc_gateway_rust.Http.LastValue.{last_or}
use grpc_gateway_rust.Http.Message.{
  Request, Response, Outcome, success, failure, frame, data_frame, Body, Service, no_extensions,
}
use grpc_gateway_rust.Errors.{upstream}
use grpc_gateway_rust.Layers.Governance.{new_policy, clone_request, limited, BodyLimitLayer}
use grpc_gateway_rust.Layers.Governance.Retrying.{
  granted, min, transient_prefix, granted_transient, clone_request-headers,
}
use grpc_gateway_rust.Layers.Governance.Ending.{Ends, new_policy-Ends}
use grpc_gateway_rust.Layers.Governance.Limits.{bytes_of, limited-eq_iff}
use grpc_gateway_rust.Layers.Headers.{match_headers}
use grpc_gateway_rust.Layers.Headers.Renaming.{renamed_to, match_headers-renamed_to}
use grpc_gateway_rust.Layers.Body.{box_body}
use grpc_gateway_rust.Layers.Body.Boxing.{IsInternal, box_body-limited}
use grpc_gateway_rust.Defaults.{default_incoming_header_matcher}

abbrev pub Headers : Type 0
Headers = List (Str × Str)

-- Two values of one header, and one that the default matcher drops.
abbrev pub two_values : Headers
two_values =
    (lit "accept", lit "a") ∷ (lit "accept", lit "b") ∷ (lit "authorization", lit "secret") ∷ []

abbrev pub a_request : Request Headers (List MetadataEntry)
a_request = record {
  method = lit "GET";
  path = lit "/readyz";
  query = none;
  version = 11;
  headers = two_values;
  extensions = no_extensions;
  body = lit "abc";
}

abbrev pub two_frames : Body
two_frames = frame (data_frame (lit "abc")) ∷ frame (data_frame (lit "de")) ∷ []

abbrev pub a_response : ℕ → Response Headers
a_response status = record { status = status; headers = []; body = two_frames }

-- Two transient results, a good one, and a transient one.
abbrev results : List (Outcome Headers)
results =
    success (a_response 503)
    ∷ failure (upstream (record { code = unavailable; message = lit "down" }))
    ∷ success (a_response 200)
    ∷ success (a_response 502)
    ∷ []

granted_transient_example : granted (new_policy 3) results ≡ min 3 (transient_prefix results)
granted_transient_example = granted_transient 3 results

clone_request-headers_example :
    (list_headers.get_all (lit "accept") (clone_request list_headers a_request).headers
      ≡ last_or [] (list_headers.get_all (lit "accept") a_request.headers))
    × ((clone_request list_headers a_request).extensions ≡ no_extensions)
clone_request-headers_example = clone_request-headers list_headers a_request (lit "accept")

limited-eq_iff_example :
    (bytes_of (limited 4 two_frames) ≤ 4)
    × ((limited 4 two_frames ≡ two_frames) ↔ (bytes_of two_frames ≤ 4))
limited-eq_iff_example = limited-eq_iff 4 two_frames

abbrev pub answer_ok : Service Headers (List MetadataEntry) ℕ
answer_ok req w = (success (a_response 200), w)

abbrev a_limit : BodyLimitLayer Headers (List MetadataEntry) ℕ
a_limit = record { inner = answer_ok; max_req = some 3; max_resp = some 5 }

match_headers-renamed_to_example :
    list_headers.get_all
      (lit "accept")
      (match_headers list_headers (some default_incoming_header_matcher) two_values)
    ≡ last_or [] (renamed_to list_headers default_incoming_header_matcher (lit "accept") two_values)
match_headers-renamed_to_example =
    match_headers-renamed_to list_headers default_incoming_header_matcher (lit "accept") two_values

abbrev pub full : Str → Body
full bytes = frame (data_frame bytes) ∷ []

box_body-limited_example :
    (bytes_of (box_body (λ e. lit "limit") (limited 4 two_frames)) ≤ 4)
    × All IsInternal (box_body (λ e. lit "limit") (limited 4 two_frames))
box_body-limited_example = box_body-limited (λ e. lit "limit") 4 two_frames

new_policy-Ends_example :
    (calls : ℕ) × Ends (λ i. success (a_response 503)) (new_policy 3) 0 calls × (calls ≤ 3 + 1)
new_policy-Ends_example = new_policy-Ends (λ i. success (a_response 503)) 3
