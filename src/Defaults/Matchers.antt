-- ===== src/Defaults/Matchers.antt =====
-- Which headers the default matchers let through.
use grpc_gateway_rust.Prelude.{
  ℕ, ◌≡◌, refl, ap, ◌∙◌, false, Bool-cases, inl, inr, none, some, [], ◌∷◌, ◌++◌, Str, lit, not,
  is_empty, str_eq, to_lowercase, lower_byte, >>=-eq-some, arith,
}
use grpc_gateway_rust.Http.{HeaderApi, unauthenticated}
use grpc_gateway_rust.Http.Message.{Request}
use grpc_gateway_rust.Errors.{GatewayError, upstream}
use grpc_gateway_rust.Router.{header, AuthConfig, RouteMetadata}
use grpc_gateway_rust.Defaults.{default_incoming_header_matcher, is_present, default_auth_verifier}
use grpc_gateway_rust.Layers.Headers.{new_name, match_headers}
use grpc_gateway_rust.Layers.Headers.Renaming.{match_headers-never}

-- A route that asks for an API key in a header.
abbrev pub api_key : Str → AuthConfig
api_key name = record { scheme = lit "ApiKey"; location = header; name = name }

abbrev pub header_key : Str → RouteMetadata
header_key name = record { auth_required = some (api_key name) }

abbrev pub missing_key : Str → GatewayError
missing_key name =
    upstream (record { code = unauthenticated; message = lit "Missing authentication: " ++ name })

lower_byte_idempotent : (c : ℕ) → lower_byte (lower_byte c) ≡ lower_byte c
lower_byte_idempotent c = ground arith

to_lowercase_idempotent : (s : Str) → to_lowercase (to_lowercase s) ≡ to_lowercase s
unfolding to_lowercase
to_lowercase_idempotent [] = refl
to_lowercase_idempotent (c ∷ s) = λ i. lower_byte_idempotent c i ∷ to_lowercase_idempotent s i

-- What the matcher lets through, in lower case, is neither of the two names that it drops.
matched-not-dropped :
    (key name : Str)
    → default_incoming_header_matcher key ≡ some name
    → (str_eq (to_lowercase name) (lit "authorization") ≡ false)
      × (str_eq (to_lowercase name) (lit "x-request-id") ≡ false)
unfolding default_incoming_header_matcher
matched-not-dropped key name h =
    let low = to_lowercase key in
    elim (Bool-cases (str_eq low (lit "authorization"))) [
      | inl auth ↦ absurd (cc (rw auth at h))
      | inr not_auth ↦ elim (Bool-cases (str_eq low (lit "x-request-id"))) [
        | inl id ↦ absurd (cc (rw (not_auth, id) at h))
        | inr not_id ↦ elim (Bool-cases (str_eq low (lit "refresh"))) [
          | inl refresh ↦
              let e : lit "x-refresh-token" ≡ name = cc (rw (not_auth, not_id, refresh) at h) in
              unfold to_lowercase str_eq in rw (← e) (refl, refl)
          | inr kept ↦
              let e : low ≡ name = cc (rw (not_auth, not_id, kept) at h) in
              rw (← e, to_lowercase_idempotent key) (not_auth, not_id)
        ]
      ]
    ]

-- With the default incoming matcher, no request header named `authorization` or `x-request-id`
-- reaches what stands behind the header layer.
pub default_incoming_header_matcher-match_headers :
    (api : HeaderApi) (h : api.Headers)
    → (api.get_all
          (lit "authorization")
          (match_headers api (some default_incoming_header_matcher) h)
        ≡ [])
      × (api.get_all
            (lit "x-request-id")
            (match_headers api (some default_incoming_header_matcher) h)
          ≡ [])
default_incoming_header_matcher-match_headers api h = (
  match_headers-never api default_incoming_header_matcher (lit "authorization") h
      (λ key j named. (passed key j named).0),
  match_headers-never api default_incoming_header_matcher (lit "x-request-id") h
      (λ key j named. (passed key j named).1),
)
  where
    passed :
        (key j : Str)
        → new_name api default_incoming_header_matcher key ≡ some j
        → (str_eq j (lit "authorization") ≡ false) × (str_eq j (lit "x-request-id") ≡ false)
    passed key j named =
        let (name, e, f) = >>=-eq-some (default_incoming_header_matcher key) api.parse_name named in
        rw (api.parse_name-to_lowercase name j f) (matched-not-dropped key name e)

-- With the default incoming matcher, the default verifier refuses every request to a route that asks
-- for an API key in the header `authorization`, also those that carry one.
pub default_auth_verifier-authorization :
    (api : HeaderApi) {M : Type 0} (req : Request api.Headers M) (name : Str) (h : api.Headers)
    → api.parse_name name ≡ some (lit "authorization")
    → req.headers ≡ match_headers api (some default_incoming_header_matcher) h
    → default_auth_verifier api req (header_key name) ≡ some (missing_key name)
unfolding default_auth_verifier is_present str_eq
default_auth_verifier-authorization api req name h parsed seen =
    let gone = (default_incoming_header_matcher-match_headers api h).0 in
    let empty : api.get_all (lit "authorization") req.headers ≡ [] =
      ap (api.get_all (lit "authorization")) seen ∙ gone in
    let absent : is_present api (api_key name) req ≡ false =
      ap (λ o. elim o [ none ↦ false | some k ↦ not (is_empty (api.get_all k req.headers)) ]) parsed
      ∙ ap (λ vs. not (is_empty vs)) empty in
    rw (absent, default_auth_verifier)
