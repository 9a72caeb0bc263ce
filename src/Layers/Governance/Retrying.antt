-- ===== src/Layers/Governance/Retrying.antt =====
-- How often the policy grants a retry, and what a cloned request keeps.
use grpc_gateway_rust.Prelude.{
  ℕ, suc, ◌-◌, ◌≡◌, refl, ◌∙◌, true, false, Bool, ◌||◌, Bool-cases, inl, inr, none, some, List, [],
  ◌∷◌, Str, ltb, ◌==◌, if◌then◌else◌, str_eq, arith,
}
use grpc_gateway_rust.Http.{HeaderApi, values_of}
use grpc_gateway_rust.Http.LastValue.{last_or, last_or-cons}
use grpc_gateway_rust.Http.Message.{Request, Outcome, success, failure, no_extensions}
use grpc_gateway_rust.Errors.{encoding, upstream, http, custom, method_not_allowed, no_route}
use grpc_gateway_rust.Layers.Governance.{
  GatewayRetryPolicy, new_policy, retry, copy_headers, clone_request,
}

abbrev pub min : ℕ → ℕ → ℕ
min a b = if ltb a b then a else b

module _ {H : Type 0} where
  -- The results that the documentation of the policy calls transient.
  abbrev pub is_transient : Outcome H → Bool
  is_transient (success resp) = (resp.status == 503) || (resp.status == 502)
  is_transient (failure (upstream s)) = true
  is_transient (failure (encoding e)) = false
  is_transient (failure (http e)) = false
  is_transient (failure (custom s m)) = false
  is_transient (failure method_not_allowed) = false
  is_transient (failure no_route) = false

  -- The retries that the policy grants for the results of one attempt after the other.
  unfoldable pub granted : GatewayRetryPolicy → List (Outcome H) → ℕ
  unfolding retry
  granted policy [] = 0
  granted policy (r ∷ rs) = elim (retry policy r) [
    | none ↦ 0
    | some policy' ↦ suc (granted policy' rs)
  ]

  -- The results before the first one that is not transient.
  abbrev pub transient_prefix : List (Outcome H) → ℕ
  transient_prefix [] = 0
  transient_prefix (r ∷ rs) =
      let rest = transient_prefix rs in if is_transient r then suc rest else 0

  pub retry_lem :
      (n : ℕ) (r : Outcome H)
      → retry (new_policy n) r
        ≡ (if n == 0 then none else if is_transient r then some (new_policy (n - 1)) else none)
  unfolding retry
  retry_lem n (success resp) = refl
  retry_lem n (failure (upstream s)) = refl
  retry_lem n (failure (encoding e)) = refl
  retry_lem n (failure (http e)) = refl
  retry_lem n (failure (custom s m)) = refl
  retry_lem n (failure method_not_allowed) = refl
  retry_lem n (failure no_route) = refl

  -- For the results of one attempt after the other, a policy of `n` attempts grants a retry as long as
  -- the results are transient (status 502 or 503, or an upstream error), and at most `n` times.
  pub granted_transient :
      (n : ℕ) (rs : List (Outcome H)) → granted (new_policy n) rs ≡ min n (transient_prefix rs)
  unfolding granted
  granted_transient n [] = ground arith
  granted_transient n (r ∷ rs) =
      rw (retry_lem n r, granted)
        (elim (Bool-cases (n == 0)) [
          | inl zero_left ↦ rw zero_left (ground arith)
          | inr some_left ↦ rw some_left (elim (Bool-cases (is_transient r)) [
            | inl again ↦ rw (again, granted_transient (n - 1) rs) (ground (arith, some_left))
            | inr final ↦ rw final (ground arith)
          ])
        ])

module _ (api : HeaderApi) where
  copy_headers_lem :
      (k : Str) (es : List (Str × Str)) (h : api.Headers)
      → api.get_all k (copy_headers api es h) ≡ last_or (api.get_all k h) (values_of k es)
  unfolding copy_headers
  copy_headers_lem k [] h = refl
  copy_headers_lem k ((j, v) ∷ es) h =
      copy_headers_lem k es (api.insert_header j v h)
      ∙ rw (api.get_all-insert_header j k v h) (elim (Bool-cases (str_eq j k)) [
        | inl same ↦ rw (same, last_or-cons (api.get_all k h) v (values_of k es))
        | inr other ↦ rw other
      ])

  -- The request that a retry sends has, for every header name, only the last of the values of the
  -- original request, and none of its extensions.
  pub clone_request-headers :
      {M : Type 0} (req : Request api.Headers M) (k : Str)
      → (api.get_all k (clone_request api req).headers ≡ last_or [] (api.get_all k req.headers))
        × ((clone_request api req).extensions ≡ no_extensions)
  unfolding clone_request
  clone_request-headers req k = (
    copy_headers_lem k (api.entries req.headers) api.no_headers
        ∙ rw (api.get_all-no_headers k, ← api.get_all-entries k req.headers),
    refl,
  )
