-- ===== src/Defaults/Laws.antt =====
-- Error responses and the status override.
use grpc_gateway_rust.Prelude.{
  ℕ, ◌≤◌, ◌<◌, ◌≡◌, refl, ◌∙◌, sym, ap, subst, false, Bool-cases, Option-cases, inl, inr, none,
  some, List, [], ◌∷◌, Str, lit, str_eq, leb, ltb, ◌||◌, >>=-eq-some, ◌>>=◌, parse_uint, arith,
}
use grpc_gateway_rust.Http.{HeaderApi}
use grpc_gateway_rust.Http.Message.{Request, Response}
use grpc_gateway_rust.Errors.{GatewayError, status_of}
use grpc_gateway_rust.Defaults.{
  Rendering, first, default_error_handler, custom_http_error, status_override,
  default_response_modifier,
}

first-none : (vs : List Str) → first vs ≡ none → vs ≡ []
first-none [] h = refl
first-none (v ∷ vs) h = cc

-- The status that the first value of `x-http-code` names: a number of three digits, from 100 on.
pub record Overrides (api : HeaderApi) (h : api.Headers) (status : ℕ) : Type 0 where
  pub value : Str
  pub text : Str
  pub is_first : first (api.get_all (lit "x-http-code") h) ≡ some value
  pub is_text : api.to_str value ≡ some text
  pub is_number : parse_uint 65536 text ≡ some status
  pub from : 100 ≤ status
  pub to : status < 1000

module _ (api : HeaderApi) where
  status_override_sound :
      (val : Str) (s : ℕ)
      → status_override api val ≡ some s
      → (text : Str) × (api.to_str val ≡ some text)
        × (parse_uint 65536 text ≡ some s)
        × (100 ≤ s)
        × (s < 1000)
  unfolding status_override
  status_override_sound val s h =
      let (n, e, f) = >>=-eq-some (api.to_str val >>= parse_uint 65536) api.from_u16 h in
      let (text, is_text, is_number) = >>=-eq-some (api.to_str val) (parse_uint 65536) e in
      let ranged = sym (api.from_u16_range n) ∙ f in
      let in_range : (n ≡ s) × (100 ≤ s) × (s < 1000) = ground (arith, ranged) in
      (text, is_text, is_number ∙ ap some in_range.0, in_range.1, in_range.2)

  status_override_complete :
      (val text : Str) (s : ℕ)
      → api.to_str val ≡ some text
      → parse_uint 65536 text ≡ some s
      → 100 ≤ s
      → s < 1000
      → status_override api val ≡ some s
  unfolding status_override
  status_override_complete val text s is_text is_number from to =
      rw (is_text, is_number, api.from_u16_range s) (ground arith)

module _ (api : HeaderApi) {M : Type 0} where
  -- The handler that mirrors the Go gateway answers every error as the default handler does.
  pub custom_http_error-default_error_handler :
      (r : Rendering) (req : Request api.Headers M) (err : GatewayError)
      → custom_http_error api r req err ≡ default_error_handler api r req err
  unfolding custom_http_error default_error_handler
  custom_http_error-default_error_handler r req err =
      elim (Bool-cases (leb (status_of err) 300 || ltb 505 (status_of err))) [
        | inl delegated ↦ rw delegated
        | inr own ↦ rw own
      ]

  -- The default modifier leaves no `x-http-code` header, keeps the values of every header other than
  -- the two that it removes, and sets the status to the number from 100 to 999 that the first value of
  -- `x-http-code` names; the status is unchanged if that names none, or is not there.
  pub default_response_modifier_lem :
      (req : Request api.Headers M) (resp : Response api.Headers) (k : Str)
      → str_eq (lit "x-http-code") k ≡ false
      → str_eq (lit "grpc-metadata-x-http-status-code") k ≡ false
      → (api.get_all (lit "x-http-code") (default_response_modifier api req resp).headers ≡ [])
        × (api.get_all k (default_response_modifier api req resp).headers
            ≡ api.get_all k resp.headers)
        × ((status : ℕ)
            → Overrides api resp.headers status
            → (default_response_modifier api req resp).status ≡ status)
        × (((status : ℕ) → Overrides api resp.headers status → ⊥)
            → (default_response_modifier api req resp).status ≡ resp.status)
  unfolding default_response_modifier str_eq
  default_response_modifier_lem req resp k other_code other_metadata =
      elim (Option-cases (first (api.get_all (lit "x-http-code") resp.headers))) [
        | inl missing ↦
            rw (missing, default_response_modifier)
              (
                first-none _ missing,
                refl,
                λ status o. absurd (cc (sym missing ∙ o.is_first)),
                λ none_named. refl,
              )
        | inr (val, found) ↦
            rw (found, default_response_modifier)
              (
                api.get_all-remove_header _ _ _ ∙ api.get_all-remove_header _ _ _,
                api.get_all-remove_header _ k _
                    ∙ rw other_metadata (api.get_all-remove_header _ k _ ∙ rw other_code),
                λ status o.
                    let same : o.value ≡ val = cc (sym o.is_first ∙ found) in
                    let set : status_override api val ≡ some status =
                      subst (λ v. status_override api v ≡ some status) same
                        (status_override_complete api o.value o.text status o.is_text o.is_number
                          o.from o.to) in
                    rw set,
                λ none_named. elim (Option-cases (status_override api val)) [
                  | inl kept ↦ rw kept
                  | inr (s, set) ↦
                      let (text, is_text, is_number, from, to) =
                        status_override_sound api val s set in
                      absurd (
                        none_named s (record {
                          value = val;
                          text = text;
                          is_first = found;
                          is_text = is_text;
                          is_number = is_number;
                          from = from;
                          to = to;
                        }))
                ],
              )
      ]
