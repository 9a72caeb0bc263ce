-- ===== src/Layers/Headers/Renaming.antt =====
-- What the layer passes on under a name.
use grpc_gateway_rust.Prelude.{
  ◌≡◌, refl, ap, ◌∙◌, false, Bool-cases, Option-cases, inl, inr, Option, none, some, List, [], ◌∷◌,
  Str, str_eq, if◌then◌else◌,
}
use grpc_gateway_rust.Http.{HeaderApi}
use grpc_gateway_rust.Http.LastValue.{last_or, last_or-cons}
use grpc_gateway_rust.Layers.Headers.{
  HeaderMatcher, new_name, insert_named, match_entries, match_headers,
}

module _ (api : HeaderApi) (matcher : HeaderMatcher) where
  -- The values of the headers whose new name is `k`, in order.
  abbrev pub renamed_value : Str → Option Str → Str → List Str → List Str
  renamed_value k none value rest = rest
  renamed_value k (some j) value rest = if str_eq j k then value ∷ rest else rest

  abbrev pub renamed_to : Str → List (Str × Str) → List Str
  renamed_to k [] = []
  renamed_to k ((key, value) ∷ es) =
      renamed_value k (new_name api matcher key) value (renamed_to k es)

  match_entries_lem :
      (k : Str) (es : List (Str × Str)) (h : api.Headers)
      → api.get_all k (match_entries api matcher es h) ≡ last_or (api.get_all k h) (renamed_to k es)
  unfolding match_entries
  match_entries_lem k [] h = refl
  match_entries_lem k ((key, value) ∷ es) h =
      match_entries_lem k es (insert_named api (new_name api matcher key) value h)
      ∙ elim (Option-cases (new_name api matcher key)) [
        | inl dropped ↦ rw dropped
        | inr (j, named) ↦
            rw (named, api.get_all-insert_header j k value h)
              (elim (Bool-cases (str_eq j k)) [
                | inl same ↦ rw (same, last_or-cons (api.get_all k h) value (renamed_to k es))
                | inr other ↦ rw other
              ])
      ]

  -- Under a name, the layer passes on the last of the values whose headers the matcher renames to it,
  -- and no header at all if there are none.
  pub match_headers-renamed_to :
      (k : Str) (h : api.Headers)
      → api.get_all k (match_headers api (some matcher) h)
        ≡ last_or [] (renamed_to k (api.entries h))
  unfolding match_headers
  match_headers-renamed_to k h =
      match_entries_lem k (api.entries h) api.no_headers ∙ rw (api.get_all-no_headers k)

  -- A name that the matcher gives to no header does not come through.
  renamed_to-never :
      (k : Str)
      → ((key j : Str) → new_name api matcher key ≡ some j → str_eq j k ≡ false)
      → (es : List (Str × Str)) → renamed_to k es ≡ []
  renamed_to-never k never [] = refl
  renamed_to-never k never ((key, value) ∷ es) = elim (Option-cases (new_name api matcher key)) [
    | inl dropped ↦ rw dropped (renamed_to-never k never es)
    | inr (j, named) ↦ rw (named, never key j named) (renamed_to-never k never es)
  ]

  pub match_headers-never :
      (k : Str) (h : api.Headers)
      → ((key j : Str) → new_name api matcher key ≡ some j → str_eq j k ≡ false)
      → api.get_all k (match_headers api (some matcher) h) ≡ []
  match_headers-never k h never =
      match_headers-renamed_to k h ∙ ap (last_or []) (renamed_to-never k never (api.entries h))
