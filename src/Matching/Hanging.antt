-- ===== src/Matching/Hanging.antt =====
-- The verb on the last component of a path: how the matcher finds it and takes it off.
use grpc_gateway_rust.Prelude.{
  ℕ, suc, ◌-◌, ◌≡◌, ◌≢◌, refl, sym, ap, ◌∙◌, none, some, List, [], ◌∷◌, ◌++◌, Str, Lacks, length,
  length-append, take, drop, last, init, is_empty, ◌&&◌, ltb, split-cons, take-length, drop-length,
  str_eq, str_eq_iff, str_eq_refl, if◌then◌else◌, Bool-cases, inl, inr, Option-cases, rfind,
  rfind-append, rfind_sound, strip_prefix, arith,
}
use grpc_gateway_rust.Pattern.{
  strip_slash, pop_trailing, path_components, current_verb, strip_verb, map_last,
}

abbrev pub hang : Str → Str → Str
hang v c = c ++ (b':' ∷ v)

abbrev pub unhang : Str → Str → Str
unhang v c = take (length c - length v - 1) c

module _ (v : Str) (colon : Lacks b':' v) where
  unhang-hang : (c : Str) → unhang v (hang v c) ≡ c
  unhang-hang c =
      let e : length (hang v c) - length v - 1 ≡ length c =
        omega (arith, length-append c (b':' ∷ v)) in
      rw e (take-length c (b':' ∷ v))

  pub map_last-inverse : (cs : List Str) → map_last (unhang v) (map_last (hang v) cs) ≡ cs
  map_last-inverse [] = refl
  map_last-inverse (c ∷ []) = ap (λ x. x ∷ []) (unhang-hang c)
  map_last-inverse (c ∷ d ∷ []) = ap (λ x. c ∷ x) (map_last-inverse (d ∷ []))
  map_last-inverse (c ∷ d ∷ e ∷ cs) = ap (λ x. c ∷ x) (map_last-inverse (d ∷ e ∷ cs))

  map_last-restore :
      (cs : List Str) (c : Str)
      → last cs ≡ some c
      → hang v (unhang v c) ≡ c
      → map_last (hang v) (map_last (unhang v) cs) ≡ cs
  map_last-restore [] c h e = refl
  map_last-restore (d ∷ []) c h e = let same : d ≡ c = cc h in ap (λ x. x ∷ []) (rw same e)
  map_last-restore (d ∷ f ∷ []) c h e = ap (λ x. d ∷ x) (map_last-restore (f ∷ []) c h e)
  map_last-restore (d ∷ f ∷ g ∷ cs) c h e = ap (λ x. d ∷ x) (map_last-restore (f ∷ g ∷ cs) c h e)

  last-map_last :
      (c : Str) (cs : List Str) → (d : Str) × (last (map_last (hang v) (c ∷ cs)) ≡ some (hang v d))
  last-map_last c [] = (c, refl)
  last-map_last c (d ∷ []) = last-map_last d []
  last-map_last c (d ∷ e ∷ cs) = last-map_last d (e ∷ cs)

  pub current_verb-hang :
      (c : Str) (cs : List Str) → current_verb v (map_last (hang v) (c ∷ cs)) ≡ v
  unfolding strip_prefix current_verb
  current_verb-hang c cs =
      let (d, e) = last-map_last c cs in
      rw (e, current_verb, rfind-append b':' d v colon, drop-length d (b':' ∷ v), str_eq_refl v)

  -- The test of `route_matcher` finds the verb only where it stands.
  pub hang_of_current_verb :
      (cs : List Str)
      → v ≢ []
      → v ≡ current_verb v cs
      → cs ≡ map_last (hang v) (map_last (unhang v) cs)
  hang_of_current_verb cs ne h = elim (Option-cases (last cs)) [
    | inl nothing ↦ absurd (ne (h ∙ no_last nothing))
    | inr (c, found) ↦ elim (Option-cases (rfind b':' c)) [
      | inl nothing ↦ absurd (ne (h ∙ no_colon c found nothing))
      | inr (i, at_i) ↦
          let (spelled, tail, _) = rfind_sound b':' c i at_i in
          let s = drop (suc i) c in
          elim (Bool-cases (str_eq s v)) [
            | inl same ↦
                let e : c ≡ hang v (take i c) = rw ((str_eq_iff s v).0 same) at spelled in
                let u : hang v (unhang v c) ≡ c =
                  rw (ap (unhang v) e ∙ unhang-hang (take i c)) (sym e) in
                sym (map_last-restore cs c found u)
            | inr other ↦ absurd (ne (h ∙ at_colon c i s found at_i tail ∙ rw other))
          ]
    ]
  ]
    where
      no_last : last cs ≡ none → current_verb v cs ≡ []
      no_last e = unfold current_verb in rw (e, current_verb)

      no_colon : (c : Str) → last cs ≡ some c → rfind b':' c ≡ none → current_verb v cs ≡ []
      no_colon c e f = unfold current_verb in rw (e, current_verb, f)

      at_colon :
          (c : Str) (i : ℕ) (s : Str)
          → last cs ≡ some c
          → rfind b':' c ≡ some i
          → drop i c ≡ b':' ∷ s
          → current_verb v cs ≡ (if str_eq s v then s else [])
      at_colon c i s e f g = unfold current_verb strip_prefix in rw (e, current_verb, f, g)

-- A path has one component at least.
pub path_components-cons :
    (path : Str) → (c : Str) × (cs : List Str) × (path_components path ≡ c ∷ cs)
path_components-cons path =
    let (p, ps, e) = split-cons b'/' (strip_slash path) in
    let (c, cs, f) = kept p ps in (c, cs, ap pop_trailing e ∙ f)
  where
    init-cons :
        (p q : Str) (ps : List Str) → (c : Str) × (cs : List Str) × (init (p ∷ q ∷ ps) ≡ c ∷ cs)
    init-cons p q ps = (p, init (q ∷ ps), refl)

    kept :
        (p : Str) (ps : List Str) → (c : Str) × (cs : List Str) × (pop_trailing (p ∷ ps) ≡ c ∷ cs)
    kept p [] = (p, [], unfold pop_trailing in ground arith)
    kept p (q ∷ ps) = elim (Option-cases (last (p ∷ q ∷ ps))) [
      | inl nothing ↦ (p, q ∷ ps, unfold pop_trailing in rw (nothing, pop_trailing))
      | inr (l, found) ↦ elim (Bool-cases (is_empty l && ltb 1 (length (p ∷ q ∷ ps)))) [
        | inl popped ↦ (p, init (q ∷ ps), unfold pop_trailing in rw (found, pop_trailing, popped))
        | inr stays ↦ (p, q ∷ ps, unfold pop_trailing in rw (found, pop_trailing, stays))
      ]
    ]

pub current_verb_empty : (cs : List Str) → current_verb [] cs ≡ []
unfolding current_verb
current_verb_empty cs = elim (Option-cases (last cs)) [
  | inl nothing ↦ rw (nothing, current_verb)
  | inr (c, found) ↦ elim (Option-cases (rfind b':' c)) [
    | inl nothing ↦ rw (found, current_verb, nothing)
    | inr (i, at_i) ↦ elim (Option-cases (strip_prefix b':' (drop i c))) [
      | inl nothing ↦ rw (found, current_verb, at_i, nothing)
      | inr (s, tail) ↦ elim (Bool-cases (str_eq s [])) [
        | inl same ↦ rw (found, current_verb, at_i, tail, same) ((str_eq_iff s []).0 same)
        | inr other ↦ rw (found, current_verb, at_i, tail, other)
      ]
    ]
  ]
]

pub strip_verb_some :
    (v : Str) (cs : List Str)
    → v ≢ []
    → strip_verb v cs ≡ map_last (λ c. take (length c - length v - 1) c) cs
unfolding strip_verb
strip_verb_some [] cs ne = absurd (ne refl)
strip_verb_some (x ∷ v) cs ne = refl
