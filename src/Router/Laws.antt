-- ===== src/Router/Laws.antt =====
-- Which route answers a request.
use mathlib.Core.Option
use grpc_gateway_rust.Prelude.{
  ◌≡◌, refl, ap, ◌∙◌, sym, subst, ◌↔◌, inl, inr, none, some, List, [], ◌∷◌, ◌++◌, Str, Map, or_else,
  lookup, lookup-insert, lookup-insert_self, str_eq, str_eq_iff, false, Option-cases, if◌then◌else◌,
  Bool-cases,
}
use grpc_gateway_rust.Template.{Pattern}
use grpc_gateway_rust.Pattern.{route_matcher}
use grpc_gateway_rust.Router.{
  RouteMetadata, RouteEntry, Router, entries_of, route_with_metadata, Match, first_match,
  match_request,
}

-- `e` is the first entry whose pattern matches the path.
pub data FirstMatch {ℓ} {S : Type ℓ} (path : Str) : List (RouteEntry S) → Match S → Type ℓ where
  here :
      {e : RouteEntry S} {es : List (RouteEntry S)} {captured : Map Str}
      → route_matcher e.pattern path ≡ some captured
      → FirstMatch path (e ∷ es) (e.service, captured, e.metadata)
  later :
      {e : RouteEntry S} {es : List (RouteEntry S)} {m : Match S}
      → route_matcher e.pattern path ≡ none
      → FirstMatch path es m
      → FirstMatch path (e ∷ es) m

module _ {ℓ} {S : Type ℓ} (path : Str) where
  match_request-entries :
      (router : Router S) (method : Str)
      → match_request router method path ≡ first_match (entries_of router method) path
  unfolding match_request first_match
  match_request-entries router method = elim (Option-cases (lookup method router.routes)) [
    | inl missing ↦ rw (missing, match_request, entries_of)
    | inr (es, found) ↦ rw (found, match_request, entries_of)
  ]

  first_match_sound :
      (es : List (RouteEntry S)) (m : Match S) → first_match es path ≡ some m → FirstMatch path es m
  unfolding first_match
  first_match_sound [] m h = cc
  first_match_sound (e ∷ es) m h = elim (Option-cases (route_matcher e.pattern path)) [
    | inl missed ↦ later missed (first_match_sound es m (rw (missed, first_match) at h))
    | inr (captured, found) ↦
        let same : some (e.service, captured, e.metadata) ≡ some m = rw (found, first_match) at h in
        subst (FirstMatch path (e ∷ es)) (cc same) (here found)
  ]

  first_match_complete :
      {es : List (RouteEntry S)} {m : Match S} → FirstMatch path es m → first_match es path ≡ some m
  unfolding first_match
  first_match_complete (here found) = rw (found, first_match)
  first_match_complete (later missed rest) = rw (missed, first_match) (first_match_complete rest)

  first_match-append :
      (es : List (RouteEntry S)) (e : RouteEntry S)
      → first_match (es ++ (e ∷ [])) path
        ≡ or_else (first_match es path) (first_match (e ∷ []) path)
  unfolding first_match
  first_match-append [] e = refl
  first_match-append (d ∷ es) e = elim (Option-cases (route_matcher d.pattern path)) [
    | inl missed ↦ rw (missed, first_match) (first_match-append es e)
    | inr (captured, found) ↦ rw (found, first_match)
  ]

module _ {ℓ} {S : Type ℓ} (router : Router S) (method : Str) (pattern : Pattern) (service : S)
    (metadata : RouteMetadata) where
  abbrev entry : RouteEntry S
  entry = record { pattern = pattern; service = service; metadata = metadata }

  entries_of_self :
      entries_of (route_with_metadata router method pattern service metadata) method
      ≡ entries_of router method ++ (entry ∷ [])
  unfolding route_with_metadata
  entries_of_self = rw (lookup-insert_self, entries_of)

  entries_of-other :
      (asked : Str)
      → str_eq method asked ≡ false
      → entries_of (route_with_metadata router method pattern service metadata) asked
        ≡ entries_of router asked
  unfolding route_with_metadata
  entries_of-other asked other = rw (lookup-insert, other, entries_of)

first_match-single {ℓ} :
    {S : Type ℓ} (path : Str) (e : RouteEntry S)
    → first_match (e ∷ []) path
      ≡ Option.map (λ captured. (e.service, captured, e.metadata)) (route_matcher e.pattern path)
unfolding first_match
first_match-single path e = elim (Option-cases (route_matcher e.pattern path)) [
  | inl missed ↦ rw (missed, first_match)
  | inr (captured, found) ↦ rw (found, first_match)
]

-- A request is answered by the first entry of its method whose pattern matches the path, with the
-- variables of that pattern and the metadata of that entry, and by none if no pattern matches.
pub match_request-FirstMatch_iff {ℓ} :
    {S : Type ℓ} (router : Router S) (method path : Str) (m : Match S)
    → (match_request router method path ≡ some m) ↔ FirstMatch path (entries_of router method) m
match_request-FirstMatch_iff router method path m = (
  λ h.
      first_match_sound path (entries_of router method) m
        (sym (match_request-entries path router method) ∙ h),
  λ d. match_request-entries path router method ∙ first_match_complete path d,
)

-- After a registration, a request of the same method gets the answer that it had, or, where it had
-- none, the new route if its pattern matches; requests of other methods are answered as before.
pub match_request-route_with_metadata {ℓ} :
    {S : Type ℓ} (router : Router S) (method : Str) (pattern : Pattern) (service : S)
    (metadata : RouteMetadata) (asked path : Str)
    → match_request (route_with_metadata router method pattern service metadata) asked path ≡ (
        if str_eq method asked
        then or_else
            (match_request router asked path)
            (Option.map (λ captured. (service, captured, metadata)) (route_matcher pattern path))
        else match_request router asked path)
match_request-route_with_metadata router method pattern service metadata asked path =
    match_request-entries path (route_with_metadata router method pattern service metadata) asked
    ∙ elim (Bool-cases (str_eq method asked)) [
      | inl same ↦
          rw (same, match_request-entries path router asked, ← (str_eq_iff method asked).0 same)
            (ap (λ es. first_match es path) (entries_of_self router method pattern service metadata)
              ∙ first_match-append path (entries_of router method) _
              ∙ ap (or_else (first_match (entries_of router method) path))
                  (first_match-single path _))
      | inr other ↦
          rw (other, match_request-entries path router asked)
            (ap (λ es. first_match es path)
              (entries_of-other router method pattern service metadata asked other))
    ]
