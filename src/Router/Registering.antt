-- ===== src/Router/Registering.antt =====
-- gateway-runtime/src/router.rs: a router that is filled by calls of `route_with_metadata`.
use mathlib.Core.Option
use grpc_gateway_rust.Prelude.{
  ◌≡◌, refl, sym, ap, ◌∙◌, ◌↔◌, inl, inr, none, some, List, [], ◌∷◌, ◌++◌, Str, Map, All, or_else,
  or_else-none, or_else_assoc, str_eq, str_eq_iff, str_eq_refl, lookup, Option-cases, Bool-cases,
  if◌then◌else◌,
}
use grpc_gateway_rust.Template.{Pattern}
use grpc_gateway_rust.Pattern.{route_matcher}
use grpc_gateway_rust.Router.{RouteMetadata, Router, new, route_with_metadata, Match, match_request}
use grpc_gateway_rust.Router.Laws.{match_request-route_with_metadata}

-- The arguments of one call.
pub record Registration {ℓ} (S : Type ℓ) : Type ℓ where
  pub method : Str
  pub pattern : Pattern
  pub service : S
  pub metadata : RouteMetadata

module _ {ℓ} {S : Type ℓ} where
  -- The calls, one after the other.
  unfoldable pub register_all : List (Registration S) → Router S → Router S
  unfolding route_with_metadata
  register_all [] router = router
  register_all (r ∷ rest) router =
      register_all rest (route_with_metadata router r.method r.pattern r.service r.metadata)

  abbrev captures : Registration S → Str → Option.Option (Match S)
  captures r path =
      Option.map (λ captured. (r.service, captured, r.metadata)) (route_matcher r.pattern path)

module _ {ℓ} {S : Type ℓ} (method path : Str) where
  -- A registration of another method, or of a pattern that does not match the path.
  abbrev pub Misses : Registration S → Type 0
  Misses r = r.method ≡ method → route_matcher r.pattern path ≡ none

  -- The match is that of a registration of the method whose pattern matches the path, and all before it
  -- miss.
  pub record IsFirst (calls : List (Registration S)) (m : Match S) : Type ℓ where
    pub before : List (Registration S)
    pub chosen : Registration S
    pub after : List (Registration S)
    pub split : calls ≡ before ++ (chosen ∷ after)
    pub missed : All Misses before
    pub same_method : chosen.method ≡ method
    pub captured : Map Str
    pub matches : route_matcher chosen.pattern path ≡ some captured
    pub is_match : m ≡ (chosen.service, captured, chosen.metadata)

  abbrev answer_of : Registration S → Option.Option (Match S)
  answer_of r = if str_eq r.method method then captures r path else none

  abbrev first_of : List (Registration S) → Option.Option (Match S)
  first_of [] = none
  first_of (r ∷ rest) = or_else (answer_of r) (first_of rest)

  match_request-register_all :
      (calls : List (Registration S)) (router : Router S)
      → match_request (register_all calls router) method path
        ≡ or_else (match_request router method path) (first_of calls)
  unfolding register_all
  match_request-register_all [] router = sym (or_else-none _)
  match_request-register_all (r ∷ rest) router =
      match_request-register_all rest
        (route_with_metadata router r.method r.pattern r.service r.metadata)
      ∙ ap (λ o. or_else o (first_of rest))
          (match_request-route_with_metadata router r.method r.pattern r.service r.metadata method
              path
            ∙ put_last)
      ∙ or_else_assoc (match_request router method path) (answer_of r) (first_of rest)
    where
      put_last :
          (if str_eq r.method method
            then or_else (match_request router method path) (captures r path)
            else match_request router method path)
          ≡ or_else (match_request router method path) (answer_of r)
      put_last = elim (Bool-cases (str_eq r.method method)) [
        | inl same ↦ rw same
        | inr other ↦ rw other (sym (or_else-none _))
      ]

  answer_of-Misses : (r : Registration S) → Misses r → answer_of r ≡ none
  answer_of-Misses r h = elim (Bool-cases (str_eq r.method method)) [
    | inl same ↦ rw (same, h ((str_eq_iff r.method method).0 same))
    | inr other ↦ rw other
  ]

  first_of_complete :
      (before after : List (Registration S)) (chosen : Registration S) (captured : Map Str)
      → All Misses before
      → chosen.method ≡ method
      → route_matcher chosen.pattern path ≡ some captured
      → first_of (before ++ (chosen ∷ after)) ≡ some (chosen.service, captured, chosen.metadata)
  first_of_complete [] after chosen captured h same found = rw (same, str_eq_refl method, found)
  first_of_complete (r ∷ rest) after chosen captured (miss, h) same found =
      rw (answer_of-Misses r miss) (first_of_complete rest after chosen captured h same found)

  IsFirst-later :
      (r : Registration S) (rest : List (Registration S)) (m : Match S)
      → Misses r
      → IsFirst rest m
      → IsFirst (r ∷ rest) m
  IsFirst-later r rest m miss f = record {
    before = r ∷ f.before;
    chosen = f.chosen;
    after = f.after;
    split = ap (λ calls. r ∷ calls) f.split;
    missed = (miss, f.missed);
    same_method = f.same_method;
    captured = f.captured;
    matches = f.matches;
    is_match = f.is_match;
  }

  first_of_sound :
      (calls : List (Registration S)) (m : Match S) → first_of calls ≡ some m → IsFirst calls m
  first_of_sound [] m h = absurd (cc h)
  first_of_sound (r ∷ rest) m h = elim (Bool-cases (str_eq r.method method)) [
    | inr other ↦
        IsFirst-later r rest m
          (λ same. absurd (cc (sym other ∙ (str_eq_iff r.method method).1 same)))
          (first_of_sound rest m (rw other at h))
    | inl same ↦ elim (Option-cases (route_matcher r.pattern path)) [
      | inl none_matched ↦
          IsFirst-later r rest m (λ e. none_matched)
            (first_of_sound rest m (rw (same, none_matched) at h))
      | inr (captured, found) ↦
          let here : some (r.service, captured, r.metadata) ≡ some m = rw (same, found) at h in
          record {
            before = [];
            chosen = r;
            after = rest;
            split = refl;
            missed = tt;
            same_method = (str_eq_iff r.method method).0 same;
            captured = captured;
            matches = found;
            is_match = cc here;
          }
    ]
  ]

  -- A router that is filled by calls of `route_with_metadata`, one after the other, answers a request
  -- with the first of the calls, in their order, that has the method of the request and a pattern that
  -- matches its path, with the variables of that pattern and the metadata of that call, and with none
  -- if there is no such call.
  pub match_request-IsFirst_iff :
      (calls : List (Registration S)) (m : Match S)
      → (match_request (register_all calls new) method path ≡ some m) ↔ IsFirst calls m
  unfolding match_request lookup
  match_request-IsFirst_iff calls m = (
    λ h. first_of_sound calls m (sym (match_request-register_all calls new) ∙ h),
    λ f.
        match_request-register_all calls new
        ∙ ap first_of f.split
        ∙ first_of_complete f.before f.after f.chosen f.captured f.missed f.same_method f.matches
        ∙ ap some (sym f.is_match),
  )
