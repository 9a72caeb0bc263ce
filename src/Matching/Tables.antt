-- ===== src/Matching/Tables.antt =====
-- A router whose routes are templates answers by the specification of templates.
use mathlib.Core.Option
use grpc_gateway_rust.Prelude.{
  ◌≡◌, ◌≢◌, refl, sym, subst, ◌∙◌, ap, ◌↔◌, inl, inr, none, some, List, [], ◌∷◌, ◌++◌, Option, Str,
  Map, All, or_else, or_else-none, or_else_assoc, lookup, str_eq, str_eq_iff, str_eq_ne,
  str_eq-false, Bool-cases, Option-cases, if◌then◌else◌,
}
use grpc_gateway_rust.Grammar.{Template, DeepLast}
use grpc_gateway_rust.Grammar.Print.{print, IsPrintable}
use grpc_gateway_rust.Pattern.{route_matcher}
use grpc_gateway_rust.Compiler.{compile}
use grpc_gateway_rust.Matching.Routing.{IsSmall, Accepts, compile-route_matcher_iff}
use grpc_gateway_rust.Router.{Router, Match, no_metadata, new, route, match_request}
use grpc_gateway_rust.Router.Laws.{match_request-route_with_metadata}

pub record Endpoint {ℓ} (S : Type ℓ) : Type ℓ where
  pub http_method : Str
  pub template : Template
  pub service : S

-- A template in the syntax of google.api.http, with `**` at the end only, whose indices fit an `i32`.
pub record IsProper (t : Template) : Type 0 where
  pub printable : IsPrintable t
  pub small : IsSmall t
  pub deep : DeepLast t.segments

-- The endpoints, registered in order with the patterns that are compiled from their texts.
abbrev pub route_all {ℓ} : {S : Type ℓ} → List (Endpoint S) → Router S → Router S
route_all [] router = router
route_all (e ∷ es) router =
    route_all es (route router e.http_method (compile (print e.template)) e.service)

-- The first endpoint of the method whose template accepts the path, and the variables.
pub data FirstAccepting {ℓ} {S : Type ℓ} (method path : Str)
    : List (Endpoint S) → Match S → Type ℓ where
  accepted :
      {e : Endpoint S} {es : List (Endpoint S)} {vars : Map Str}
      → e.http_method ≡ method
      → Accepts e.template path vars
      → FirstAccepting method path (e ∷ es) (e.service, vars, no_metadata)
  other_method :
      {e : Endpoint S} {es : List (Endpoint S)} {m : Match S}
      → e.http_method ≢ method
      → FirstAccepting method path es m
      → FirstAccepting method path (e ∷ es) m
  other_path :
      {e : Endpoint S} {es : List (Endpoint S)} {m : Match S}
      → ((vars : Map Str) → Accepts e.template path vars → ⊥)
      → FirstAccepting method path es m
      → FirstAccepting method path (e ∷ es) m

module _ {ℓ} {S : Type ℓ} (method path : Str) where
  -- What one endpoint answers, and what several do.
  abbrev pub answer_of : Endpoint S → Option (Match S)
  answer_of e =
      if str_eq e.http_method method
      then Option.map (λ vars. (e.service, vars, no_metadata))
          (route_matcher (compile (print e.template)) path)
      else none

  abbrev pub answer_all : List (Endpoint S) → Option (Match S)
  answer_all [] = none
  answer_all (e ∷ es) = or_else (answer_of e) (answer_all es)

  match_request-route :
      (router : Router S) (e : Endpoint S)
      → match_request
          (route router e.http_method (compile (print e.template)) e.service)
          method
          path
        ≡ or_else (match_request router method path) (answer_of e)
  unfolding route
  match_request-route router e =
      match_request-route_with_metadata router e.http_method (compile (print e.template)) e.service
        no_metadata method path
      ∙ elim (Bool-cases (str_eq e.http_method method)) [
        | inl same ↦ rw same refl
        | inr other ↦ rw other (sym (or_else-none (match_request router method path)))
      ]

  match_request-route_all :
      (es : List (Endpoint S)) (router : Router S)
      → match_request (route_all es router) method path
        ≡ or_else (match_request router method path) (answer_all es)
  match_request-route_all [] router = sym (or_else-none (match_request router method path))
  match_request-route_all (e ∷ es) router =
      match_request-route_all es (route router e.http_method (compile (print e.template)) e.service)
      ∙ ap (λ o. or_else o (answer_all es)) (match_request-route router e)
      ∙ or_else_assoc (match_request router method path) (answer_of e) (answer_all es)

  answer_all_sound :
      (es : List (Endpoint S)) (m : Match S)
      → All (λ e. IsProper e.template) es
      → answer_all es ≡ some m
      → FirstAccepting method path es m
  answer_all_sound [] m h f = cc
  answer_all_sound (e ∷ es) m (h, hs) f = elim (Bool-cases (str_eq e.http_method method)) [
    | inr other ↦
        other_method (str_eq-false e.http_method method other)
          (answer_all_sound es m hs (rw other at f))
    | inl same ↦ elim (Option-cases (route_matcher (compile (print e.template)) path)) [
      | inl missed ↦
          other_path
            (λ vars a. cc (
              sym missed
              ∙ (compile-route_matcher_iff e.template path vars h.printable h.small h.deep).1 a))
            (answer_all_sound es m hs (rw (same, missed) at f))
      | inr (vars, found) ↦
          let answer : some (e.service, vars, no_metadata) ≡ some m = rw (same, found) at f in
          subst (FirstAccepting method path (e ∷ es)) (cc answer) (
            accepted ((str_eq_iff e.http_method method).0 same)
              ((compile-route_matcher_iff e.template path vars h.printable h.small h.deep).0 found))
    ]
  ]

  refused :
      (e : Endpoint S)
      → IsProper e.template
      → ((vars : Map Str) → Accepts e.template path vars → ⊥)
      → answer_of e ≡ none
  refused e h no_match = elim (Bool-cases (str_eq e.http_method method)) [
    | inr other ↦ rw other
    | inl same ↦ elim (Option-cases (route_matcher (compile (print e.template)) path)) [
      | inl missed ↦ rw (same, missed)
      | inr (vars, found) ↦ absurd (
          no_match vars
            ((compile-route_matcher_iff e.template path vars h.printable h.small h.deep).0 found))
    ]
  ]

  answer_all_complete :
      {es : List (Endpoint S)} {m : Match S}
      → FirstAccepting method path es m
      → All (λ e. IsProper e.template) es
      → answer_all es ≡ some m
  answer_all_complete (accepted {e} {es} {vars} same a) (h, hs) = rw (
    (str_eq_iff e.http_method method).1 same,
    (compile-route_matcher_iff e.template path vars h.printable h.small h.deep).1 a,
  )
  answer_all_complete (other_method {e} {es} other rest) (h, hs) =
      rw (str_eq_ne e.http_method method other) (answer_all_complete rest hs)
  answer_all_complete (other_path {e} {es} no_match rest) (h, hs) =
      rw (refused e h no_match) (answer_all_complete rest hs)

-- A router with routes for templates that were written out and compiled answers a request with the
-- first registered route of the method whose template accepts the path by the specification, and with
-- the variables that the specification gives; and with no route if there is none: for templates in the
-- syntax of google.api.http, with `**` at the end only, whose indices fit an `i32`.
pub route_all-FirstAccepting_iff {ℓ} :
    {S : Type ℓ} (es : List (Endpoint S)) (method path : Str) (m : Match S)
    → All (λ e. IsProper e.template) es
    → (match_request (route_all es new) method path ≡ some m) ↔ FirstAccepting method path es m
unfolding match_request lookup
route_all-FirstAccepting_iff es method path m h =
    let same : match_request (route_all es new) method path ≡ answer_all method path es =
      match_request-route_all method path es new in
    (
      λ e. answer_all_sound method path es m h (sym same ∙ e),
      λ d. same ∙ answer_all_complete method path d h,
    )

pub route_all-append {ℓ} :
    {S : Type ℓ} (es fs : List (Endpoint S)) (router : Router S)
    → route_all (es ++ fs) router ≡ route_all fs (route_all es router)
route_all-append [] fs router = refl
route_all-append (e ∷ es) fs router = route_all-append es fs _
