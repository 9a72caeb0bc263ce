-- ===== src/Router/Mapping.antt =====
-- A router whose services are wrapped finds what the router of the services finds.
use grpc_gateway_rust.Prelude.{
  ◌≡◌, refl, sym, ◌∙◌, ap, Option, none, some, List, [], ◌∷◌, ◌++◌, map, Str, Map, lookup, insert,
  str_eq, Bool-cases, Option-cases, inl, inr,
}
use grpc_gateway_rust.Template.{Pattern}
use grpc_gateway_rust.Pattern.{route_matcher}
use grpc_gateway_rust.Router.{
  RouteEntry, Router, Match, no_metadata, entries_of, route, first_match, match_request,
}

module _ {S T : Type 0} (f : S → T) where
  abbrev map_entry : RouteEntry S → RouteEntry T
  map_entry e = record { pattern = e.pattern; service = f e.service; metadata = e.metadata }

  abbrev map_routes : Map (List (RouteEntry S)) → Map (List (RouteEntry T))
  map_routes [] = []
  map_routes ((method, es) ∷ rest) = (method, map map_entry es) ∷ map_routes rest

  abbrev pub map_router : Router S → Router T
  map_router router = record { routes = map_routes router.routes }

  abbrev pub map_match : Option (Match S) → Option (Match T)
  map_match none = none
  map_match (some (s, params, metadata)) = some (f s, params, metadata)

  abbrev map_entries : Option (List (RouteEntry S)) → Option (List (RouteEntry T))
  map_entries none = none
  map_entries (some es) = some (map map_entry es)

  lookup-map_routes :
      (k : Str) (m : Map (List (RouteEntry S))) → lookup k (map_routes m) ≡ map_entries (lookup k m)
  unfolding lookup
  lookup-map_routes k [] = refl
  lookup-map_routes k ((j, es) ∷ rest) = elim (Bool-cases (str_eq j k)) [
    | inl same ↦ rw same
    | inr other ↦ rw other (lookup-map_routes k rest)
  ]

  insert-map_routes :
      (k : Str) (es : List (RouteEntry S)) (m : Map (List (RouteEntry S)))
      → insert k (map map_entry es) (map_routes m) ≡ map_routes (insert k es m)
  unfolding insert
  insert-map_routes k es [] = refl
  insert-map_routes k es ((j, old) ∷ rest) = elim (Bool-cases (str_eq j k)) [
    | inl same ↦ rw same
    | inr other ↦ rw other (ap (λ r. (j, map map_entry old) ∷ r) (insert-map_routes k es rest))
  ]

  entries_of-map_router :
      (router : Router S) (k : Str)
      → entries_of (map_router router) k ≡ map map_entry (entries_of router k)
  entries_of-map_router router k = elim (Option-cases (lookup k router.routes)) [
    | inl missing ↦ rw (lookup-map_routes k router.routes, missing, entries_of)
    | inr (es, found) ↦ rw (lookup-map_routes k router.routes, found, entries_of)
  ]

  map_entry-append :
      (es : List (RouteEntry S)) (e : RouteEntry S)
      → map map_entry (es ++ (e ∷ [])) ≡ map map_entry es ++ (map_entry e ∷ [])
  map_entry-append [] e = refl
  map_entry-append (x ∷ es) e = ap (λ rest. map_entry x ∷ rest) (map_entry-append es e)

  abbrev entry : Pattern → S → RouteEntry S
  entry pattern s = record { pattern = pattern; service = s; metadata = no_metadata }

  pub route-map_router :
      (router : Router S) (method : Str) (pattern : Pattern) (s : S)
      → route (map_router router) method pattern (f s) ≡ map_router (route router method pattern s)
  unfolding route
  route-map_router router method pattern s =
      ap (λ (m : Map (List (RouteEntry T))). record { routes = m })
        (ap
            (λ es.
              insert method (es ++ (map_entry (entry pattern s) ∷ [])) (map_routes router.routes))
            (entries_of-map_router router method)
          ∙ ap (λ es. insert method es (map_routes router.routes))
              (sym (map_entry-append (entries_of router method) (entry pattern s)))
          ∙ insert-map_routes method (entries_of router method ++ (entry pattern s ∷ []))
              router.routes)

  first_match-map_entry :
      (es : List (RouteEntry S)) (path : Str)
      → first_match (map map_entry es) path ≡ map_match (first_match es path)
  unfolding first_match
  first_match-map_entry [] path = refl
  first_match-map_entry (e ∷ es) path = elim (Option-cases (route_matcher e.pattern path)) [
    | inl other ↦ rw (other, first_match) (first_match-map_entry es path)
    | inr (vars, found) ↦ rw (found, first_match)
  ]

  pub match_request-map_router :
      (router : Router S) (method path : Str)
      → match_request (map_router router) method path ≡ map_match (match_request router method path)
  unfolding match_request
  match_request-map_router router method path = elim (Option-cases (lookup method router.routes)) [
    | inl missing ↦ rw (lookup-map_routes method router.routes, missing, match_request)
    | inr (es, found) ↦
        rw (lookup-map_routes method router.routes, found, match_request)
          (first_match-map_entry es path)
  ]
