-- ===== src/Router.antt =====
-- gateway-runtime/src/router.rs: the table of routes. Methods are keys, and the entries of one method
-- stand in the order of registration.
pub mod Laws
pub mod Mapping
pub mod Registering
pub mod Examples
use grpc_gateway_rust.Prelude.{Option, none, some, List, [], ◌∷◌, ◌++◌, Str, Map, lookup, insert}
use grpc_gateway_rust.Template.{Pattern}
use grpc_gateway_rust.Pattern.{route_matcher}

pub data AuthLocation : Type 0 where
  header query cookie : AuthLocation

pub record AuthConfig : Type 0 where
  pub scheme : Str
  pub location : AuthLocation
  pub name : Str

pub record RouteMetadata : Type 0 where
  pub auth_required : Option AuthConfig

-- `RouteMetadata::default()`
abbrev pub no_metadata : RouteMetadata
no_metadata = record { auth_required = none }

pub record RouteEntry {ℓ} (S : Type ℓ) : Type ℓ where
  pub pattern : Pattern
  pub service : S
  pub metadata : RouteMetadata

pub record Router {ℓ} (S : Type ℓ) : Type ℓ where
  pub routes : Map (List (RouteEntry S))

abbrev pub Match {ℓ} : Type ℓ → Type ℓ
Match S = S × Map Str × RouteMetadata

module _ {ℓ} {S : Type ℓ} where
  abbrev pub new : Router S
  new = record { routes = [] }

  -- `router.routes.entry(method).or_default()`
  abbrev pub entries_of : Router S → Str → List (RouteEntry S)
  entries_of router method = elim (lookup method router.routes) [ none ↦ [] | some es ↦ es ]

  unfoldable pub route_with_metadata : Router S → Str → Pattern → S → RouteMetadata → Router S
  route_with_metadata router method pattern service metadata = record {
    routes =
        insert method
          (entries_of router method
            ++ (record { pattern = pattern; service = service; metadata = metadata } ∷ []))
          router.routes;
  }

  unfoldable pub route : Router S → Str → Pattern → S → Router S
  unfolding route_with_metadata
  route router method pattern service =
      route_with_metadata router method pattern service no_metadata

  -- The loop over the entries of one method.
  pub first_match : List (RouteEntry S) → Str → Option (Match S)
  first_match [] path = none
  first_match (entry ∷ rest) path = elim (route_matcher entry.pattern path) [
    | none ↦ first_match rest path
    | some captured ↦ some (entry.service, captured, entry.metadata)
  ]

  unfoldable pub match_request : Router S → Str → Str → Option (Match S)
  unfolding first_match
  match_request router method path = elim (lookup method router.routes) [
    | none ↦ none
    | some entries ↦ first_match entries path
  ]
