-- ===== src/Servers/Several.antt =====
-- examples/src/a_bit_of_everything/gateway.rs, `main`: several generated services in one router.
use grpc_gateway_rust.Prelude.{
  ◌≡◌, refl, sym, ap, ◌∙◌, subst, Option-cases, inl, inr, Option, some, List, [], ◌∷◌, ◌++◌, Str,
  All, All-append,
}
use grpc_gateway_rust.Http.{HeaderApi, MetadataApi}
use grpc_gateway_rust.Http.Message.{Request, Response, Body, Outcome, Service}
use grpc_gateway_rust.Grammar.{Template}
use grpc_gateway_rust.Matching.Tables.{
  Endpoint, IsProper, FirstAccepting, route_all, route_all-append, route_all-FirstAccepting_iff,
}
use grpc_gateway_rust.Router.{Router, Match, new, match_request}
use grpc_gateway_rust.Router.Mapping.{map_router}
use grpc_gateway_rust.Utilities.Sharing.{SyncService, new_sync}
use grpc_gateway_rust.Bindings.Services.{MethodDefinition, ServiceDefinition}
use grpc_gateway_rust.Generator.{GeneratorOptions}
use grpc_gateway_rust.Generator.Service.{Naming, MethodCode, generate_service}
use grpc_gateway_rust.Generator.Emitted.{Runtime, Method}
use grpc_gateway_rust.Generator.Routing.{
  SpellsAll, methods_of, endpoints_of, endpoints_of-IsProper, register-generate_service,
}
use grpc_gateway_rust.Gateway.{set_params}
use grpc_gateway_rust.Servers.{register_shared, plain_response, respond, serve}
use grpc_gateway_rust.Servers.Answers.{register_shared-map_router, serve-none, serve-some}

abbrev pub services_of :
    List (ServiceDefinition × List (MethodDefinition × List Template)) → List ServiceDefinition
services_of [] = []
services_of ((service, templates) ∷ rest) = service ∷ services_of rest

-- The bindings of a service are those of its templates.
abbrev pub IsSpelled : ServiceDefinition × List (MethodDefinition × List Template) → Type 0
IsSpelled (service, templates) = (service.methods ≡ methods_of templates) × SpellsAll templates

-- Every service has its own client and codec.
module _ (api : HeaderApi) (md : MetadataApi) (runtime : Runtime md.Metadata) (naming : Naming)
    (options : GeneratorOptions) {W : Type 0} (In Out : ServiceDefinition → MethodCode → Type 0)
    (methods : (service : ServiceDefinition) (code : MethodCode)
      → Method code.server_streaming (In service code) (Out service code) md.Metadata W) where
  -- The calls of the registration functions, one after the other.
  unfoldable pub register_services :
      List ServiceDefinition
      → Router (SyncService (Service api.Headers md.Metadata W))
      → Router (SyncService (Service api.Headers md.Metadata W))
  unfolding register_shared
  register_services [] router = router
  register_services (service ∷ rest) router = register_services rest (
      register_shared api md runtime (In service) (Out service) (methods service)
        (generate_service naming service options).registrations router)

  -- The endpoints of all services, in the order of registration.
  abbrev pub all_endpoints :
      List (ServiceDefinition × List (MethodDefinition × List Template))
      → List (Endpoint (Service api.Headers md.Metadata W))
  all_endpoints [] = []
  all_endpoints ((service, templates) ∷ rest) =
      endpoints_of api md runtime naming options service.package_name (In service) (Out service)
        (methods service) templates
      ++ all_endpoints rest

  register_services-route_all :
      (deployed : List (ServiceDefinition × List (MethodDefinition × List Template)))
      (router : Router (Service api.Headers md.Metadata W))
      → All IsSpelled deployed
      → register_services (services_of deployed) (map_router new_sync router)
        ≡ map_router new_sync (route_all (all_endpoints deployed) router)
  unfolding register_services
  register_services-route_all [] router h = refl
  register_services-route_all ((service, templates) ∷ rest) router ((e, spells), h) =
      ap (register_services (services_of rest)) (
        register_shared-map_router api md runtime (In service) (Out service) (methods service)
          (generate_service naming service options).registrations router
        ∙ ap (map_router new_sync) (
            register-generate_service api md runtime naming options service.package_name
              (In service) (Out service) (methods service) service templates router e refl spells))
      ∙ register_services-route_all rest _ h
      ∙ ap (map_router new_sync) (
          sym (
            route_all-append
              (endpoints_of api md runtime naming options service.package_name (In service)
                (Out service) (methods service) templates)
              (all_endpoints rest) router))

  all_endpoints-IsProper :
      (deployed : List (ServiceDefinition × List (MethodDefinition × List Template)))
      → All IsSpelled deployed
      → All (λ e. IsProper e.template) (all_endpoints deployed)
  all_endpoints-IsProper [] h = tt
  all_endpoints-IsProper ((service, templates) ∷ rest) ((e, spells), h) =
      All-append (λ (x : Endpoint (Service api.Headers md.Metadata W)). IsProper x.template) _ _
        (endpoints_of-IsProper api md runtime naming options service.package_name (In service)
          (Out service) (methods service) templates spells)
        (all_endpoints-IsProper rest h)

  module _ (full : Str → Body)
      (deployed : List (ServiceDefinition × List (MethodDefinition × List Template)))
      (req : Request api.Headers md.Metadata) (bytes : Str) (w : W) where
    -- The specification: a request that no binding of any service accepts, and one that the first
    -- such binding answers, in the order of the services, of their methods, and of the bindings.
    pub data Chosen : Option (Response api.Headers) × W → Type 0 where
      lost :
          ((found : Match (Service api.Headers md.Metadata W))
            → FirstAccepting req.method req.path (all_endpoints deployed) found
            → ⊥)
          → Chosen (some (plain_response api full 404 []), w)
      chosen :
          {found : Match (Service api.Headers md.Metadata W)} {o : Outcome api.Headers} {after : W}
          → FirstAccepting req.method req.path (all_endpoints deployed) found
          → found.0 (set_params found.1 (record req { body = bytes })) w ≡ (o, after)
          → Chosen (some (respond api full o), after)

    -- A gateway with several generated services in one router answers a request with the service of the
    -- first binding, in the order of the services, of their methods and of the bindings, that has its
    -- method and a template that accepts its path, and with 404 if there is none: for templates of
    -- google.api.http with `**` at the end only, whose indices fit an `i32`, and one parameter per
    -- variable.
    pub serve-Chosen :
        All IsSpelled deployed
        → Chosen (serve api full (register_services (services_of deployed) new) req (some bytes) w)
    serve-Chosen h =
        let routes : Router (Service api.Headers md.Metadata W) =
          route_all (all_endpoints deployed) new in
        let first = route_all-FirstAccepting_iff (all_endpoints deployed) req.method req.path in
        subst (λ router. Chosen (serve api full router req (some bytes) w))
          (sym (register_services-route_all deployed new h))
          (elim (Option-cases (match_request routes req.method req.path)) [
            | inl missing ↦
                subst Chosen (sym (serve-none api full (λ s. some s) routes req bytes w missing)) (
                  lost (λ found f.
                    cc (sym missing ∙ (first found (all_endpoints-IsProper deployed h)).1 f)))
            | inr (found, matched) ↦
                subst Chosen
                  (sym (serve-some api full (λ s. some s) routes req bytes w found matched))
                  (chosen ((first found (all_endpoints-IsProper deployed h)).0 matched) refl)
          ])
