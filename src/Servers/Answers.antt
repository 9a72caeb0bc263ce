-- ===== src/Servers/Answers.antt =====
-- What the example gateways answer.
use grpc_gateway_rust.Prelude.{
  ◌≡◌, refl, sym, ◌∙◌, subst, Option, none, some, List, [], ◌∷◌, Str, lit, Option-cases, inl, inr,
}
use grpc_gateway_rust.Http.{HeaderApi, MetadataApi}
use grpc_gateway_rust.Http.Message.{Request, Response, Body, Outcome, Service}
use grpc_gateway_rust.Grammar.{Template}
use grpc_gateway_rust.Matching.Tables.{FirstAccepting}
use grpc_gateway_rust.Router.{Router, Match, new, match_request}
use grpc_gateway_rust.Router.Mapping.{map_router, route-map_router, match_request-map_router}
use grpc_gateway_rust.Utilities.Sharing.{new_sync, get_locked}
use grpc_gateway_rust.Bindings.Services.{MethodDefinition, ServiceDefinition}
use grpc_gateway_rust.Generator.{GeneratorOptions}
use grpc_gateway_rust.Generator.Service.{Naming, MethodCode, RegistrationCode, generate_service}
use grpc_gateway_rust.Generator.Emitted.{Runtime, Method, register, registered}
use grpc_gateway_rust.Generator.Routing.{
  SpellsAll, methods_of, endpoints_of, register-FirstAccepting_iff,
}
use grpc_gateway_rust.Generator.Answering.{Answered, router_call-Answered}
use grpc_gateway_rust.Gateway.{set_params, default, RouterService, dispatch, router_call}
use grpc_gateway_rust.Servers.{register_shared, plain_response, respond, serve_matched, serve}

-- A router with neither a verifier nor unescaping.
abbrev pub plain_router : {H M W : Type 0} → Router (Service H M W) → RouterService H M W
plain_router router = record { router = router; auth_verifier = none; unescaping_mode = default }

module _ (api : HeaderApi) (full : Str → Body) {M W : Type 0} (decode : Str → Option Str)
    (router : Router (Service api.Headers M W)) (req : Request api.Headers M) (bytes : Str)
    (w : W) where
  pub serve-none :
      match_request router req.method req.path ≡ none
      → serve api full (map_router new_sync router) req (some bytes) w
        ≡ (some (plain_response api full 404 []), w)
  unfolding serve serve_matched
  serve-none missing = rw (match_request-map_router new_sync router req.method req.path, missing)

  pub serve-some :
      (m : Match (Service api.Headers M W))
      → match_request router req.method req.path ≡ some m
      → serve api full (map_router new_sync router) req (some bytes) w ≡ (
        some (respond api full (m.0 (set_params m.1 (record req { body = bytes })) w).0),
        (m.0 (set_params m.1 (record req { body = bytes })) w).1,
      )
  unfolding serve serve_matched get_locked
  serve-some (s, params, metadata) found =
      rw (match_request-map_router new_sync router req.method req.path, found)

  -- Behind mutexes that are not poisoned, the services answer as in the dispatch of the gateway.
  pub serve-router_call :
      (m : Match (Service api.Headers M W))
      → match_request router req.method req.path ≡ some m
      → serve api full (map_router new_sync router) req (some bytes) w ≡ (
        some (
            respond api full
              (router_call decode (plain_router router) (record req { body = bytes }) w).0),
        (router_call decode (plain_router router) (record req { body = bytes }) w).1,
      )
  unfolding serve serve_matched get_locked router_call dispatch
  serve-router_call (s, params, metadata) found =
      rw (match_request-map_router new_sync router req.method req.path, found, dispatch)

module _ (api : HeaderApi) (md : MetadataApi) (runtime : Runtime md.Metadata) {W : Type 0}
    (In Out : MethodCode → Type 0)
    (methods : (code : MethodCode)
      → Method code.server_streaming (In code) (Out code) md.Metadata W) where
  pub register_shared-map_router :
      (rs : List (MethodCode × RegistrationCode))
      (router : Router (Service api.Headers md.Metadata W))
      → register_shared api md runtime In Out methods rs (map_router new_sync router)
        ≡ map_router new_sync (register api md runtime In Out methods rs router)
  unfolding register_shared register
  register_shared-map_router [] router = refl
  register_shared-map_router ((code, registration) ∷ rest) router =
      rw
        (route-map_router new_sync router registration.http_method registration.pattern
          (registered api md runtime code (methods code) registration))
        (register_shared-map_router rest _)

  module _ (naming : Naming) (options : GeneratorOptions) (full : Str → Body)
      (decode : Str → Option Str) where
    -- The specification of an example gateway: a body that cannot be collected, a path that no binding
    -- accepts, and every other request, which the service of the first such binding answers.
    pub data Replied (package_name : Str) (templates : List (MethodDefinition × List Template))
        (req : Request api.Headers md.Metadata) (w : W)
        : Option Str → Option (Response api.Headers) × W → Type 0 where
      uncollected :
          Replied package_name templates req w none
            (some (plain_response api full 400 (lit "Bad Request")), w)
      unmatched :
          {bytes : Str}
          → ((found : Match (Service api.Headers md.Metadata W))
              → FirstAccepting req.method req.path
                  (endpoints_of api md runtime naming options package_name In Out methods templates)
                  found
              → ⊥)
          → Replied package_name templates req w
              (some bytes)
              (some (plain_response api full 404 []), w)
      answered :
          {bytes : Str} {found : Match (Service api.Headers md.Metadata W)}
          {o : Outcome api.Headers} {after : W}
          → FirstAccepting req.method req.path
              (endpoints_of api md runtime naming options package_name In Out methods templates)
              found
          → Answered api md runtime naming options In Out methods decode none default package_name
              templates
              (record req { body = bytes })
              w
              (o, after)
          → Replied package_name templates req w (some bytes) (some (respond api full o), after)

    -- An example gateway never panics over the generated routes of a service. It answers a body that
    -- cannot be collected with 400, a request whose path no binding of its method accepts with 404, and
    -- every other request as the dispatch over the templates does, without a verifier and with the path
    -- as it is, an error of it with an empty response of status 500: for templates of google.api.http
    -- with `**` at the end only, whose indices fit an `i32`, and one parameter per variable.
    pub serve-Replied :
        (service : ServiceDefinition) (templates : List (MethodDefinition × List Template))
        (req : Request api.Headers md.Metadata) (collected : Option Str) (w : W)
        → service.methods ≡ methods_of templates
        → SpellsAll templates
        → Replied service.package_name templates req w collected (
            serve api full
              (register_shared api md runtime In Out methods
                (generate_service naming service options).registrations
                new)
              req
              collected
              w)
    unfolding serve
    serve-Replied service templates req none w e spells = uncollected
    serve-Replied service templates req (some bytes) w e spells =
        let rs = (generate_service naming service options).registrations in
        let routes = register api md runtime In Out methods rs new in
        let first =
          register-FirstAccepting_iff api md runtime naming options service.package_name In Out
            methods service templates req.method req.path in
        subst
          (λ router.
            Replied service.package_name templates req w (some bytes)
              (serve api full router req (some bytes) w))
          (sym (register_shared-map_router rs new))
          (elim (Option-cases (match_request routes req.method req.path)) [
            | inl missing ↦
                subst (Replied service.package_name templates req w (some bytes))
                  (sym (serve-none api full decode routes req bytes w missing))
                  (unmatched (λ found f. cc (sym missing ∙ (first found e refl spells).1 f)))
            | inr (found, matched) ↦
                subst (Replied service.package_name templates req w (some bytes))
                  (sym (serve-router_call api full decode routes req bytes w found matched))
                  (answered ((first found e refl spells).0 matched) (
                    router_call-Answered api md runtime naming options In Out methods decode none
                      default service templates (record req { body = bytes }) w e spells))
          ])
