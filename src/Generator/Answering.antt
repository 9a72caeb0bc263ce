-- ===== src/Generator/Answering.antt =====
-- The generated routes behind the dispatch of the gateway.
use grpc_gateway_rust.Prelude.{
  [], ◌∷◌, ◌++◌, sym, subst, ◌∙◌, inl, inr, Option-cases, ◌≡◌, refl, none, some, List, map, Str,
  Option,
}
use grpc_gateway_rust.Http.{HeaderApi, MetadataApi}
use grpc_gateway_rust.Http.Message.{Request, Service, Outcome, failure}
use grpc_gateway_rust.Errors.{GatewayError, no_route}
use grpc_gateway_rust.Grammar.{Template}
use grpc_gateway_rust.Compiler.Emit.{vars_of}
use grpc_gateway_rust.Matching.Routing.{Accepts}
use grpc_gateway_rust.Matching.Tables.{Endpoint, FirstAccepting, accepted, other_method, other_path}
use grpc_gateway_rust.Router.{Match, match_request, new}
use grpc_gateway_rust.Bindings.{Parameter, MethodBinding}
use grpc_gateway_rust.Bindings.Services.{MethodDefinition, ServiceDefinition}
use grpc_gateway_rust.Generator.{GeneratorOptions}
use grpc_gateway_rust.Generator.Service.{
  Naming, MethodCode, method_code, registration_code, generate_service,
}
use grpc_gateway_rust.Generator.Emitted.{Runtime, Method, register}
use grpc_gateway_rust.Generator.Routing.{
  Spells, no_binding, spelled, SpellsAll, nothing_spelled, method_spelled, methods_of, service_of,
  endpoints_of_method, endpoints_of, register-FirstAccepting_iff,
}
use grpc_gateway_rust.Generator.Serving.{Serves, registered-Serves}
use grpc_gateway_rust.Gateway.{
  UnescapingMode, AuthVerifier, RouterService, verify, unescape, set_params, dispatch, router_call,
}

module _ (api : HeaderApi) (md : MetadataApi) (runtime : Runtime md.Metadata) (naming : Naming)
    (options : GeneratorOptions) {W : Type 0} (In Out : MethodCode → Type 0)
    (methods : (code : MethodCode)
      → Method code.server_streaming (In code) (Out code) md.Metadata W)
    (decode : Str → Option Str) (auth : Option (AuthVerifier api.Headers md.Metadata))
    (mode : UnescapingMode) where
  -- The dispatch over the routes of a generated service.
  abbrev pub generated_router : ServiceDefinition → RouterService api.Headers md.Metadata W
  generated_router service = record {
    router =
        register api md runtime In Out methods
          (generate_service naming service options).registrations new;
    auth_verifier = auth;
    unescaping_mode = mode;
  }

  abbrev unescaped : Request api.Headers md.Metadata → Str
  unescaped req = unescape decode mode req.path

  -- The service of a binding that has the method of the request and accepts its path.
  pub record Found (package_name : Str) (req : Request api.Headers md.Metadata)
      (found : Match (Service api.Headers md.Metadata W)) : Type 0 where
    pub method : MethodDefinition
    pub binding : MethodBinding
    pub template : Template
    pub service :
        found.0
        ≡ service_of api md runtime naming options package_name In Out methods method binding
    pub http_method : binding.http_method ≡ req.method
    pub names :
        map (λ (p : Parameter). p.field_path) binding.path_params ≡ vars_of template.segments
    pub accepts : Accepts template (unescape decode mode req.path) found.1

  module _ (package_name : Str) (req : Request api.Headers md.Metadata) where
    Found-method :
        (m : MethodDefinition) {bs : List MethodBinding} {ts : List Template}
        {es : List (Endpoint (Service api.Headers md.Metadata W))}
        {found : Match (Service api.Headers md.Metadata W)}
        → Spells bs ts
        → (FirstAccepting req.method (unescaped req) es found → Found package_name req found)
        → FirstAccepting req.method
            (unescaped req)
            (endpoints_of_method api md runtime naming options package_name In Out methods m bs ts
              ++ es)
            found
        → Found package_name req found
    Found-method m no_binding later first = later first
    Found-method m (spelled {b} {bs} {t} {ts} e names proper more) later (accepted same a) =
        record {
          method = m;
          binding = b;
          template = t;
          service = refl;
          http_method = same;
          names = names;
          accepts = a;
        }
    Found-method m (spelled e names proper more) later (other_method other rest) =
        Found-method m more later rest
    Found-method m (spelled e names proper more) later (other_path other rest) =
        Found-method m more later rest

    FirstAccepting-Found :
        (templates : List (MethodDefinition × List Template))
        {found : Match (Service api.Headers md.Metadata W)}
        → SpellsAll templates
        → FirstAccepting req.method
            (unescaped req)
            (endpoints_of api md runtime naming options package_name In Out methods templates)
            found
        → Found package_name req found
    FirstAccepting-Found [] nothing_spelled first = elim first [ ]
    FirstAccepting-Found ((m, ts) ∷ ms) (method_spelled s more) first =
        Found-method m s (FirstAccepting-Found ms more) first

  -- The specification of the generated gateway: a request that no binding accepts, one that the
  -- verifier refuses, and one that the generated service of a binding answers.
  pub data Answered (package_name : Str) (templates : List (MethodDefinition × List Template))
      (req : Request api.Headers md.Metadata) (w : W) : Outcome api.Headers × W → Type 0 where
    unmatched :
        ((found : _)
          → FirstAccepting req.method
              (unescape decode mode req.path)
              (endpoints_of api md runtime naming options package_name In Out methods templates)
              found
          → ⊥)
        → Answered package_name templates req w (failure no_route, w)
    forbidden :
        {found : Match (Service api.Headers md.Metadata W)} {e : GatewayError}
        → FirstAccepting req.method
            (unescape decode mode req.path)
            (endpoints_of api md runtime naming options package_name In Out methods templates)
            found
        → verify auth req found.2 ≡ some e
        → Answered package_name templates req w (failure e, w)
    served :
        {found : Match (Service api.Headers md.Metadata W)} {out : Outcome api.Headers × W}
        (f : Found package_name req found)
        → FirstAccepting req.method
            (unescape decode mode req.path)
            (endpoints_of api md runtime naming options package_name In Out methods templates)
            found
        → verify auth req found.2 ≡ none
        → Serves api md runtime
            (method_code naming options package_name f.method)
            (methods (method_code naming options package_name f.method))
            (registration_code naming options package_name f.method f.binding)
            found.1
            (set_params found.1 req)
            w
            out
        → Answered package_name templates req w out

  pub router_call-Answered :
      (service : ServiceDefinition) (templates : List (MethodDefinition × List Template))
      (req : Request api.Headers md.Metadata) (w : W)
      → service.methods ≡ methods_of templates
      → SpellsAll templates
      → Answered service.package_name templates req w
          (router_call decode (generated_router service) req w)
  unfolding router_call dispatch
  router_call-Answered service templates req w e h =
      let path = unescape decode mode req.path in
      let first =
        register-FirstAccepting_iff api md runtime naming options service.package_name In Out
          methods service templates req.method path in
      elim (Option-cases (match_request (generated_router service).router req.method path)) [
        | inl missing ↦
            rw (missing, dispatch)
              (unmatched (λ found f. cc (sym missing ∙ (first found e refl h).1 f)))
        | inr (found, matched) ↦
            let given = (first found e refl h).0 matched in
            let f = FirstAccepting-Found service.package_name req templates h given in
            elim (Option-cases (verify auth req found.2)) [
              | inl passed ↦
                  rw (matched, dispatch, passed)
                    (served f given passed (
                      subst
                        (λ s.
                          Serves api md runtime
                            (method_code naming options service.package_name f.method)
                            (methods (method_code naming options service.package_name f.method))
                            (registration_code naming options service.package_name f.method
                              f.binding)
                            found.1 (set_params found.1 req) w (s (set_params found.1 req) w))
                        (sym f.service)
                        (registered-Serves api md runtime
                          (method_code naming options service.package_name f.method)
                          (methods (method_code naming options service.package_name f.method))
                          naming options service.package_name f.method f.binding
                          (set_params found.1 req) w f.template path found.1 f.names f.accepts
                          refl)))
              | inr (err, failed) ↦ rw (matched, dispatch, failed) (forbidden given failed)
            ]
      ]
