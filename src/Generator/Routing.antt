-- ===== src/Generator/Routing.antt =====
-- Which of the generated services answers a request.
use grpc_gateway_rust.Prelude.{map, ◌≡◌, refl, ◌↔◌, some, List, [], ◌∷◌, ◌++◌, Str, All}
use grpc_gateway_rust.Http.{HeaderApi, MetadataApi}
use grpc_gateway_rust.Http.Message.{Service}
use grpc_gateway_rust.Grammar.{Template}
use grpc_gateway_rust.Grammar.Print.{print}
use grpc_gateway_rust.Router.{Router, Match, new, match_request}
use grpc_gateway_rust.Matching.Tables.{
  Endpoint, IsProper, route_all, FirstAccepting, route_all-FirstAccepting_iff,
}
use grpc_gateway_rust.Compiler.Emit.{vars_of}
use grpc_gateway_rust.Bindings.{Parameter, MethodBinding}
use grpc_gateway_rust.Bindings.Services.{MethodDefinition, ServiceDefinition}
use grpc_gateway_rust.Generator.{GeneratorOptions}
use grpc_gateway_rust.Generator.Service.{
  Naming, RegistrationCode, MethodCode, method_code, registration_code, method_registrations,
  registrations_of, generate_service,
}
use grpc_gateway_rust.Generator.Emitted.{Runtime, Method, registered, register}

-- The templates of bindings, in order: each is the text of a proper template, and its variables are
-- the parameters of the binding.
pub data Spells : List MethodBinding → List Template → Type 0 where
  no_binding : Spells [] []
  spelled :
      {b : MethodBinding} {bs : List MethodBinding} {t : Template} {ts : List Template}
      → b.path_tmpl.template ≡ print t
      → map (λ (p : Parameter). p.field_path) b.path_params ≡ vars_of t.segments
      → IsProper t
      → Spells bs ts
      → Spells (b ∷ bs) (t ∷ ts)

-- The methods of a service with the templates of their bindings.
pub data SpellsAll : List (MethodDefinition × List Template) → Type 0 where
  nothing_spelled : SpellsAll []
  method_spelled :
      {m : MethodDefinition} {ts : List Template} {ms : List (MethodDefinition × List Template)}
      → Spells m.bindings ts
      → SpellsAll ms
      → SpellsAll ((m, ts) ∷ ms)

abbrev pub methods_of : List (MethodDefinition × List Template) → List MethodDefinition
methods_of [] = []
methods_of ((m, ts) ∷ ms) = m ∷ methods_of ms

module _ (api : HeaderApi) (md : MetadataApi) (runtime : Runtime md.Metadata) (naming : Naming)
    (options : GeneratorOptions) (package_name : Str) {W : Type 0} (In Out : MethodCode → Type 0)
    (methods : (code : MethodCode)
      → Method code.server_streaming (In code) (Out code) md.Metadata W) where
  -- The service that is registered for a binding of a method.
  abbrev pub service_of : MethodDefinition → MethodBinding → Service api.Headers md.Metadata W
  service_of method binding =
      let code = method_code naming options package_name method in
      registered api md runtime code (methods code)
        (registration_code naming options package_name method binding)

  abbrev pub endpoints_of_method :
      MethodDefinition
      → List MethodBinding
      → List Template
      → List (Endpoint (Service api.Headers md.Metadata W))
  endpoints_of_method method [] ts = []
  endpoints_of_method method (b ∷ bs) [] = []
  endpoints_of_method method (b ∷ bs) (t ∷ ts) =
      (record { http_method = b.http_method; template = t; service = service_of method b })
      ∷ endpoints_of_method method bs ts

  -- The endpoints of a service: its methods in order, and their bindings in order.
  abbrev pub endpoints_of :
      List (MethodDefinition × List Template) → List (Endpoint (Service api.Headers md.Metadata W))
  endpoints_of [] = []
  endpoints_of ((m, ts) ∷ ms) = endpoints_of_method m m.bindings ts ++ endpoints_of ms

  abbrev registering :
      List (MethodCode × RegistrationCode)
      → Router (Service api.Headers md.Metadata W)
      → Router (Service api.Headers md.Metadata W)
  registering = register api md runtime In Out methods

  register_method :
      (m : MethodDefinition) {bs : List MethodBinding} {ts : List Template}
      (rest : List (MethodCode × RegistrationCode))
      (es : List (Endpoint (Service api.Headers md.Metadata W)))
      → Spells bs ts
      → ((router : _) → registering rest router ≡ route_all es router)
      → (router : _)
      → registering (method_registrations naming options package_name m bs ++ rest) router
        ≡ route_all (endpoints_of_method m bs ts ++ es) router
  unfolding register registration_code
  register_method m rest es no_binding h router = h router
  register_method m rest es (spelled {b} {bs} {t} {ts} e names proper more) h router =
      rw e (register_method m rest es more h _)

  register-route_all :
      (ms : List (MethodDefinition × List Template))
      → SpellsAll ms
      → (router : _)
      → registering (registrations_of naming options package_name (methods_of ms)) router
        ≡ route_all (endpoints_of ms) router
  unfolding register
  register-route_all [] nothing_spelled router = refl
  register-route_all ((m, ts) ∷ ms) (method_spelled s more) router =
      register_method m _ (endpoints_of ms) s (register-route_all ms more) router

  endpoints_of_method-IsProper :
      (m : MethodDefinition) {bs : List MethodBinding} {ts : List Template}
      (es : List (Endpoint (Service api.Headers md.Metadata W)))
      → Spells bs ts
      → All (λ e. IsProper e.template) es
      → All (λ e. IsProper e.template) (endpoints_of_method m bs ts ++ es)
  endpoints_of_method-IsProper m es no_binding h = h
  endpoints_of_method-IsProper m es (spelled e names proper more) h =
      (proper, endpoints_of_method-IsProper m es more h)

  pub endpoints_of-IsProper :
      (ms : List (MethodDefinition × List Template))
      → SpellsAll ms
      → All (λ e. IsProper e.template) (endpoints_of ms)
  endpoints_of-IsProper [] nothing_spelled = tt
  endpoints_of-IsProper ((m, ts) ∷ ms) (method_spelled s more) =
      endpoints_of_method-IsProper m (endpoints_of ms) s (endpoints_of-IsProper ms more)

  pub register-generate_service :
      (service : ServiceDefinition) (templates : List (MethodDefinition × List Template))
      (router : Router (Service api.Headers md.Metadata W))
      → service.methods ≡ methods_of templates
      → service.package_name ≡ package_name
      → SpellsAll templates
      → register api md runtime In Out methods
          (generate_service naming service options).registrations
          router
        ≡ route_all (endpoints_of templates) router
  unfolding generate_service
  register-generate_service service templates router e p h =
      rw (e, p) (register-route_all templates h router)

  -- A router that the generated registration of a service fills answers a request with the first of
  -- its methods' bindings, in order, that has the method of the request and whose template accepts the
  -- path by the specification, with the variables that the specification gives; and with none if there
  -- is none: where the templates of the bindings are texts of templates of google.api.http, with `**`
  -- at the end only, whose indices fit an `i32`, and a binding has one parameter per variable.
  pub register-FirstAccepting_iff :
      (service : ServiceDefinition) (templates : List (MethodDefinition × List Template))
      (method path : Str) (m : Match (Service api.Headers md.Metadata W))
      → service.methods ≡ methods_of templates
      → service.package_name ≡ package_name
      → SpellsAll templates
      → (match_request
            (register api md runtime In Out methods
              (generate_service naming service options).registrations
              new)
            method
            path
          ≡ some m)
        ↔ FirstAccepting method path (endpoints_of templates) m
  register-FirstAccepting_iff service templates method path m e p h =
      rw (register-generate_service service templates new e p h) (
        route_all-FirstAccepting_iff (endpoints_of templates) method path m
          (endpoints_of-IsProper templates h))
