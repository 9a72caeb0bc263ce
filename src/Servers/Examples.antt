-- ===== src/Servers/Examples.antt =====
-- The example gateways at the library service, and at a service that sets two cookies.
use grpc_gateway_rust.Prelude.{
  ℕ, ◌≡◌, ◌≤◌, refl, Bool-cases, inl, inr, Bool, false, Option, none, some, List, [], ◌∷◌, Str, lit,
  Map, str_eq, lookup, insert, rfind, strip_prefix, split, byte_count, starts_with, ends_with, find,
  length, if◌then◌else◌, arith,
}
use grpc_gateway_rust.Http.{MetadataEntry, values_of}
use grpc_gateway_rust.Http.Concrete.{list_headers, list_metadata}
use grpc_gateway_rust.Http.Message.{Request, Response, Body, Service, success, no_extensions}
use grpc_gateway_rust.Http.LastValue.{last_or}
use grpc_gateway_rust.Compiler.{compile}
use grpc_gateway_rust.Pattern.{route_matcher, step}
use grpc_gateway_rust.Router.{Router, new, no_metadata, route, match_request}
use grpc_gateway_rust.Router.Mapping.{map_router}
use grpc_gateway_rust.Layers.Examples.{Headers, full}
use grpc_gateway_rust.Utilities.Sharing.{new_sync}
use grpc_gateway_rust.Generator.Routing.{no_binding, spelled, nothing_spelled, method_spelled}
use grpc_gateway_rust.Generator.Service.{generate_service}
use grpc_gateway_rust.Generator.Examples.{
  naming, options, library_service, runtime, refusing, templates, read_request, read-IsProper,
}
use grpc_gateway_rust.Servers.{register_shared, serve}
use grpc_gateway_rust.Servers.Answers.{Replied, serve-Replied}
use grpc_gateway_rust.Servers.Several.{Chosen, register_services, services_of, serve-Chosen}
use grpc_gateway_rust.Grammar.{Template}
use grpc_gateway_rust.Bindings.Services.{MethodDefinition, ServiceDefinition}
use grpc_gateway_rust.Servers.Actix.{
  ActixRequest, HttpResponse, Bridge, bridge_request, copy_request_headers, gateway_handler,
}
use grpc_gateway_rust.Servers.Copies.{IsIntoIter, named_values, Bridged, gateway_handler-Bridged}

serve-Replied_example :
    Replied list_headers list_metadata runtime
      (λ c. Str)
      (λ c. Str)
      refusing
      naming
      options
      full
      (λ s. some s)
      (lit "lib")
      templates
      read_request
      0
      (some [])
      (serve list_headers full
        (register_shared list_headers list_metadata runtime
          (λ c. Str)
          (λ c. Str)
          refusing
          (generate_service naming library_service options).registrations
          new)
        read_request
        (some [])
        0)
serve-Replied_example =
    serve-Replied list_headers list_metadata runtime (λ c. Str) (λ c. Str) refusing naming options
      full (λ s. some s) library_service templates read_request (some []) 0 refl
      (method_spelled (spelled refl refl read-IsProper no_binding) nothing_spelled)

-- The library and an archive with the same templates in one router.
abbrev deployed : List (ServiceDefinition × List (MethodDefinition × List Template))
deployed =
    (library_service, templates) ∷ (record library_service { name = lit "Archive" }, templates) ∷ []

serve-Chosen_example :
    Chosen list_headers list_metadata runtime naming options
      (λ s c. Str)
      (λ s c. Str)
      (λ s. refusing)
      full
      deployed
      read_request
      []
      0
      (serve list_headers full
        (register_services list_headers list_metadata runtime naming options
          (λ s c. Str)
          (λ s c. Str)
          (λ s. refusing)
          (services_of deployed)
          new)
        read_request
        (some [])
        0)
serve-Chosen_example =
    serve-Chosen list_headers list_metadata runtime naming options (λ s c. Str) (λ s c. Str)
      (λ s. refusing) full deployed read_request [] 0
      (
        (refl, method_spelled (spelled refl refl read-IsProper no_binding) nothing_spelled),
        ((refl, method_spelled (spelled refl refl read-IsProper no_binding) nothing_spelled), tt),
      )

-- The names of a list of headers, each once if its values stand together.
abbrev same_name : Option Str → Str → Bool
same_name none k = false
same_name (some j) k = str_eq j k

abbrev marked : Option Str → List (Str × Str) → List (Option Str × Str)
marked before [] = []
marked before ((k, v) ∷ es) =
    ((if same_name before k then none else some k), v) ∷ marked (some k) es

abbrev collected : Body → Option Str
collected body = some []

abbrev bridge : Bridge Headers
bridge = record {
  to_method = λ s. some s;
  to_uri = λ s. some (s, none);
  to_name = λ s. some s;
  to_value = λ s. some s;
  to_status = λ c. some c;
  into_iter = marked none;
  collect = collected;
  debug = λ e. [];
}

abbrev cookies : Response Headers
cookies = record {
  status = 200;
  headers = (lit "set-cookie", lit "a=1") ∷ (lit "set-cookie", lit "b=2") ∷ [];
  body = [];
}

abbrev sets_cookies : Service Headers (List MetadataEntry) ℕ
sets_cookies req calls = (success cookies, calls)

abbrev cookie_router : Router (Service Headers (List MetadataEntry) ℕ)
cookie_router = route new (lit "GET") (compile (lit "/v1/{name}")) sets_cookies

abbrev actix_request : ActixRequest
actix_request = record {
  method = lit "GET";
  uri = lit "/v1/x";
  path = lit "/v1/x";
  headers = (lit "accept", lit "a") ∷ (lit "accept", lit "b") ∷ [];
  body = [];
}

abbrev sent : Request Headers (List MetadataEntry)
sent = record {
  method = lit "GET";
  path = lit "/v1/x";
  query = none;
  version = 11;
  headers = (lit "accept", lit "b") ∷ [];
  extensions = no_extensions;
  body = [];
}

abbrev vars : Map Str
vars = (lit "name", lit "x") ∷ []

cookies-IsIntoIter : IsIntoIter list_headers bridge cookies.headers
unfolding str_eq
cookies-IsIntoIter = record { renamed_values = λ k. refl; once = λ k. once_only k }
  where
    once_only : (k : Str) → length (named_values k (marked none cookies.headers)) ≤ 1
    once_only k = elim (Bool-cases (str_eq (lit "set-cookie") k)) [
      | inl same ↦ rw same (omega arith)
      | inr other ↦ rw other (omega arith)
    ]

cookie_match :
    match_request cookie_router (lit "GET") (lit "/v1/x") ≡ some (sets_cookies, vars, no_metadata)
unfolding match_request route compile lookup insert str_eq route_matcher rfind strip_prefix split
    byte_count starts_with ends_with find step
cookie_match = refl

gateway_handler-Bridged_example :
    ((k : Str) → values_of k sent.headers ≡ last_or [] (values_of k actix_request.headers))
    × ((out : HttpResponse Headers) × (gateway_handler list_headers list_headers bridge
            (map_router new_sync cookie_router)
            actix_request
            0
          ≡ (some out, 0))
        × Bridged list_headers list_headers bridge cookies out)
unfolding bridge_request copy_request_headers str_eq
gateway_handler-Bridged_example =
    gateway_handler-Bridged list_headers list_headers bridge
      (record { names = λ k. refl; values = λ v. refl }) cookie_router actix_request 0 sent
      sets_cookies vars no_metadata cookies 0 200 [] refl cookie_match refl cookies-IsIntoIter refl
      refl
