-- ===== src/Generator/Examples.antt =====
-- The theorems on the generator at a service with one method and one binding.
use grpc_gateway_rust.Prelude.{
  ℕ, ◌+◌, ◌++◌, ◌≡◌, refl, ◌↔◌, false, none, some, List, [], ◌∷◌, Str, lit, join, split, str_eq,
  starts_with, strip_prefix, rfind, insert, byte_count, ends_with, find, Attempt, done, stopped,
  arith,
}
use grpc_gateway_rust.Http.{MetadataEntry, Status, unavailable}
use grpc_gateway_rust.Http.Concrete.{list_headers, list_metadata}
use grpc_gateway_rust.Http.Message.{Request, Service, no_extensions}
use grpc_gateway_rust.Errors.Handling.{Reporting}
use grpc_gateway_rust.Template.{nil}
use grpc_gateway_rust.Grammar.{Template}
use grpc_gateway_rust.Grammar.Print.{print}
use grpc_gateway_rust.Compiler.{compile}
use grpc_gateway_rust.Pattern.{route_matcher, step}
use grpc_gateway_rust.Router.{new, no_metadata, match_request}
use grpc_gateway_rust.Matching.Examples.{read, read_path, read_vars, read-IsPrintable, read-IsSmall}
use grpc_gateway_rust.Matching.Routing.{Accepts, compile-route_matcher_iff}
use grpc_gateway_rust.Matching.Tables.{IsProper, FirstAccepting}
use grpc_gateway_rust.Layers.Examples.{Headers, a_request, full}
use grpc_gateway_rust.Codec.Examples.{tagged}
use grpc_gateway_rust.Utilities.Examples.{form_api}
use grpc_gateway_rust.Bindings.{MethodBinding}
use grpc_gateway_rust.Bindings.Services.{MethodDefinition, ServiceDefinition}
use grpc_gateway_rust.Generator.{
  plain, Token, word, GeneratorOptions, find_extern, common_prefix_len, resolve_relative_type,
}
use grpc_gateway_rust.Generator.Paths.{Resolves, resolve_relative_type-Resolves}
use grpc_gateway_rust.Generator.Service.{Naming, MethodCode, generate_service}
use grpc_gateway_rust.Generator.Emitted.{Runtime, Method, register}
use grpc_gateway_rust.Generator.Routing.{
  no_binding, spelled, nothing_spelled, method_spelled, service_of, endpoints_of,
  register-FirstAccepting_iff,
}

abbrev one_word : Str → Attempt Str (List Token)
one_word s = done (word (plain s) ∷ [])

abbrev pub options : GeneratorOptions
options = record { source_relative = false; extern_paths = [] }

-- The type .lib.v1.Shelf from a service of the package lib.api.
resolve_relative_type-Resolves_example :
    Resolves
      (lit "lib" ∷ lit "api" ∷ lit "library_gw" ∷ [])
      (resolve_relative_type one_word
        (b'.' ∷ join b'.' (lit "lib" ∷ lit "v1" ∷ lit "Shelf" ∷ []))
        (join b'.' (lit "lib" ∷ lit "api" ∷ []))
        options)
      (lit "lib" ∷ lit "v1" ∷ lit "Shelf" ∷ [])
unfolding find_extern common_prefix_len str_eq
resolve_relative_type-Resolves_example =
    resolve_relative_type-Resolves (λ s. s) (λ s. s) one_word options (lit "lib" ∷ lit "api" ∷ [])
      (lit "lib" ∷ lit "v1" ∷ []) [] (lit "Shelf") (lit "library_gw") (ground arith) (ground arith)
      refl (omega arith) ((refl, refl), ((refl, refl), tt)) (refl, (refl, tt)) (refl, (refl, tt))
      refl

abbrev pub naming : Naming
naming = record { parse_path = one_word; to_snake_case = λ s. s; to_pascal_case = λ s. s }

abbrev pub read_binding : MethodBinding
read_binding = record {
  http_method = lit "GET";
  path_tmpl = record { segments = nil; verb = some (lit "read"); template = print read };
  index = 0;
  path_params =
      record {
        field_path = lit "name";
        target_type = lit "TYPE_STRING";
        is_repeated = false;
        field_type = some 9;
      }
      ∷ [];
  body = none;
  response_body = none;
  query_param_filter = none;
}

abbrev pub read_method : MethodDefinition
read_method = record {
  name = lit "read";
  input_type = lit ".lib.Shelf";
  output_type = lit ".lib.Shelf";
  client_streaming = false;
  server_streaming = false;
  docs = [];
  proto_service = lit "Library";
  proto_file = lit "lib.proto";
  bindings = read_binding ∷ [];
}

abbrev pub library_service : ServiceDefinition
library_service = record {
  name = lit "Library";
  package_name = lit "lib";
  docs = [];
  proto_file = lit "lib.proto";
  methods = read_method ∷ [];
}

abbrev reporting : Reporting
reporting = record {
  display_status = λ s. s.message;
  display_code = λ c. [];
  code_number = λ c. 0;
  to_vec = λ c message details. message;
  full = full;
}

abbrev pub runtime : Runtime (List MetadataEntry)
runtime = record {
  set_timeout = λ n m. m;
  to_value = λ s. some s;
  invalid = [];
  reporting = reporting;
}

abbrev pub down : Status
down = record { code = unavailable; message = lit "down" }

-- The client counts its calls; the service behind it is down.
abbrev pub refusing :
    (code : MethodCode) → Method code.server_streaming Str Str (List MetadataEntry) ℕ
refusing code = record {
  client = λ req calls. (stopped down, calls + 1);
  request_codec = tagged b'j';
  response_codec = tagged b'j';
  bodies = form_api;
  default_request = [];
  set_field = λ setter val msg. msg ++ val;
}

pub read-IsProper : IsProper read
read-IsProper = record { printable = read-IsPrintable; small = read-IsSmall; deep = (tt, (tt, tt)) }

pub read_accepted : Accepts read read_path read_vars
unfolding route_matcher compile step str_eq split join strip_prefix rfind insert byte_count
    starts_with ends_with find
read_accepted =
    (compile-route_matcher_iff read read_path read_vars read-IsPrintable read-IsSmall
        (tt, (tt, tt))).0
      refl

abbrev pub templates : List (MethodDefinition × List Template)
templates = (read_method, read ∷ []) ∷ []

abbrev pub read_code : MethodCode
read_code = record {
  name = plain (lit "read");
  docs = [];
  input_type = [];
  server_streaming = false;
}

abbrev pub read_request : Request Headers (List MetadataEntry)
read_request = record a_request {
  path = read_path;
  extensions = record no_extensions { params = some read_vars };
}

-- The service that is registered for the binding.
abbrev read_service : Service Headers (List MetadataEntry) ℕ
read_service =
    service_of list_headers list_metadata runtime naming options (lit "lib") (λ c. Str) (λ c. Str)
      refusing read_method read_binding

register-FirstAccepting_iff_example :
    (match_request
        (register list_headers list_metadata runtime
          (λ c. Str)
          (λ c. Str)
          refusing
          (generate_service naming library_service options).registrations
          new)
        (lit "GET")
        read_path
      ≡ some (read_service, read_vars, no_metadata))
    ↔ FirstAccepting
        (lit "GET")
        read_path
        (endpoints_of list_headers list_metadata runtime naming options
          (lit "lib")
          (λ c. Str)
          (λ c. Str)
          refusing
          templates)
        (read_service, read_vars, no_metadata)
register-FirstAccepting_iff_example =
    register-FirstAccepting_iff list_headers list_metadata runtime naming options (lit "lib")
      (λ c. Str) (λ c. Str) refusing library_service templates (lit "GET") read_path
      (read_service, read_vars, no_metadata) refl refl
      (method_spelled (spelled refl refl read-IsProper no_binding) nothing_spelled)
