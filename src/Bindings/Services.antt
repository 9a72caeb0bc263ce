-- ===== src/Bindings/Services.antt =====
-- gateway-codegen/src/descriptor_processor.rs: from the services of a file to the definitions that the
-- generator reads. `Result<_, String>` is an attempt.
use grpc_gateway_rust.Prelude.{
  ℕ, ◌+◌, Bool, false, Option, none, some, List, [], ◌∷◌, ◌++◌, Str, as_i32, Attempt, done, ◌>>=!◌,
  ◌>>=◌,
}
use grpc_gateway_rust.Bindings.Descriptors.{
  HttpRule, MethodDescriptorProto, ServiceDescriptorProto, FileDescriptorProto, get_http_rule,
}
use grpc_gateway_rust.Bindings.Registry.{
  CommentMap, SymbolRegistry, comments_at, process_source_info, locations_of, or_default,
}
use grpc_gateway_rust.Bindings.{MethodBinding, extract_bindings}

pub record MethodDefinition : Type 0 where
  pub name : Str
  pub input_type : Str
  pub output_type : Str
  pub client_streaming : Bool
  pub server_streaming : Bool
  pub docs : List Str
  pub proto_service : Str
  pub proto_file : Str
  pub bindings : List MethodBinding

pub record ServiceDefinition : Type 0 where
  pub name : Str
  pub package_name : Str
  pub docs : List Str
  pub proto_file : Str
  pub methods : List MethodDefinition

-- `unwrap_or(false)`
abbrev pub or_false : Option Bool → Bool
or_false none = false
or_false (some b) = b

abbrev pub rule_of : MethodDescriptorProto → Option HttpRule
rule_of method = method.options >>= get_http_rule

module _ (comments : CommentMap) (filename : Str) (registry : SymbolRegistry) where
  abbrev pub definition_of : MethodDescriptorProto → List ℕ → Str → HttpRule → MethodDefinition
  definition_of method path service_name http_rule =
      let input_type = or_default method.input_type in
      record {
        name = or_default method.name;
        input_type = input_type;
        output_type = or_default method.output_type;
        client_streaming = or_false method.client_streaming;
        server_streaming = or_false method.server_streaming;
        docs = comments_at comments path;
        proto_service = service_name;
        proto_file = filename;
        bindings = extract_bindings registry input_type http_rule;
      }

  unfoldable pub process_method :
      MethodDescriptorProto → List ℕ → Str → Option (Attempt Str MethodDefinition)
  unfolding comments_at extract_bindings
  process_method method path service_name = elim (rule_of method) [
    | none ↦ none
    | some http_rule ↦ some (done (definition_of method path service_name http_rule))
  ]

  -- A method without a rule is left out, and an error ends the loop.
  abbrev pub push_method :
      Option (Attempt Str MethodDefinition)
      → Attempt Str (List MethodDefinition)
      → Attempt Str (List MethodDefinition)
  push_method none rest = rest
  push_method (some result) rest = result >>=! (λ m. rest >>=! (λ ms. done (m ∷ ms)))

  -- The loop over the methods of a service, from method `i`.
  unfoldable pub process_methods :
      List ℕ → ℕ → Str → List MethodDescriptorProto → Attempt Str (List MethodDefinition)
  unfolding process_method
  process_methods path i service_name [] = done []
  process_methods path i service_name (method ∷ rest) =
      push_method (process_method method (path ++ (2 ∷ as_i32 i ∷ [])) service_name)
        (process_methods path (i + 1) service_name rest)

  unfoldable pub process_service :
      ServiceDescriptorProto → Str → List ℕ → Attempt Str ServiceDefinition
  unfolding process_methods
  process_service service package_name path =
      process_methods path 0 (or_default service.name) service.method >>=! (λ methods.
        done (record {
          name = or_default service.name;
          package_name = package_name;
          docs = comments_at comments path;
          proto_file = filename;
          methods = methods;
        }))

  -- The loop over the services of a file, from service `i`.
  unfoldable pub process_services :
      Str → ℕ → List ServiceDescriptorProto → Attempt Str (List ServiceDefinition)
  unfolding process_service
  process_services package_name i [] = done []
  process_services package_name i (service ∷ rest) =
      process_service service package_name (6 ∷ as_i32 i ∷ [])
      >>=! (λ s. process_services package_name (i + 1) rest >>=! (λ ss. done (s ∷ ss)))

unfoldable pub process_file :
    FileDescriptorProto → SymbolRegistry → Attempt Str (List ServiceDefinition)
unfolding process_source_info process_services
process_file file registry =
    process_services (process_source_info (locations_of file.source_code_info) [])
      (or_default file.name) registry (or_default file.package_name) 0 file.service
