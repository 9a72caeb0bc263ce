-- ===== src/Generator/Files.antt =====
-- gateway-codegen/src/generator.rs, `GrpcGatewayGenerator`: the files that the plugin answers with.
use grpc_gateway_rust.Prelude.{
  Bool, true, false, any, ◌||◌, Option, none, some, List, [], ◌∷◌, ◌++◌, map, Str, Map, lit, lookup,
  if◌then◌else◌, Attempt, done, stopped, ◌>>=!◌,
}
use grpc_gateway_rust.Bindings.Descriptors.{FileDescriptorProto}
use grpc_gateway_rust.Bindings.Registry.{SymbolRegistry, new_registry, or_default}
use grpc_gateway_rust.Bindings.Services.{ServiceDefinition, process_file}
use grpc_gateway_rust.Generator.{
  Ident, plain, raw, refused, Token, super_keyword, colons, word, compile_error, GeneratorOptions,
}
use grpc_gateway_rust.Generator.Setter.{Statement, push, assign, no_statement}
use grpc_gateway_rust.Generator.Service.{
  Naming, RegistrationCode, MethodCode, ServiceCode, generate_service,
}

-- `prost_types::compiler::code_generator_response::File`; the code leaves its other fields empty.
pub record File : Type 0 where
  pub name : Option Str
  pub content : Option Str

-- What protoc-gen-prost gives for a package: its name, the names of its files, the directory of its
-- output, and `append_to_file` with the text that is appended.
pub record ModuleRequest : Type 0 where
  pub proto_package_name : Str
  pub files : List (Option Str)
  pub output_dir : Str
  pub append_to_file : Str → Option File

-- `file_map` lists the files in the order in which `values` yields them.
pub record GrpcGatewayGenerator : Type 0 where
  pub no_include : Bool
  pub source_relative : Bool
  pub extern_paths : Map Str
  pub file_map : Map FileDescriptorProto

abbrev pub new_generator : Map FileDescriptorProto → Map Str → GrpcGatewayGenerator
new_generator file_map extern_paths = record {
  no_include = false;
  source_relative = true;
  extern_paths = extern_paths;
  file_map = file_map;
}

-- `pub mod .._gw { .. }`
pub record ServiceModule : Type 0 where
  pub mod_name : Str
  pub service_tokens : ServiceCode

abbrev pub values_in : Map FileDescriptorProto → List FileDescriptorProto
values_in [] = []
values_in ((name, file) ∷ rest) = file ∷ values_in rest

-- `unwrap_or(Vec::new())`, with a message to standard error.
abbrev pub or_no_services : Attempt Str (List ServiceDefinition) → List ServiceDefinition
or_no_services (done services) = services
or_no_services (stopped e) = []

-- An identifier on which proc_macro2 panics, in the code of a service.
abbrev pub is_refused : Ident → Bool
is_refused (plain name) = false
is_refused (raw name) = false
is_refused (refused name) = true

abbrev pub refuses_token : Token → Bool
refuses_token super_keyword = false
refuses_token colons = false
refuses_token (word i) = is_refused i
refuses_token (compile_error text) = false

abbrev pub refuses_statement : Statement → Bool
refuses_statement (push access field value) = any is_refused access || is_refused field
refuses_statement (assign access field value) = any is_refused access || is_refused field
refuses_statement no_statement = false

abbrev pub refuses_registration : RegistrationCode → Bool
refuses_registration registration =
    any refuses_token registration.input_type
    || any (λ p. refuses_statement p.setter) registration.population

abbrev pub refuses_method : MethodCode → Bool
refuses_method method = is_refused method.name || any refuses_token method.input_type

abbrev pub has_refused : ServiceCode → Bool
has_refused code =
    any refuses_method code.methods || any (λ p. refuses_registration p.1) code.registrations

-- `unparse` is `prettyplease::unparse` after `syn::parse2`, of the modules as tokens, and `version` that
-- of the crate. Generated code that does not parse is a panic with the text of the error.
module _ (naming : Naming) (unparse : List ServiceModule → Attempt Str Str) (version : Str)
    (generator : GrpcGatewayGenerator) where
  abbrev pub options_of : GeneratorOptions
  options_of = record {
    source_relative = generator.source_relative;
    extern_paths = generator.extern_paths;
  }

  abbrev pub registry_of : SymbolRegistry
  registry_of = new_registry (values_in generator.file_map)

  unfoldable pub services_of_file : Option Str → List ServiceDefinition
  unfolding process_file
  services_of_file name = elim (lookup (or_default name) generator.file_map) [
    | none ↦ []
    | some file ↦ or_no_services (process_file file registry_of)
  ]

  unfoldable pub services_of_files : List (Option Str) → List ServiceDefinition
  unfolding services_of_file
  services_of_files [] = []
  services_of_files (name ∷ rest) = services_of_file name ++ services_of_files rest

  abbrev pub service_module : ServiceDefinition → ServiceModule
  service_module svc = record {
    mod_name = naming.to_snake_case svc.name ++ lit "_gw";
    service_tokens = generate_service naming svc options_of;
  }

  abbrev pub output_filename : ModuleRequest → Str
  output_filename request = request.proto_package_name ++ lit ".gw.rs"

  abbrev pub include_file : ModuleRequest → List File
  include_file request =
      if generator.no_include
      then []
      else elim (request.append_to_file
          (lit "include!(\"" ++ output_filename request ++ lit "\");\n")) [
            | none ↦ []
            | some f ↦ f ∷ []
          ]

  abbrev pub content_of : Str → Str
  content_of formatted_content =
      lit "// This file is @generated by protoc-gen-grpc-gateway-rust version-"
      ++ version
      ++ lit ".\n\n"
      ++ formatted_content

  -- What is emitted of the text of the modules.
  abbrev pub printed_files : ModuleRequest → Attempt Str Str → Attempt Str (List File)
  printed_files request (stopped e) = stopped (lit "Failed to parse generated code: " ++ e)
  printed_files request (done formatted_content) = done (
      include_file request
      ++ (record {
        name = some (request.output_dir ++ output_filename request);
        content = some (content_of formatted_content);
      }
          ∷ []))

  -- A panic of proc_macro2 comes before the printing; its text is left out.
  abbrev pub files_of : ModuleRequest → List ServiceDefinition → Attempt Str (List File)
  files_of request [] = done []
  files_of request (svc ∷ services) =
      let modules = map service_module (svc ∷ services) in
      let printed = printed_files request (unparse modules) in
      if any (λ m. has_refused m.service_tokens) modules then stopped [] else printed

  -- The requests of the module set, one after the other.
  unfoldable pub generate : List ModuleRequest → Attempt Str (List File)
  unfolding services_of_files generate_service
  generate [] = done []
  generate (request ∷ rest) =
      files_of request (services_of_files request.files)
      >>=! (λ files. generate rest >>=! (λ more. done (files ++ more)))
