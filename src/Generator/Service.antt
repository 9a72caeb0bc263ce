-- ===== src/Generator/Service.antt =====
-- gateway-codegen/src/generator.rs, `generate_service`: what the generator emits for a service. The
-- quoted Rust is the same for every service but for the parts that the records below have.
use grpc_gateway_rust.Prelude.{
  Bool, Option, none, some, List, [], ◌∷◌, ◌++◌, map, Str, lit, is_empty, if◌then◌else◌, Attempt,
}
use grpc_gateway_rust.Template.{Pattern}
use grpc_gateway_rust.Compiler.{compile}
use grpc_gateway_rust.Bindings.{Parameter, BodyMapping, is_whole_message, MethodBinding}
use grpc_gateway_rust.Bindings.Services.{MethodDefinition, ServiceDefinition}
use grpc_gateway_rust.Generator.{
  Ident, plain, Token, super_keyword, colons, word, GeneratorOptions, safe_ident, resolve_type,
  resolve_relative_type,
}
use grpc_gateway_rust.Generator.Setter.{Statement, generate_setter}

-- What the generator calls of syn and heck.
pub record Naming : Type 0 where
  pub parse_path : Str → Attempt Str (List Token)
  pub to_snake_case : Str → Str
  pub to_pascal_case : Str → Str

-- `if let Some(val) = params.get(key) { setter }`
pub record Population : Type 0 where
  pub key : Str
  pub setter : Statement

-- The message of a request: parsed from the body, or the default one.
pub data Unmarshal : Type 0 where
  parses_body default_message : Unmarshal

-- One block of the registration function.
pub record RegistrationCode : Type 0 where
  pub http_method : Str
  pub pattern : Pattern
  pub unmarshal : Unmarshal
  pub population : List Population
  pub input_type : List Token
  pub method_name : Ident

pub record MethodCode : Type 0 where
  pub name : Ident
  pub docs : List Str
  pub input_type : List Token
  pub server_streaming : Bool

pub record ServiceCode : Type 0 where
  pub docs : List Str
  pub struct_name : Str
  pub register_fn_name : Str
  pub client_type : List Token
  pub registrations : List (MethodCode × RegistrationCode)
  pub methods : List MethodCode

abbrev pub unmarshal_of : Option BodyMapping → Unmarshal
unmarshal_of none = default_message
unmarshal_of (some body) = if is_whole_message body then parses_body else default_message

module _ (naming : Naming) where
  abbrev pub population_of : Parameter → Population
  population_of param = record {
    key = param.field_path;
    setter =
        generate_setter naming.to_snake_case param.field_path param.is_repeated param.field_type;
  }

  abbrev pub client_type_of : ServiceDefinition → GeneratorOptions → List Token
  client_type_of service options =
      let client =
        colons
        ∷ word (plain (naming.to_snake_case service.name ++ lit "_client"))
        ∷ colons
        ∷ word (plain (naming.to_pascal_case service.name ++ lit "Client"))
        ∷ [] in
      if options.source_relative
      then super_keyword ∷ client
      else resolve_type naming.parse_path service.package_name ++ client

  abbrev pub docs_of : MethodDefinition → List Str
  docs_of method =
      if is_empty method.docs
      then (lit "This endpoint is generated from "
          ++ method.proto_service
          ++ lit "."
          ++ method.name
          ++ lit " defined in "
          ++ method.proto_file
          ++ lit ".")
        ∷ []
      else method.docs

  module _ (options : GeneratorOptions) (package_name : Str) where
    unfoldable pub method_code : MethodDefinition → MethodCode
    unfolding safe_ident resolve_relative_type
    method_code method = record {
      name = safe_ident (naming.to_snake_case method.name);
      docs = docs_of method;
      input_type = resolve_relative_type naming.parse_path method.input_type package_name options;
      server_streaming = method.server_streaming;
    }

    unfoldable pub registration_code : MethodDefinition → MethodBinding → RegistrationCode
    unfolding compile
    registration_code method binding = record {
      http_method = binding.http_method;
      pattern = compile binding.path_tmpl.template;
      unmarshal = unmarshal_of binding.body;
      population = map population_of binding.path_params;
      input_type = resolve_relative_type naming.parse_path method.input_type package_name options;
      method_name = plain (naming.to_snake_case method.name);
    }

    -- The loop over the bindings of a method; each block calls the code of the method.
    abbrev pub method_registrations :
        MethodDefinition → List MethodBinding → List (MethodCode × RegistrationCode)
    method_registrations method [] = []
    method_registrations method (binding ∷ rest) =
        (method_code method, registration_code method binding) ∷ method_registrations method rest

    abbrev pub registrations_of : List MethodDefinition → List (MethodCode × RegistrationCode)
    registrations_of [] = []
    registrations_of (method ∷ rest) =
        method_registrations method method.bindings ++ registrations_of rest

  unfoldable pub generate_service : ServiceDefinition → GeneratorOptions → ServiceCode
  unfolding method_code registration_code
  generate_service service options = record {
    docs = service.docs;
    struct_name = naming.to_pascal_case service.name ++ lit "Registration";
    register_fn_name = lit "register_" ++ naming.to_snake_case service.name;
    client_type = client_type_of service options;
    registrations = registrations_of options service.package_name service.methods;
    methods = map (method_code options service.package_name) service.methods;
  }
