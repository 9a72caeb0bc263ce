-- ===== src/Validator/Examples.antt =====
-- The theorem on the validator at a request for a package of one file.
use grpc_gateway_rust.Prelude.{◌≡◌, ◌↔◌, none, some, [], ◌∷◌, Str, List, All, lit, done, Attempt}
use grpc_gateway_rust.Bindings.Examples.{library}
use grpc_gateway_rust.Generator.Files.{
  ModuleRequest, GrpcGatewayGenerator, ServiceModule, new_generator, generate,
}
use grpc_gateway_rust.Generator.Examples.{naming}
use grpc_gateway_rust.Validator.Laws.{IsSilent, generate-classify_iff}

abbrev unparse : List ServiceModule → Attempt Str Str
unparse modules = done (lit "..")

abbrev generator : GrpcGatewayGenerator
generator = new_generator ((lit "lib.proto", library) ∷ []) []

abbrev request : ModuleRequest
request = record {
  proto_package_name = lit "lib";
  files = some (lit "lib.proto") ∷ [];
  output_dir = lit "lib/";
  append_to_file = λ text. none;
}

generate-classify_iff_example :
    (generate naming unparse (lit "0.1.1") generator (request ∷ []) ≡ done [])
    ↔ All (IsSilent naming unparse (lit "0.1.1") generator) request.files
generate-classify_iff_example = generate-classify_iff naming unparse (lit "0.1.1") generator request
