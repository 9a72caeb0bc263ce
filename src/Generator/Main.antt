-- ===== src/Generator/Main.antt =====
-- gateway-codegen/src/main.rs, `main`: from the bytes of the standard input to those of the standard
-- output.
use grpc_gateway_rust.Prelude.{
  ℕ, Bool, not, Option, none, some, List, Str, Attempt, done, stopped, ◌>>=!◌,
}
use grpc_gateway_rust.Bindings.Descriptors.{FileDescriptorProto}
use grpc_gateway_rust.Generator.Service.{Naming}
use grpc_gateway_rust.Generator.Files.{File, ModuleRequest, ServiceModule, generate}
use grpc_gateway_rust.Generator.Plugin.{plugin_params, plugin_generator}

-- The errors that `main` makes of those of other crates, one of the standard streams, and a panic.
pub data Failure : Type 0 where
  invalid_data other stream panic : Str → Failure

-- The two forms of the request: with the descriptors of gateway-annotations, and for protoc-gen-prost.
pub record CustomCodeGeneratorRequest : Type 0 where
  pub parameter : Option Str
  pub proto_file : List FileDescriptorProto

pub record CodeGeneratorResponse : Type 0 where
  pub file : List File
  pub supported_features : Option ℕ

-- What `main` calls: the standard streams, prost, whose lean request is a `Lean`, and
-- `ModuleRequestSet::new` of that request, the bytes, and `!source_relative`.
pub record PluginApi (Lean : Type 0) : Type 0 where
  pub stdin : Attempt Str Str
  pub decode_custom : Str → Attempt Str CustomCodeGeneratorRequest
  pub decode_lean : Str → Attempt Str Lean
  pub module_requests : Lean → Str → Bool → Attempt Str (List ModuleRequest)
  pub encode : CodeGeneratorResponse → Attempt Str Str
  pub write_all : Str → Option Str

-- `map_err`
abbrev pub or_fail : {A : Type 0} → (Str → Failure) → Attempt Str A → Attempt Failure A
or_fail kind (done a) = done a
or_fail kind (stopped e) = stopped (kind e)

-- What was write_output, or the error on the way.
abbrev pub write_output : Str → Option Str → Attempt Failure Str
write_output out none = done out
write_output out (some e) = stopped (stream e)

abbrev pub response_of : List File → CodeGeneratorResponse
response_of files = record { file = files; supported_features = some 1 }

-- `unparse` and `version` as in the generator, whose only failure is a panic.
unfoldable pub main :
    {Lean : Type 0}
    → Naming
    → (List ServiceModule → Attempt Str Str)
    → Str
    → PluginApi Lean
    → Attempt Failure Str
unfolding generate plugin_params
main naming unparse version api = or_fail stream api.stdin >>=! λ buf.
    or_fail invalid_data (api.decode_custom buf) >>=! λ rich.
    or_fail invalid_data (api.decode_lean buf) >>=! λ request.
    or_fail invalid_data
      (api.module_requests request buf (not (plugin_params rich.parameter).source_relative))
    >>=! λ requests.
        or_fail panic (
          generate naming unparse version (plugin_generator rich.parameter rich.proto_file)
            requests)
        >>=! λ files. or_fail invalid_data (api.encode (response_of files)) >>=! λ out_buf.
            write_output out_buf (api.write_all out_buf)
