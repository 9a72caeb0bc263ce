-- ===== src/Generator/Plugin.antt =====
-- gateway-codegen/src/main.rs: the parameters of the plugin, and the files by name.
use grpc_gateway_rust.Prelude.{
  Bool, true, false, ◌||◌, Option, none, some, List, [], ◌∷◌, Str, Map, lit, insert, split,
  split_once, str_eq, starts_with, drop, length, trim, if◌then◌else◌,
}
use grpc_gateway_rust.Bindings.Descriptors.{FileDescriptorProto}
use grpc_gateway_rust.Generator.Files.{GrpcGatewayGenerator, new_generator}

pub record PluginParams : Type 0 where
  pub source_relative : Bool
  pub no_include : Bool
  pub extern_paths : Map Str

abbrev pub default_params : PluginParams
default_params = record { source_relative = true; no_include = false; extern_paths = [] }

-- `p.strip_prefix("extern_path=")`, and then the pair at the first `=`.
unfoldable pub extern_pair : Str → Option (Str × Str)
extern_pair p =
    if starts_with p (lit "extern_path=")
    then split_once b'=' (drop (length (lit "extern_path=")) p)
    else none

abbrev pub insert_pair : Option (Str × Str) → PluginParams → PluginParams
insert_pair none params = params
insert_pair (some (proto_path, rust_path)) params = record params {
  extern_paths = insert proto_path rust_path params.extern_paths;
}

-- One parameter; what is none of these is left out.
unfoldable pub read_param : Str → PluginParams → PluginParams
unfolding extern_pair
read_param p params =
    if str_eq p (lit "paths=source_relative")
    then record params { source_relative = true }
    else if str_eq p (lit "paths=import")
    then record params { source_relative = false }
    else if str_eq p (lit "no_include") || str_eq p (lit "no_include=true")
    then record params { no_include = true }
    else insert_pair (extern_pair p) params

unfoldable pub read_params : List Str → PluginParams → PluginParams
unfolding read_param
read_params [] params = params
read_params (param ∷ rest) params = read_params rest (read_param (trim param) params)

unfoldable pub plugin_params : Option Str → PluginParams
unfolding read_params
plugin_params none = default_params
plugin_params (some text) = read_params (split b',' text) default_params

-- The loop over the files of the request; a file without a name is left out.
unfoldable pub file_map_of :
    List FileDescriptorProto → Map FileDescriptorProto → Map FileDescriptorProto
file_map_of [] found = found
file_map_of (file ∷ rest) found = elim file.name [
  | none ↦ file_map_of rest found
  | some name ↦ file_map_of rest (insert name file found)
]

abbrev pub plugin_generator : Option Str → List FileDescriptorProto → GrpcGatewayGenerator
plugin_generator parameter proto_file =
    let params = plugin_params parameter in
    record (new_generator (file_map_of proto_file []) params.extern_paths) {
      source_relative = params.source_relative;
      no_include = params.no_include;
    }
