-- ===== src/Bindings/Processing.antt =====
-- What the definitions of a file describe.
use grpc_gateway_rust.Prelude.{
  ℕ, ◌+◌, ◌≡◌, refl, Option-cases, inl, inr, none, some, List, [], ◌∷◌, ◌++◌, Str, as_i32, done,
}
use grpc_gateway_rust.Bindings.Descriptors.{
  HttpRule, MethodDescriptorProto, ServiceDescriptorProto, FileDescriptorProto,
}
use grpc_gateway_rust.Bindings.Registry.{
  CommentMap, SymbolRegistry, process_source_info, locations_of, or_default, comments_at,
}
use grpc_gateway_rust.Bindings.{extract_bindings}
use grpc_gateway_rust.Bindings.Services.{
  MethodDefinition, ServiceDefinition, rule_of, or_false, definition_of, process_service,
  process_method, process_methods, process_services, process_file,
}

-- A definition describes a method with a rule.
pub record DescribesMethod (registry : SymbolRegistry) (m : MethodDescriptorProto) (r : HttpRule)
    (d : MethodDefinition) : Type 0 where
  pub name : d.name ≡ or_default m.name
  pub input_type : d.input_type ≡ or_default m.input_type
  pub output_type : d.output_type ≡ or_default m.output_type
  pub server_streaming : d.server_streaming ≡ or_false m.server_streaming
  pub bindings : d.bindings ≡ extract_bindings registry (or_default m.input_type) r

-- Definitions describe the methods that have a rule, in order.
pub data DescribesMethods (registry : SymbolRegistry)
    : List MethodDescriptorProto → List MethodDefinition → Type 0 where
  no_method : DescribesMethods registry [] []
  skipped :
      {m : MethodDescriptorProto} {ms : List MethodDescriptorProto} {ds : List MethodDefinition}
      → rule_of m ≡ none
      → DescribesMethods registry ms ds
      → DescribesMethods registry (m ∷ ms) ds
  described :
      {m : MethodDescriptorProto} {ms : List MethodDescriptorProto} {r : HttpRule}
      {d : MethodDefinition} {ds : List MethodDefinition}
      → rule_of m ≡ some r
      → DescribesMethod registry m r d
      → DescribesMethods registry ms ds
      → DescribesMethods registry (m ∷ ms) (d ∷ ds)

-- Definitions describe services, one each, in order.
pub data DescribesServices (registry : SymbolRegistry) (package_name : Str)
    : List ServiceDescriptorProto → List ServiceDefinition → Type 0 where
  no_service : DescribesServices registry package_name [] []
  one_service :
      {s : ServiceDescriptorProto} {ss : List ServiceDescriptorProto} {d : ServiceDefinition}
      {ds : List ServiceDefinition}
      → d.name ≡ or_default s.name
      → d.package_name ≡ package_name
      → DescribesMethods registry s.method d.methods
      → DescribesServices registry package_name ss ds
      → DescribesServices registry package_name (s ∷ ss) (d ∷ ds)

module _ (comments : CommentMap) (filename : Str) (registry : SymbolRegistry) where
  process_methods_lem :
      (path : List ℕ) (i : ℕ) (service_name : Str) (ms : List MethodDescriptorProto)
      → (ds : List MethodDefinition) × (process_methods comments filename registry path i
            service_name ms
          ≡ done ds)
        × DescribesMethods registry ms ds
  unfolding process_methods process_method
  process_methods_lem path i service_name [] = ([], refl, no_method)
  process_methods_lem path i service_name (m ∷ ms) =
      let (ds, e, h) = process_methods_lem path (i + 1) service_name ms in
      elim (Option-cases (rule_of m)) [
        | inl missing ↦ (ds, rw (missing, process_methods, process_method) e, skipped missing h)
        | inr (r, found) ↦
            let d =
              definition_of comments filename registry m (path ++ (2 ∷ as_i32 i ∷ [])) service_name
                r in
            (
              d ∷ ds,
              rw (found, process_methods, process_method, e) refl,
              described {d = d} found
                  (record {
                    name = refl;
                    input_type = refl;
                    output_type = refl;
                    server_streaming = refl;
                    bindings = refl;
                  })
                  h,
            )
      ]

  process_services_lem :
      (package_name : Str) (i : ℕ) (ss : List ServiceDescriptorProto)
      → (ds : List ServiceDefinition) × (process_services comments filename registry package_name i
            ss
          ≡ done ds)
        × DescribesServices registry package_name ss ds
  unfolding process_services process_service
  process_services_lem package_name i [] = ([], refl, no_service)
  process_services_lem package_name i (s ∷ ss) =
      let (ms, e, h) = process_methods_lem (6 ∷ as_i32 i ∷ []) 0 (or_default s.name) s.method in
      let (ds, f, k) = process_services_lem package_name (i + 1) ss in
      let d : ServiceDefinition = record {
        name = or_default s.name;
        package_name = package_name;
        docs = comments_at comments (6 ∷ as_i32 i ∷ []);
        proto_file = filename;
        methods = ms;
      } in
      (d ∷ ds, rw (process_service, e, f), one_service {d = d} refl refl h k)

-- Processing a file never fails. It makes one definition per service, in order, with the package of
-- the file, and in it one per method that has an HTTP rule, in order, with the bindings of the rule.
pub process_file-DescribesServices :
    (file : FileDescriptorProto) (registry : SymbolRegistry)
    → (ds : List ServiceDefinition) × (process_file file registry ≡ done ds)
      × DescribesServices registry (or_default file.package_name) file.service ds
unfolding process_file
process_file-DescribesServices file registry =
    process_services_lem (process_source_info (locations_of file.source_code_info) [])
      (or_default file.name) registry (or_default file.package_name) 0 file.service
