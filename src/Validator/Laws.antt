-- ===== src/Validator/Laws.antt =====
-- The classification of a file, and the services that the generator finds in it.
use mathlib.Core.List.{append-nil}
use grpc_gateway_rust.Prelude.{
  map, any, Bool-cases, Str, Option, some, lookup, All, Attempt, stopped, ◌++◌, ap, ap₂, subst, sym,
  ◌>>=!◌, Option-cases, inl, inr, ◌≡◌, ◌↔◌, refl, false, not, [], ◌∷◌, done, List, is_empty, ◌∙◌,
  arith,
}
use grpc_gateway_rust.Bindings.Descriptors.{FileDescriptorProto, ServiceDescriptorProto}
use grpc_gateway_rust.Bindings.Registry.{SymbolRegistry, or_default}
use grpc_gateway_rust.Bindings.Services.{ServiceDefinition, process_file}
use grpc_gateway_rust.Bindings.Processing.{
  DescribesServices, no_service, one_service, process_file-DescribesServices,
}
use grpc_gateway_rust.Generator.Service.{Naming}
use grpc_gateway_rust.Generator.Files.{
  File, ModuleRequest, GrpcGatewayGenerator, ServiceModule, services_of_file, services_of_files,
  files_of, printed_files, include_file, registry_of, generate, has_refused, service_module,
}
use grpc_gateway_rust.Validator.{classify}

same_emptiness :
    {registry : SymbolRegistry} {p : _} {ss : List ServiceDescriptorProto}
    {ds : List ServiceDefinition}
    → DescribesServices registry p ss ds
    → not (is_empty ss) ≡ not (is_empty ds)
same_emptiness no_service = refl
same_emptiness (one_service n p m rest) = refl

expected_output-is_empty :
    (file : FileDescriptorProto) → (classify file).expected_output ≡ not (is_empty file.service)
unfolding classify
expected_output-is_empty file = ground arith

classify-process_file :
    (file : FileDescriptorProto) (registry : SymbolRegistry)
    → (ds : List ServiceDefinition) × (process_file file registry ≡ done ds)
      × ((classify file).expected_output ≡ not (is_empty ds))
classify-process_file file registry =
    let (ds, e, h) = process_file-DescribesServices file registry in
    (ds, e, expected_output-is_empty file ∙ same_emptiness h)

nothing_left {ℓ} : {A : Type ℓ} (xs ys : List A) → xs ++ ys ≡ [] → (xs ≡ []) × (ys ≡ [])
nothing_left [] ys h = (refl, h)
nothing_left (x ∷ xs) ys h = cc

empty_list {ℓ} : {A : Type ℓ} (xs : List A) → not (is_empty xs) ≡ false → xs ≡ []
empty_list [] h = refl
empty_list (x ∷ xs) h = cc

-- A packaged result.
abbrev written : List File → Attempt Str (List File)
written files = done files

done-inj : (a b : List File) → written a ≡ written b → a ≡ b
done-inj a b e = cc e

written_some : (files : List File) (f : File) → written (files ++ (f ∷ [])) ≡ written [] → ⊥
written_some [] f h = cc h
written_some (g ∷ files) f h = cc h

last_files :
    (a : Attempt Str (List File)) → (a >>=! (λ files. done (files ++ [])) ≡ done []) ↔ (a ≡ done [])
last_files (stopped e) = (λ h. cc h, λ h. cc h)
last_files (done xs) = (
  λ h. ap done (sym (append-nil xs) ∙ done-inj _ _ h),
  λ h. ap done (append-nil xs ∙ done-inj _ _ h),
)

module _ (naming : Naming) (unparse : List ServiceModule → Attempt Str Str) (version : Str)
    (generator : GrpcGatewayGenerator) where
  -- The validator expects no output of the file of a name, if the plugin was given it.
  abbrev pub IsSilent : Option Str → Type 0
  IsSilent name =
      (file : FileDescriptorProto)
      → lookup (or_default name) generator.file_map ≡ some file
      → (classify file).expected_output ≡ false

  services_of_file-IsSilent :
      (name : Option Str)
      → (services_of_file naming unparse version generator name ≡ []) ↔ IsSilent name
  unfolding services_of_file
  services_of_file-IsSilent name =
      elim (Option-cases (lookup (or_default name) generator.file_map)) [
        | inl missing ↦
            rw (missing, services_of_file) (λ e file found. absurd (cc found), λ h. refl)
        | inr (file, found) ↦
            let (ds, e, h) =
              classify-process_file file (registry_of naming unparse version generator) in
            rw (found, services_of_file, e)
              (
                λ nil other same.
                    subst (λ f. (classify f).expected_output ≡ false) (cc same)
                      (h ∙ ap (λ xs. not (is_empty xs)) nil),
                λ silent. empty_list ds (sym h ∙ silent file refl),
              )
      ]

  services_of_files-IsSilent :
      (names : List (Option Str))
      → (services_of_files naming unparse version generator names ≡ []) ↔ All IsSilent names
  unfolding services_of_files
  services_of_files-IsSilent [] = (λ e. tt, λ h. refl)
  services_of_files-IsSilent (name ∷ names) =
      let one = services_of_file-IsSilent name in
      let rest = services_of_files-IsSilent names in
      (
        λ e. let (p, q) = nothing_left _ _ e in (one.0 p, rest.0 q),
        λ h. ap₂ (λ xs ys. xs ++ ys) (one.1 h.0) (rest.1 h.1),
      )

  printed_files-some :
      (request : ModuleRequest) (text : Attempt Str Str)
      → printed_files naming unparse version generator request text ≡ done []
      → ⊥
  printed_files-some request (stopped e) h = cc h
  printed_files-some request (done content) h =
      written_some (include_file naming unparse version generator request) _ h

  files_of-nil :
      (request : ModuleRequest) (services : List ServiceDefinition)
      → (files_of naming unparse version generator request services ≡ done []) ↔ (services ≡ [])
  files_of-nil request [] = (λ e. refl, λ e. refl)
  files_of-nil request (svc ∷ services) =
      let modules = map (service_module naming unparse version generator) (svc ∷ services) in
      (
        λ e. elim (Bool-cases (any (λ m. has_refused m.service_tokens) modules)) [
          | inl panics ↦ absurd (cc (rw panics at e))
          | inr prints ↦ absurd (printed_files-some request _ (rw prints at e))
        ],
        λ e. absurd (cc e),
      )

  -- The plugin answers with no file for a package exactly if the validator expects no output of any
  -- file of the package that the plugin was given.
  pub generate-classify_iff :
      (request : ModuleRequest)
      → (generate naming unparse version generator (request ∷ []) ≡ done [])
        ↔ All IsSilent request.files
  unfolding generate
  generate-classify_iff request =
      let same =
        files_of-nil request (services_of_files naming unparse version generator request.files) in
      let silent = services_of_files-IsSilent request.files in
      let only = last_files (
        files_of naming unparse version generator request
          (services_of_files naming unparse version generator request.files)) in
      (λ e. silent.0 (same.0 (only.0 e)), λ h. only.1 (same.1 (silent.1 h)))
