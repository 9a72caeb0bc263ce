-- ===== src/Bindings/Laws.antt =====
-- The bindings of a rule, and the fields that a path reaches.
use grpc_gateway_rust.Prelude.{
  ℕ, ◌≡◌, refl, ap, ◌∙◌, ◌↔◌, Option-cases, inl, inr, some, List, [], ◌∷◌, map, Str, lookup, split,
}
use grpc_gateway_rust.Grammar.{Template}
use grpc_gateway_rust.Grammar.Print.{print, IsPrintable}
use grpc_gateway_rust.Compiler.{compile}
use grpc_gateway_rust.Compiler.Emit.{vars_of}
use grpc_gateway_rust.Matching.Compiling.{compile-print}
use grpc_gateway_rust.Bindings.Descriptors.{RulePattern, rule, HttpRules}
use grpc_gateway_rust.Bindings.Registry.{
  SymbolRegistry, MessageDocs, FieldDocs, resolve_parts, resolve_field,
}
use grpc_gateway_rust.Bindings.{
  MethodBinding, Parameter, method_and_template, parameter, convert_rule_to_binding,
}

-- `f` is the field that the parts of a path reach from a message type: all but the last part name
-- fields whose type is a message of the registry.
pub data Reaches (registry : SymbolRegistry) : Str → List Str → FieldDocs → Type 0 where
  field_of :
      {t p : Str} {msg : MessageDocs} {f : FieldDocs}
      → lookup t registry.messages ≡ some msg
      → lookup p msg.fields ≡ some f
      → Reaches registry t (p ∷ []) f
  through :
      {t p q u : Str} {ps : List Str} {msg : MessageDocs} {g f : FieldDocs}
      → lookup t registry.messages ≡ some msg
      → lookup p msg.fields ≡ some g
      → g.type_name ≡ some u
      → Reaches registry u (q ∷ ps) f
      → Reaches registry t (p ∷ q ∷ ps) f

module _ (registry : SymbolRegistry) where
  resolve_parts_sound :
      (t : Str) (ps : List Str) (f : FieldDocs)
      → resolve_parts registry t ps ≡ some f
      → Reaches registry t ps f
  unfolding resolve_parts
  resolve_parts_sound t [] f h = absurd (cc h)
  resolve_parts_sound t (p ∷ []) f h = elim (Option-cases (lookup t registry.messages)) [
    | inl missing ↦ absurd (cc (rw (missing, resolve_parts) at h))
    | inr (msg, found) ↦ field_of found (rw (found, resolve_parts) at h)
  ]
  resolve_parts_sound t (p ∷ q ∷ ps) f h = elim (Option-cases (lookup t registry.messages)) [
    | inl missing ↦ absurd (cc (rw (missing, resolve_parts) at h))
    | inr (msg, found) ↦ elim (Option-cases (lookup p msg.fields)) [
      | inl no_field ↦ absurd (cc (rw (found, no_field, resolve_parts) at h))
      | inr (g, field) ↦ elim (Option-cases g.type_name) [
        | inl primitive ↦ absurd (cc (rw (found, field, primitive, resolve_parts) at h))
        | inr (u, typed) ↦
            through found field typed
              (resolve_parts_sound u (q ∷ ps) f (rw (found, field, typed, resolve_parts) at h))
      ]
    ]
  ]

  resolve_parts_complete :
      {t : Str} {ps : List Str} {f : FieldDocs}
      → Reaches registry t ps f
      → resolve_parts registry t ps ≡ some f
  unfolding resolve_parts
  resolve_parts_complete (field_of found field) = rw (found, field, resolve_parts)
  resolve_parts_complete (through found field typed rest) =
      rw (found, field, typed, resolve_parts) (resolve_parts_complete rest)

  -- A dotted path resolves from a message type to a field exactly if it leads there through fields
  -- whose types are messages of the registry.
  pub resolve_field-Reaches_iff :
      (root path : Str) (f : FieldDocs)
      → (resolve_field registry root path ≡ some f) ↔ Reaches registry root (split b'.' path) f
  unfolding resolve_field
  resolve_field-Reaches_iff root path f =
      (resolve_parts_sound root (split b'.' path) f, resolve_parts_complete)

  names-map :
      (input_type : Str) (vs : List Str)
      → map (λ (p : Parameter). p.field_path) (map (parameter registry input_type) vs) ≡ vs
  names-map input_type [] = refl
  names-map input_type (v ∷ vs) = ap (λ rest. v ∷ rest) (names-map input_type vs)

  -- A rule whose template is the text of a template of google.api.http becomes a binding that has
  -- the method, the verb and the text of the template, the index that it was given, and one path
  -- parameter per variable of the template, in order.
  pub convert_rule_to_binding-print :
      (input_type : Str) (pattern : RulePattern) (body response_body : Str) (additional : HttpRules)
      (index : ℕ) (t : Template)
      → (method_and_template pattern).1 ≡ print t
      → IsPrintable t
      → (b : MethodBinding) × (convert_rule_to_binding registry input_type
            (rule (some pattern) body response_body additional)
            index
          ≡ some b)
        × (b.http_method ≡ (method_and_template pattern).0)
        × (b.path_tmpl.verb ≡ t.verb)
        × (b.path_tmpl.template ≡ print t)
        × (b.index ≡ index)
        × (map (λ (p : Parameter). p.field_path) b.path_params ≡ vars_of t.segments)
  unfolding convert_rule_to_binding
  convert_rule_to_binding-print input_type pattern body response_body additional index t text h =
      let same = ap compile text ∙ compile-print t h in
      (
        _,
        refl,
        refl,
        ap (λ p. p.verb) same,
        text,
        refl,
        names-map input_type _ ∙ ap (λ p. p.vars) same,
      )
