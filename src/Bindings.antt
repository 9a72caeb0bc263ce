-- ===== src/Bindings.antt =====
-- gateway-internal/src (method_binding.rs, body_mapping.rs, query_parameter.rs) and
-- gateway-codegen/src/descriptor_processor.rs: from the descriptors of messages and the HTTP rules of
-- methods to the bindings that the generator emits.
pub mod Descriptors
pub mod Registry
pub mod Services
pub mod Processing
pub mod Laws
pub mod Declared
pub mod Examples
use grpc_gateway_rust.Prelude.{
  ℕ, ◌+◌, ◌==◌, Bool, true, false, ◌||◌, Option, none, some, List, [], ◌∷◌, ◌++◌, map, Str, Map,
  lit, str_eq, is_empty, starts_with, if◌then◌else◌,
}
use grpc_gateway_rust.Template.{PathTemplate, nil}
use grpc_gateway_rust.Compiler.{compile}
use grpc_gateway_rust.Bindings.Descriptors.{
  RulePattern, get, put, post, delete, patch, custom, HttpRule, rule, HttpRules, no_rules,
  more_rules,
}
use grpc_gateway_rust.Bindings.Registry.{SymbolRegistry, FieldDocs, resolve_field}

pub record BodyMapping : Type 0 where
  pub field_path : Option Str

abbrev pub is_whole_message : BodyMapping → Bool
is_whole_message mapping = elim mapping.field_path [
  | none ↦ true
  | some path ↦ str_eq path (lit "*") || is_empty path
]

pub record QueryParamFilter : Type 0 where
  pub field_paths : List Str

pub record QueryParameter : Type 0 where
  pub key : Str
  pub field_path : List Str

pub record Parameter : Type 0 where
  pub field_path : Str
  pub target_type : Str
  pub is_repeated : Bool
  pub field_type : Option ℕ

pub record MethodBinding : Type 0 where
  pub http_method : Str
  pub path_tmpl : PathTemplate
  pub index : ℕ
  pub path_params : List Parameter
  pub body : Option BodyMapping
  pub response_body : Option BodyMapping
  pub query_param_filter : Option QueryParamFilter

-- The method and the template of a pattern.
abbrev pub method_and_template : RulePattern → Str × Str
method_and_template (get path) = (lit "GET", path)
method_and_template (put path) = (lit "PUT", path)
method_and_template (post path) = (lit "POST", path)
method_and_template (delete path) = (lit "DELETE", path)
method_and_template (patch path) = (lit "PATCH", path)
method_and_template (custom kind path) = (kind, path)

-- `field.label == Some(3)`, the label of a repeated field.
abbrev pub is_repeated_label : Option ℕ → Bool
is_repeated_label none = false
is_repeated_label (some label) = label == 3

abbrev pub field_info : Option FieldDocs → Bool × Option ℕ
field_info none = (false, none)
field_info (some field) = (is_repeated_label field.label, field.field_type)

module _ (registry : SymbolRegistry) (input_type : Str) where
  -- The field of a variable; a type without its leading dot is tried with one.
  unfoldable pub variable_info : Str → Bool × Option ℕ
  variable_info v = elim (resolve_field registry input_type v) [
    | some field ↦ field_info (some field)
    | none ↦
        if starts_with input_type (lit ".")
        then (false, none)
        else field_info (resolve_field registry (b'.' ∷ input_type) v)
  ]

  abbrev pub parameter : Str → Parameter
  parameter v = record {
    field_path = v;
    target_type = lit "TYPE_STRING";
    is_repeated = (variable_info v).0;
    field_type = (variable_info v).1;
  }

  abbrev pub body_mapping : Str → Option BodyMapping
  body_mapping body = if is_empty body then none else some (record { field_path = some body })

  unfoldable pub convert_rule_to_binding : HttpRule → ℕ → Option MethodBinding
  convert_rule_to_binding (rule none body response_body additional) index = none
  convert_rule_to_binding (rule (some pattern) body response_body additional) index =
      let method = (method_and_template pattern).0 in
      let template = (method_and_template pattern).1 in
      some (record {
        http_method = method;
        path_tmpl = record { segments = nil; verb = (compile template).verb; template = template };
        index = index;
        path_params = map parameter (compile template).vars;
        body = body_mapping body;
        response_body = body_mapping response_body;
        query_param_filter = none;
      })

  abbrev pub push_binding : Option MethodBinding → List MethodBinding → List MethodBinding
  push_binding none bindings = bindings
  push_binding (some b) bindings = b ∷ bindings

  -- The loop over the additional bindings, from position `i` of the list.
  unfoldable pub additional_bindings : HttpRules → ℕ → List MethodBinding
  additional_bindings no_rules i = []
  additional_bindings (more_rules r rs) i =
      push_binding (convert_rule_to_binding r (i + 1)) (additional_bindings rs (i + 1))

  abbrev pub rules_of : HttpRule → HttpRules
  rules_of (rule pattern body response_body additional) = additional

  unfoldable pub extract_bindings : HttpRule → List MethodBinding
  unfolding convert_rule_to_binding additional_bindings
  extract_bindings r =
      push_binding (convert_rule_to_binding r 0) (additional_bindings (rules_of r) 0)
