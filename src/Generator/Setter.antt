-- ===== src/Generator/Setter.antt =====
-- gateway-codegen/src/generator.rs: the statement that sets a field of a message from a variable of the
-- path. `to_snake_case` is that of the crate heck.
use grpc_gateway_rust.Prelude.{
  ℕ, Bool, true, false, Option, none, some, List, [], ◌∷◌, ◌++◌, Str, split, if◌then◌else◌, ◌==◌,
}
use grpc_gateway_rust.Generator.{Ident, safe_ident}

-- The right-hand side: `val.as_bytes().to_vec()` or `val.parse().unwrap_or_default()`.
pub data Value : Type 0 where
  as_bytes parsed : Value

-- `proto_req.a.get_or_insert_with(..).field.push(value);` or, in place of the call, an assignment: the
-- fields before the last one, which are messages, the last one, and the value.
pub data Statement : Type 0 where
  push assign : List Ident → Ident → Value → Statement
  no_statement : Statement

abbrev pub is_bytes_type : Option ℕ → Bool
is_bytes_type none = false
is_bytes_type (some t) = t == 12

abbrev pub value_of : Option ℕ → Value
value_of field_type = if is_bytes_type field_type then as_bytes else parsed

abbrev pub statement : Bool → Option ℕ → List Ident → Ident → Statement
statement true field_type access field = push access field (value_of field_type)
statement false field_type access field = assign access field (value_of field_type)

module _ (to_snake_case : Str → Str) (is_repeated : Bool) (field_type : Option ℕ) where
  -- The loop over the parts of a path.
  unfoldable pub access_loop : List Ident → List Str → Statement
  unfolding safe_ident
  access_loop access [] = no_statement
  access_loop access (part ∷ []) =
      statement is_repeated field_type access (safe_ident (to_snake_case part))
  access_loop access (part ∷ next ∷ rest) =
      access_loop (access ++ (safe_ident (to_snake_case part) ∷ [])) (next ∷ rest)

  unfoldable pub setter_of_parts : List Str → Statement
  unfolding safe_ident access_loop
  setter_of_parts [] = access_loop [] []
  setter_of_parts (part ∷ []) =
      statement is_repeated field_type [] (safe_ident (to_snake_case part))
  setter_of_parts (part ∷ next ∷ rest) = access_loop [] (part ∷ next ∷ rest)

unfoldable pub generate_setter : (Str → Str) → Str → Bool → Option ℕ → Statement
unfolding setter_of_parts
generate_setter to_snake_case field_path is_repeated field_type =
    setter_of_parts to_snake_case is_repeated field_type (split b'.' field_path)
