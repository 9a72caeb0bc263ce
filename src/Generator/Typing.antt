-- ===== src/Generator/Typing.antt =====
-- gateway-codegen/src/generator.rs: the types of the setters, in the structs that prost generates from
-- the messages of the registry.
use grpc_gateway_rust.Prelude.{
  ℕ, ◌≡◌, ◌≢◌, ◌⊎◌, Bool, true, false, ◌||◌, Option, none, some, List, [], ◌∷◌, Str, lit, lookup,
  any, str_eq, ◌==◌, if◌then◌else◌, ◌>>=◌,
}
use grpc_gateway_rust.Bindings.{is_repeated_label}
use grpc_gateway_rust.Bindings.Registry.{SymbolRegistry, FieldDocs}
use grpc_gateway_rust.Generator.{Ident, safe_ident}
use grpc_gateway_rust.Generator.Setter.{
  Value, as_bytes, parsed, Statement, push, assign, no_statement, is_bytes_type,
}

-- A type that `parse` gives (a number, a Boolean, a text, or an enum, which is an `i32`), `Vec<u8>`, or
-- the struct of a message.
pub data Element : Type 0 where
  scalar bytes : Element
  struct : Str → Element

pub data RustType : Type 0 where
  bare option vec : Element → RustType

-- How a field that is not repeated is declared: plainly, as `optional`, or inside a `oneof`.
pub data Presence : Type 0 where
  implicit explicit in_oneof : Presence

-- Types 10 and 11 are groups and messages.
abbrev pub is_message_type : Option ℕ → Bool
is_message_type none = false
is_message_type (some t) = t == 10 || t == 11

-- The message type of a field, if it has one.
abbrev pub message_type_of : FieldDocs → Option Str
message_type_of f = if is_message_type f.field_type then f.type_name else none

abbrev pub element : Option Str → Bool → Element
element (some u) is_bytes = struct u
element none true = bytes
element none false = scalar

abbrev pub element_of : FieldDocs → Element
element_of f = element (message_type_of f) (is_bytes_type f.field_type)

-- A message that is not repeated is an `Option`, whatever its presence.
abbrev pub singular : Presence → Element → Option RustType
singular in_oneof e = none
singular implicit (struct u) = some (option (struct u))
singular implicit bytes = some (bare bytes)
singular implicit scalar = some (bare scalar)
singular explicit e = some (option e)

-- The type that prost gives the struct field of a proto3 field; for a member of a `oneof` there is no
-- struct field. A field with the label repeated may be a map; its type is then read as a `Vec` of entries,
-- which no setter fits either.
abbrev pub prost_type : Presence → FieldDocs → Option RustType
prost_type presence f =
    if is_repeated_label f.label
    then some (vec (element_of f))
    else singular presence (element_of f)

abbrev pub declared : SymbolRegistry → Str → Str → Option FieldDocs
declared registry t p = lookup t registry.messages >>= λ msg. lookup p msg.fields

-- A name that is in snake case, and is not one of those that prost ends with an underscore.
pub record IsFieldName (to_snake_case : Str → Str) (p : Str) : Type 0 where
  pub snake : to_snake_case p ≡ p
  pub no_suffix :
      any (str_eq p) (lit "self" ∷ lit "super" ∷ lit "extern" ∷ lit "crate" ∷ lit "_" ∷ []) ≡ false

-- What prost documents of the structs that it generates: `rust_type` has the types of their fields.
abbrev pub IsGenerated :
    (Str → Str) → SymbolRegistry → (Str → Str → Presence) → (Str → Ident → Option RustType) → Type 0
IsGenerated to_snake_case registry presence rust_type =
    (t p : Str)
    → IsFieldName to_snake_case p
    → rust_type t (safe_ident p) ≡ (declared registry t p >>= prost_type (presence t p))

-- `get_or_insert_with` is called on an `Option`, and the next field is one of a struct.
abbrev pub entered : Option RustType → Option Str
entered (some (option (struct u))) = some u
entered (some (option scalar)) = none
entered (some (option bytes)) = none
entered (some (bare e)) = none
entered (some (vec e)) = none
entered none = none

-- `push` is called on a `Vec`; `parse().unwrap_or_default()` gives no `Option`, and no struct.
abbrev pub fits : Bool → Value → Option RustType → Bool
fits true as_bytes (some (vec bytes)) = true
fits true parsed (some (vec scalar)) = true
fits false as_bytes (some (bare bytes)) = true
fits false parsed (some (bare scalar)) = true
fits repeated value ty = false

module _ (rust_type : Str → Ident → Option RustType) where
  -- The message type that a chain of fields leads to.
  unfoldable pub reach : Str → List Ident → Option Str
  reach t [] = some t
  reach t (i ∷ is) = elim (entered (rust_type t i)) [ none ↦ none | some u ↦ reach u is ]

  -- The type check of a statement that sets a field of a message of type `t`.
  unfoldable pub is_typed : Str → Statement → Bool
  unfolding reach
  is_typed t no_statement = false
  is_typed t (push access i v) = elim (reach t access) [
    | none ↦ false
    | some u ↦ fits true v (rust_type u i)
  ]
  is_typed t (assign access i v) = elim (reach t access) [
    | none ↦ false
    | some u ↦ fits false v (rust_type u i)
  ]

-- A field that a variable of a path can set: no message, and repeated or without `optional` and `oneof`.
abbrev pub IsSettable : Presence → FieldDocs → Type 0
IsSettable presence f =
    ((is_repeated_label f.label ≡ true) ⊎ (presence ≡ implicit)) × (message_type_of f ≡ none)

-- The path leads through messages that are neither repeated nor in a `oneof` to such a field.
pub data Settable (registry : SymbolRegistry) (presence : Str → Str → Presence)
    : Str → List Str → Type 0 where
  field_of :
      {t p : Str} {f : FieldDocs}
      → declared registry t p ≡ some f
      → IsSettable (presence t p) f
      → Settable registry presence t (p ∷ [])
  through :
      {t p q u : Str} {ps : List Str} {g : FieldDocs}
      → declared registry t p ≡ some g
      → is_repeated_label g.label ≡ false
      → presence t p ≢ in_oneof
      → message_type_of g ≡ some u
      → Settable registry presence u (q ∷ ps)
      → Settable registry presence t (p ∷ q ∷ ps)
