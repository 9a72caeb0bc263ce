-- ===== src/Generator/Typechecking/Examples.antt =====
-- The type check of setters at the messages of a shelf: `book.id` can be set, `book` cannot.
use grpc_gateway_rust.Prelude.{
  ◌≡◌, refl, ap, ◌↔◌, Bool-cases, true, false, Option, Str, lit, split, any, str_eq, starts_with,
  lookup, insert, inl, inr, ◌>>=◌,
}
use grpc_gateway_rust.Bindings.{parameter, variable_info}
use grpc_gateway_rust.Bindings.Registry.{resolve_field, process_file, process_fields}
use grpc_gateway_rust.Bindings.Examples.{registry}
use grpc_gateway_rust.Generator.{
  Ident, plain, raw, refused, new_raw, new_ident, never_raw, is_identifier, safe_ident, keywords,
}
use grpc_gateway_rust.Generator.Setter.{generate_setter}
use grpc_gateway_rust.Generator.Service.{population_of}
use grpc_gateway_rust.Generator.Examples.{naming}
use grpc_gateway_rust.Generator.Typing.{
  Presence, implicit, RustType, declared, prost_type, IsGenerated, is_typed, Settable,
}
use grpc_gateway_rust.Generator.Typechecking.{population_of-is_typed_iff}

abbrev name_of : Ident → Str
name_of (plain s) = s
name_of (raw s) = s
name_of (refused s) = s

name_of-new_raw : (s : Str) → name_of (new_raw s) ≡ s
name_of-new_raw s = elim (Bool-cases (any (str_eq s) never_raw)) [
  | inl never ↦ rw never
  | inr usable ↦ rw usable
]

name_of-new_ident : (s : Str) → name_of (new_ident s) ≡ s
name_of-new_ident s = elim (Bool-cases (is_identifier s)) [
  | inl legal ↦ rw legal
  | inr illegal ↦ rw illegal
]

name_of-safe_ident : (s : Str) → name_of (safe_ident s) ≡ s
unfolding safe_ident
name_of-safe_ident s = elim (Bool-cases (any (str_eq s) keywords)) [
  | inl keyword ↦ rw (keyword, safe_ident) (name_of-new_raw s)
  | inr other ↦ rw (other, safe_ident) (name_of-new_ident s)
]

abbrev presence : Str → Str → Presence
presence t p = implicit

-- The fields of the structs, under their own names.
abbrev rust_type : Str → Ident → Option RustType
rust_type t i = declared registry t (name_of i) >>= prost_type implicit

rust_type-IsGenerated : IsGenerated naming.to_snake_case registry presence rust_type
rust_type-IsGenerated t p name =
    ap (λ s. declared registry t s >>= prost_type implicit) (name_of-safe_ident p)

population_of-is_typed_iff_example :
    (is_typed rust_type
        (lit ".lib.Shelf")
        (population_of naming (parameter registry (lit ".lib.Shelf") (lit "book.id"))).setter
      ≡ true)
    ↔ Settable registry presence (lit ".lib.Shelf") (split b'.' (lit "book.id"))
unfolding starts_with split str_eq
population_of-is_typed_iff_example =
    population_of-is_typed_iff naming registry presence rust_type (lit ".lib.Shelf") (lit "book.id")
      rust_type-IsGenerated refl
      (record { snake = refl; no_suffix = refl }, (record { snake = refl; no_suffix = refl }, tt))

book_id-is_typed :
    is_typed rust_type
      (lit ".lib.Shelf")
      (population_of naming (parameter registry (lit ".lib.Shelf") (lit "book.id"))).setter
    ≡ true
unfolding is_typed generate_setter split variable_info resolve_field lookup process_file insert
    str_eq process_fields
book_id-is_typed = refl

book-is_typed :
    is_typed rust_type
      (lit ".lib.Shelf")
      (population_of naming (parameter registry (lit ".lib.Shelf") (lit "book"))).setter
    ≡ false
unfolding is_typed generate_setter split variable_info resolve_field lookup process_file insert
    str_eq process_fields
book-is_typed = refl
