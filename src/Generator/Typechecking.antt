-- ===== src/Generator/Typechecking.antt =====
-- Which setters the Rust compiler accepts.
mod Examples
use grpc_gateway_rust.Prelude.{
  ℕ, ◌≡◌, ◌≢◌, refl, sym, ap, ◌∙◌, ◌↔◌, ◌⊎◌, inl, inr, Bool, true, false, Option, none, some, List,
  [], ◌∷◌, ◌++◌, Str, lit, split, starts_with, lookup, All, Option-cases, Bool-cases, ◌>>=◌, arith,
  if◌then◌else◌,
}
use grpc_gateway_rust.Bindings.{is_repeated_label, field_info, parameter, variable_info}
use grpc_gateway_rust.Bindings.Registry.{SymbolRegistry, FieldDocs, resolve_parts, resolve_field}
use grpc_gateway_rust.Generator.{Ident, safe_ident}
use grpc_gateway_rust.Generator.Setter.{
  Value, Statement, as_bytes, parsed, statement, value_of, is_bytes_type, access_loop,
  setter_of_parts, generate_setter,
}
use grpc_gateway_rust.Generator.Service.{Naming, population_of}
use grpc_gateway_rust.Generator.Typing.{
  Presence, implicit, explicit, in_oneof, RustType, option, vec, struct, element, singular,
  message_type_of, is_message_type, prost_type, declared, entered, fits, IsFieldName, IsGenerated,
  reach, is_typed, IsSettable, Settable, field_of, through,
}

-- The last field: a statement fits the type that prost gives it, exactly if the field is settable.
fits_sound :
    (is_repeated is_bytes : Bool) (presence : Presence) (message_type : Option Str)
    → fits is_repeated (if is_bytes then as_bytes else parsed) (
        if is_repeated
        then some (vec (element message_type is_bytes))
        else singular presence (element message_type is_bytes))
      ≡ true
    → ((is_repeated ≡ true) ⊎ (presence ≡ implicit)) × (message_type ≡ none)
fits_sound true b presence none h = (inl refl, refl)
fits_sound true true presence (some u) h = absurd (cc h)
fits_sound true false presence (some u) h = absurd (cc h)
fits_sound false b implicit none h = (inr refl, refl)
fits_sound false true implicit (some u) h = absurd (cc h)
fits_sound false false implicit (some u) h = absurd (cc h)
fits_sound false true explicit m h = absurd (cc h)
fits_sound false false explicit m h = absurd (cc h)
fits_sound false true in_oneof m h = absurd (cc h)
fits_sound false false in_oneof m h = absurd (cc h)

fits-none : (is_repeated : Bool) (v : Value) → fits is_repeated v none ≡ true → ⊥
fits-none true as_bytes h = cc h
fits-none true parsed h = cc h
fits-none false as_bytes h = cc h
fits-none false parsed h = cc h

fits_complete :
    (is_repeated is_bytes : Bool) (presence : Presence) (message_type : Option Str)
    → ((is_repeated ≡ true) ⊎ (presence ≡ implicit)) × (message_type ≡ none)
    → fits is_repeated (if is_bytes then as_bytes else parsed) (
        if is_repeated
        then some (vec (element message_type is_bytes))
        else singular presence (element message_type is_bytes))
      ≡ true
fits_complete true true presence m (shape, e) = rw e
fits_complete true false presence m (shape, e) = rw e
fits_complete false b presence m (inl r, e) = absurd (cc r)
fits_complete false true presence m (inr r, e) = rw (e, r)
fits_complete false false presence m (inr r, e) = rw (e, r)

-- An inner field: a chain goes on exactly from a message that is neither repeated nor in a `oneof`.
entered_sound :
    (is_repeated is_bytes : Bool) (presence : Presence) (message_type : Option Str) (u : Str)
    → entered (
        if is_repeated
        then some (vec (element message_type is_bytes))
        else singular presence (element message_type is_bytes))
      ≡ some u
    → (is_repeated ≡ false) × (presence ≢ in_oneof) × (message_type ≡ some u)
entered_sound true b presence m u h = absurd (cc h)
entered_sound false b implicit (some t) u h = (refl, λ e. cc e, h)
entered_sound false true implicit none u h = absurd (cc h)
entered_sound false false implicit none u h = absurd (cc h)
entered_sound false b explicit (some t) u h = (refl, λ e. cc e, h)
entered_sound false true explicit none u h = absurd (cc h)
entered_sound false false explicit none u h = absurd (cc h)
entered_sound false b in_oneof m u h = absurd (cc h)

entered_complete :
    (is_bytes : Bool) (presence : Presence) (message_type : Option Str) (u : Str)
    → presence ≢ in_oneof
    → message_type ≡ some u
    → entered (singular presence (element message_type is_bytes)) ≡ some u
entered_complete b implicit m u h e = rw e
entered_complete b explicit m u h e = rw e
entered_complete b in_oneof m u h e = absurd (h refl)

reach-append :
    (rust_type : Str → Ident → Option RustType) (t : Str) (is : List Ident) (i : Ident)
    → reach rust_type t (is ++ (i ∷ [])) ≡ (reach rust_type t is >>= λ u. entered (rust_type u i))
unfolding reach
reach-append rust_type t [] i = elim (Option-cases (entered (rust_type t i))) [
  | inl n ↦ rw (n, reach)
  | inr (u, e) ↦ rw (e, reach)
]
reach-append rust_type t (j ∷ is) i = elim (Option-cases (entered (rust_type t j))) [
  | inl n ↦ rw (n, reach)
  | inr (u, e) ↦ rw (e, reach) (reach-append rust_type u is i)
]

module _ (registry : SymbolRegistry) where
  resolve_parts-last : (t p : Str) → resolve_parts registry t (p ∷ []) ≡ declared registry t p
  unfolding resolve_parts
  resolve_parts-last t p = elim (Option-cases (lookup t registry.messages)) [
    | inl n ↦ rw (n, resolve_parts)
    | inr (msg, e) ↦ rw (e, resolve_parts)
  ]

  resolve_parts-next :
      (t p q u : Str) (ps : List Str) (g : FieldDocs)
      → declared registry t p ≡ some g
      → message_type_of g ≡ some u
      → resolve_parts registry t (p ∷ q ∷ ps) ≡ resolve_parts registry u (q ∷ ps)
  unfolding resolve_parts
  resolve_parts-next t p q u ps g d m = elim (Option-cases (lookup t registry.messages)) [
    | inl n ↦ absurd (cc (rw n at d))
    | inr (msg, e) ↦ elim (Bool-cases (is_message_type g.field_type)) [
      | inl yes_message ↦
          let typed : g.type_name ≡ some u = rw yes_message at m in
          rw (e, resolve_parts, (rw e at d), typed)
      | inr other ↦ absurd (cc (rw other at m))
    ]
  ]

module _ (to_snake_case : Str → Str) (registry : SymbolRegistry) (presence : Str → Str → Presence)
    (rust_type : Str → Ident → Option RustType)
    (generated : IsGenerated to_snake_case registry presence rust_type) where
  is_typed-statement :
      (root t : Str) (access : List Ident) (i : Ident) (is_repeated : Bool) (field_type : Option ℕ)
      → reach rust_type root access ≡ some t
      → is_typed rust_type root (statement is_repeated field_type access i)
        ≡ fits is_repeated (value_of field_type) (rust_type t i)
  unfolding is_typed
  is_typed-statement root t access i true field_type h = rw (h, is_typed)
  is_typed-statement root t access i false field_type h = rw (h, is_typed)

  is_typed-astray :
      (root : Str) (access : List Ident) (parts : List Str) (is_repeated : Bool)
      (field_type : Option ℕ)
      → reach rust_type root access ≡ none
      → is_typed rust_type root (access_loop to_snake_case is_repeated field_type access parts)
        ≡ false
  unfolding is_typed access_loop
  is_typed-astray root access [] is_repeated field_type h = refl
  is_typed-astray root access (p ∷ []) true field_type h = rw (h, is_typed)
  is_typed-astray root access (p ∷ []) false field_type h = rw (h, is_typed)
  is_typed-astray root access (p ∷ q ∷ ps) is_repeated field_type h =
      is_typed-astray root (access ++ (safe_ident (to_snake_case p) ∷ [])) (q ∷ ps) is_repeated
        field_type (rw (reach-append, h))

  rust_type-declared :
      (t p : Str) {f : FieldDocs}
      → IsFieldName to_snake_case p
      → declared registry t p ≡ some f
      → rust_type t (safe_ident p) ≡ prost_type (presence t p) f
  rust_type-declared t p {f} name found = generated t p name ∙ rw found

  rust_type-undeclared :
      (t p : Str)
      → IsFieldName to_snake_case p
      → declared registry t p ≡ none
      → rust_type t (safe_ident p) ≡ none
  rust_type-undeclared t p name missing = generated t p name ∙ rw missing

  -- A chain goes on through a field exactly from a message that is neither repeated nor in a `oneof`.
  entered-declared :
      (t p u : Str)
      → IsFieldName to_snake_case p
      → entered (rust_type t (safe_ident p)) ≡ some u
      → (g : FieldDocs) × (declared registry t p ≡ some g)
        × (is_repeated_label g.label ≡ false)
        × (presence t p ≢ in_oneof)
        × (message_type_of g ≡ some u)
  entered-declared t p u name h = elim (Option-cases (declared registry t p)) [
    | inl missing ↦ absurd (cc (rw (rust_type-undeclared t p name missing) at h))
    | inr (g, found) ↦
        let (single, no_oneof, message) =
          entered_sound (is_repeated_label g.label) (is_bytes_type g.field_type) (presence t p)
            (message_type_of g) u (rw (rust_type-declared t p name found) at h) in
        (g, found, single, no_oneof, message)
  ]

  access_loop_sound :
      (root t : Str) (access : List Ident) (parts : List Str) (info : Bool × Option ℕ)
      → reach rust_type root access ≡ some t
      → All (IsFieldName to_snake_case) parts
      → info ≡ field_info (resolve_parts registry t parts)
      → is_typed rust_type root (access_loop to_snake_case info.0 info.1 access parts) ≡ true
      → Settable registry presence t parts
  unfolding access_loop is_typed
  access_loop_sound root t access [] info at_t names e h = absurd (cc h)
  access_loop_sound root t access (p ∷ []) info at_t (name, rest) e h =
      let fitting : fits info.0 (value_of info.1) (rust_type t (safe_ident p)) ≡ true =
        sym (is_typed-statement root t access (safe_ident p) info.0 info.1 at_t)
        ∙ rw name.snake at h in
      elim (Option-cases (declared registry t p)) [
        | inl missing ↦ absurd (
            fits-none info.0 (value_of info.1)
              (rw (rust_type-undeclared t p name missing) at fitting))
        | inr (f, found) ↦
            let known : info ≡ field_info (some f) =
              e ∙ ap field_info (resolve_parts-last registry t p ∙ found) in
            field_of found (
              fits_sound (is_repeated_label f.label) (is_bytes_type f.field_type) (presence t p)
                (message_type_of f) (rw (known, rust_type-declared t p name found) at fitting))
      ]
  access_loop_sound root t access (p ∷ q ∷ ps) info at_t (name, rest) e h =
      elim (Option-cases (entered (rust_type t (safe_ident p)))) [
        | inl astray ↦ absurd (
            cc (
              sym h
              ∙ is_typed-astray root (access ++ (safe_ident (to_snake_case p) ∷ [])) (q ∷ ps) info.0
                  info.1 (rw (reach-append, at_t, name.snake, astray))))
        | inr (u, into) ↦
            let (g, found, single, no_oneof, message) = entered-declared t p u name into in
            through found single no_oneof message (
              access_loop_sound root u (access ++ (safe_ident (to_snake_case p) ∷ [])) (q ∷ ps) info
                (rw (reach-append, at_t, name.snake, into)) rest
                (e ∙ ap field_info (resolve_parts-next registry t p q u ps g found message)) h)
      ]

  access_loop_complete :
      (root t : Str) (access : List Ident) (info : Bool × Option ℕ) {parts : List Str}
      → reach rust_type root access ≡ some t
      → All (IsFieldName to_snake_case) parts
      → info ≡ field_info (resolve_parts registry t parts)
      → Settable registry presence t parts
      → is_typed rust_type root (access_loop to_snake_case info.0 info.1 access parts) ≡ true
  unfolding access_loop is_typed
  access_loop_complete root t access info at_t names e (field_of {p} {f} found settable) =
      let known : info ≡ field_info (some f) =
        e ∙ ap field_info (resolve_parts-last registry t p ∙ found) in
      let fitting =
        fits_complete (is_repeated_label f.label) (is_bytes_type f.field_type) (presence t p)
          (message_type_of f) settable in
      rw names.0.snake (
        is_typed-statement root t access (safe_ident p) info.0 info.1 at_t
        ∙ rw (known, rust_type-declared t p names.0 found) fitting)
  access_loop_complete root t access info at_t names e
        (through {p} {q} {u} {ps} {g} found single no_oneof message later) =
      let into : entered (rust_type t (safe_ident p)) ≡ some u =
        rw (rust_type-declared t p names.0 found, single)
          (entered_complete (is_bytes_type g.field_type) (presence t p) (message_type_of g) u
            no_oneof message) in
      access_loop_complete root u (access ++ (safe_ident (to_snake_case p) ∷ [])) info
        (rw (reach-append, at_t, names.0.snake, into)) names.1
        (e ∙ ap field_info (resolve_parts-next registry t p q u ps g found message)) later

  setter_of_parts-access_loop :
      (is_repeated : Bool) (field_type : Option ℕ) (parts : List Str)
      → setter_of_parts to_snake_case is_repeated field_type parts
        ≡ access_loop to_snake_case is_repeated field_type [] parts
  unfolding setter_of_parts access_loop
  setter_of_parts-access_loop is_repeated field_type [] = refl
  setter_of_parts-access_loop is_repeated field_type (p ∷ []) = refl
  setter_of_parts-access_loop is_repeated field_type (p ∷ q ∷ ps) = refl

variable_info-absolute :
    (registry : SymbolRegistry) (input_type v : Str)
    → starts_with input_type (lit ".") ≡ true
    → variable_info registry input_type v
      ≡ field_info (resolve_parts registry input_type (split b'.' v))
unfolding variable_info resolve_field
variable_info-absolute registry input_type v h =
    elim (Option-cases (resolve_parts registry input_type (split b'.' v))) [
      | inl n ↦ rw (n, h, variable_info)
      | inr (f, e) ↦ rw (e, variable_info)
    ]

-- The setter that is emitted for a variable of a path has the right types in the structs that prost
-- generates exactly if the path leads, through messages that are neither repeated nor in a `oneof`, to
-- a field that is no message and is repeated or has neither `optional` nor `oneof`: for an absolute
-- name of the request type, and field names in snake case that prost does not change.
pub population_of-is_typed_iff :
    (naming : Naming) (registry : SymbolRegistry) (presence : Str → Str → Presence)
    (rust_type : Str → Ident → Option RustType) (input_type v : Str)
    → IsGenerated naming.to_snake_case registry presence rust_type
    → starts_with input_type (lit ".") ≡ true
    → All (IsFieldName naming.to_snake_case) (split b'.' v)
    → (is_typed rust_type input_type (population_of naming (parameter registry input_type v)).setter
        ≡ true)
      ↔ Settable registry presence input_type (split b'.' v)
unfolding generate_setter reach
population_of-is_typed_iff naming registry presence rust_type input_type v generated absolute
      names =
    let info = variable_info registry input_type v in
    let parts = split b'.' v in
    let same = variable_info-absolute registry input_type v absolute in
    let loop =
      setter_of_parts-access_loop naming.to_snake_case registry presence rust_type generated info.0
        info.1 parts in
    (
      λ h.
          access_loop_sound naming.to_snake_case registry presence rust_type generated input_type
            input_type [] parts info refl names same (rw loop at h),
      λ s. rw loop (
          access_loop_complete naming.to_snake_case registry presence rust_type generated input_type
            input_type [] info refl names same s),
    )
