-- ===== src/Generator.antt =====
-- gateway-codegen/src/generator.rs: the Rust code that the generator emits. The token streams of
-- paths and identifiers are modelled here; the children have the setters, the services, what the
-- emitted code does, and the files.
pub mod Paths
pub mod Setter
pub mod Typing
pub mod Typechecking
pub mod Service
pub mod Emitted
pub mod Files
pub mod Plugin
pub mod Main
pub mod Parameters
pub mod Serving
pub mod Answering
pub mod Delivery
pub mod Deployment
pub mod Outage
pub mod Entrance
pub mod Sources
pub mod Examples
pub mod Routing
use grpc_gateway_rust.Prelude.{
  ℕ, zero, suc, ◌+◌, ◌-◌, Bool, false, not, ◌||◌, ◌&&◌, ◌==◌, leb, Option, none, some, List, [],
  ◌∷◌, ◌++◌, Str, Map, lit, length, drop, filter, any, is_empty, str_eq, starts_with, split,
  trim_start_matches, replace, if◌then◌else◌, Attempt, done, stopped,
}

-- `proc_macro2::Ident`: of `Ident::new`, or of `Ident::new_raw` for a keyword. `refused` is the panic of
-- either, which ends the run: no tokens with it are printed.
pub data Ident : Type 0 where
  plain raw refused : Str → Ident

pub data Token : Type 0 where
  super_keyword colons : Token
  word : Ident → Token
  compile_error : Str → Token

-- `HashMap` yields the extern paths in an order of its own; the list has them in that order.
pub record GeneratorOptions : Type 0 where
  pub source_relative : Bool
  pub extern_paths : Map Str

abbrev pub keywords : List Str
keywords =
    lit "as"
    ∷ lit "break"
    ∷ lit "const"
    ∷ lit "continue"
    ∷ lit "crate"
    ∷ lit "else"
    ∷ lit "enum"
    ∷ lit "extern"
    ∷ lit "false"
    ∷ lit "fn"
    ∷ lit "for"
    ∷ lit "if"
    ∷ lit "impl"
    ∷ lit "in"
    ∷ lit "let"
    ∷ lit "loop"
    ∷ lit "match"
    ∷ lit "mod"
    ∷ lit "move"
    ∷ lit "mut"
    ∷ lit "pub"
    ∷ lit "ref"
    ∷ lit "return"
    ∷ lit "self"
    ∷ lit "Self"
    ∷ lit "static"
    ∷ lit "struct"
    ∷ lit "super"
    ∷ lit "trait"
    ∷ lit "true"
    ∷ lit "type"
    ∷ lit "unsafe"
    ∷ lit "use"
    ∷ lit "where"
    ∷ lit "while"
    ∷ lit "async"
    ∷ lit "await"
    ∷ lit "dyn"
    ∷ lit "abstract"
    ∷ lit "become"
    ∷ lit "box"
    ∷ lit "do"
    ∷ lit "final"
    ∷ lit "macro"
    ∷ lit "override"
    ∷ lit "priv"
    ∷ lit "typeof"
    ∷ lit "unsized"
    ∷ lit "virtual"
    ∷ lit "yield"
    ∷ lit "try"
    ∷ []

-- The keywords that cannot be raw identifiers.
abbrev pub never_raw : List Str
never_raw = lit "self" ∷ lit "Self" ∷ lit "super" ∷ lit "crate" ∷ []

abbrev pub is_letter : ℕ → Bool
is_letter c = leb b'a' c && leb c b'z' || leb b'A' c && leb c b'Z' || c == b'_'

abbrev pub is_digit : ℕ → Bool
is_digit c = leb b'0' c && leb c b'9'

-- An identifier of Rust, of the ASCII letters that the names of protobuf have.
abbrev pub is_identifier : Str → Bool
is_identifier [] = false
is_identifier (c ∷ s) = is_letter c && not (any (λ d. not (is_letter d || is_digit d)) s)

abbrev pub new_ident : Str → Ident
new_ident name = if is_identifier name then plain name else refused name

abbrev pub new_raw : Str → Ident
new_raw name = if any (str_eq name) never_raw then refused name else raw name

unfoldable pub safe_ident : Str → Ident
safe_ident name = if any (str_eq name) keywords then new_raw name else new_ident name

-- The first extern path that the type stands at or below.
unfoldable pub find_extern : Str → Map Str → Option (Str × Str)
find_extern type_name [] = none
find_extern type_name ((proto_path, rust_path) ∷ rest) =
    let later = find_extern type_name rest in
    if str_eq type_name proto_path || starts_with type_name (proto_path ++ lit ".")
    then some (proto_path, rust_path)
    else later

-- `s.split('.').filter(|s| !s.is_empty())`
unfoldable pub parts_of : Str → List Str
parts_of s = filter (λ p. not (is_empty p)) (split b'.' s)

unfoldable pub common_prefix_len : List Str → List Str → ℕ
common_prefix_len [] type_parts = 0
common_prefix_len (part ∷ rest) [] = 0
common_prefix_len (part ∷ rest) (t ∷ type_parts) =
    let n = common_prefix_len rest type_parts in if str_eq part t then suc n else 0

unfoldable pub push_supers : ℕ → List Token → List Token
push_supers zero tokens = tokens
push_supers (suc n) tokens = super_keyword ∷ colons ∷ push_supers n tokens

unfoldable pub join_idents : List Str → List Token
join_idents [] = []
join_idents (part ∷ []) = word (safe_ident part) ∷ []
join_idents (part ∷ next ∷ rest) = word (safe_ident part) ∷ colons ∷ join_idents (next ∷ rest)

-- The path from the module of the emitted code, which is inside that of its package.
unfoldable pub relative_path : List Str → List Str → List Token
unfolding common_prefix_len push_supers join_idents
relative_path current_parts type_parts =
    let n = common_prefix_len current_parts type_parts in
    push_supers (length current_parts - n + 1) (join_idents (drop n type_parts))

abbrev pub or_tokens : Option (List Token) → List Token → List Token
or_tokens none otherwise = otherwise
or_tokens (some tokens) otherwise = tokens

-- `parse_path` is `syn::parse_str::<syn::Path>`, with the tokens of the path or the text of an error.
module _ (parse_path : Str → Attempt Str (List Token)) where
  unfoldable pub resolve_type : Str → List Token
  resolve_type type_name =
      let s = replace b'.' (lit "::") (trim_start_matches b'.' type_name) in
      elim (parse_path s) [
        | done path ↦ path
        | stopped err ↦
            compile_error (lit "Invalid protobuf type path `" ++ s ++ lit "`: " ++ err) ∷ []
      ]

  unfoldable pub resolve_extern : Str → Str → Str → Option (List Token)
  unfolding resolve_type
  resolve_extern type_name proto_prefix rust_prefix =
      let clean_type = trim_start_matches b'.' type_name in
      let clean_proto = trim_start_matches b'.' proto_prefix in
      if str_eq type_name proto_prefix || str_eq clean_type clean_proto
      then some (resolve_type rust_prefix)
      else if starts_with clean_type clean_proto
      then some (
          resolve_type
            (rust_prefix ++ replace b'.' (lit "::") (drop (length clean_proto) clean_type)))
      else none

  unfoldable pub resolve_local : Str → Str → List Token
  unfolding relative_path resolve_type parts_of
  resolve_local type_name current_package =
      if not (starts_with type_name (lit "."))
      then resolve_type type_name
      else relative_path (parts_of current_package) (parts_of (trim_start_matches b'.' type_name))

  unfoldable pub resolve_relative_type : Str → Str → GeneratorOptions → List Token
  unfolding find_extern resolve_extern resolve_local
  resolve_relative_type type_name current_package options =
      let otherwise = resolve_local type_name current_package in
      elim (find_extern type_name options.extern_paths) [
        | none ↦ otherwise
        | some (proto_prefix, rust_prefix) ↦
            or_tokens (resolve_extern type_name proto_prefix rust_prefix) otherwise
      ]
