-- ===== src/Bindings/Registry.antt =====
-- gateway-codegen/src/descriptor_processor.rs: the registry of message types, and the fields that a
-- dotted path reaches in it.
use grpc_gateway_rust.Prelude.{
  ℕ, ◌+◌, Option, none, some, List, [], ◌∷◌, ◌++◌, map, Str, Map, lookup, insert, split, is_empty,
  last, init, if◌then◌else◌, ◌==◌,
}
use grpc_gateway_rust.Bindings.Descriptors.{
  FieldDescriptorProto, DescriptorProto, message, DescriptorProtos, no_messages, more_messages,
  Location, FileDescriptorProto,
}

-- A path is a list of numbers, as a key is.
abbrev pub CommentMap : Type 0
CommentMap = Map Str

pub record FieldDocs : Type 0 where
  pub docs : List Str
  pub label : Option ℕ
  pub type_name : Option Str
  pub field_type : Option ℕ

pub record MessageDocs : Type 0 where
  pub docs : List Str
  pub fields : Map FieldDocs
  pub file : Str

pub record SymbolRegistry : Type 0 where
  pub messages : Map MessageDocs

abbrev pub drop_last_empty : List Str → List Str
drop_last_empty ls = elim (last ls) [ none ↦ ls | some l ↦ if is_empty l then init ls else ls ]

abbrev pub strip_return : Str → Str
strip_return l = elim (last l) [ none ↦ l | some c ↦ if c == b'\r' then init l else l ]

-- `comment.lines()`
abbrev pub lines : Str → List Str
lines comment = map strip_return (drop_last_empty (split b'\n' comment))

-- `CommentMap::get`
unfoldable pub comments_at : CommentMap → List ℕ → List Str
comments_at comments path = elim (lookup path comments) [ none ↦ [] | some c ↦ lines c ]

abbrev pub insert_comment : List ℕ → Option Str → CommentMap → CommentMap
insert_comment path none comments = comments
insert_comment path (some c) comments = insert path c comments

-- The loop over the locations of a file.
unfoldable pub process_source_info : List Location → CommentMap → CommentMap
process_source_info [] comments = comments
process_source_info (l ∷ ls) comments =
    process_source_info ls (insert_comment l.path l.leading_comments comments)

-- `unwrap_or_default()`
abbrev pub or_default : Option Str → Str
or_default none = []
or_default (some s) = s

-- The loop over the fields of a message, from field `i`.
unfoldable pub process_fields :
    CommentMap → List ℕ → ℕ → List FieldDescriptorProto → Map FieldDocs → Map FieldDocs
unfolding comments_at
process_fields comments path i [] fields = fields
process_fields comments path i (f ∷ fs) fields = process_fields comments path (i + 1) fs (
    insert (or_default f.name)
      (record {
        docs = comments_at comments (path ++ (2 ∷ i ∷ []));
        label = f.label;
        type_name = f.type_name;
        field_type = f.field_type;
      })
      fields)

abbrev pub full_name_of : Str → Option Str → Str
full_name_of parent_scope name = parent_scope ++ (b'.' ∷ or_default name)

module _ (comments : CommentMap) (filename : Str) where
  unfoldable mutual
    -- A message, and then the messages nested in it.
    pub process_message : DescriptorProto → Str → List ℕ → Map MessageDocs → Map MessageDocs
    process_message (message name fs nested) parent_scope path messages =
        process_messages nested (full_name_of parent_scope name) (path ++ (3 ∷ [])) 0 (
          insert (full_name_of parent_scope name)
            (record {
              docs = comments_at comments path;
              fields = process_fields comments path 0 fs [];
              file = filename;
            })
            messages)

    -- The loop over messages, from position `i` of the list that `path` leads to.
    pub process_messages : DescriptorProtos → Str → List ℕ → ℕ → Map MessageDocs → Map MessageDocs
    process_messages no_messages parent_scope path i messages = messages
    process_messages (more_messages m ms) parent_scope path i messages =
        process_messages ms parent_scope path (i + 1)
          (process_message m parent_scope (path ++ (i ∷ [])) messages)

-- The loop over the parts of a field path.
unfoldable pub resolve_parts : SymbolRegistry → Str → List Str → Option FieldDocs
resolve_parts registry current_type [] = none
resolve_parts registry current_type (part ∷ []) = elim (lookup current_type registry.messages) [
  | none ↦ none
  | some msg ↦ lookup part msg.fields
]
resolve_parts registry current_type (part ∷ next ∷ parts) =
    elim (lookup current_type registry.messages) [
      | none ↦ none
      | some msg ↦ elim (lookup part msg.fields) [
        | none ↦ none
        | some field ↦ elim field.type_name [
          | none ↦ none
          | some type_name ↦ resolve_parts registry type_name (next ∷ parts)
        ]
      ]
    ]

unfoldable pub resolve_field : SymbolRegistry → Str → Str → Option FieldDocs
unfolding resolve_parts
resolve_field registry root_type field_path =
    resolve_parts registry root_type (split b'.' field_path)

abbrev pub locations_of : Option (List Location) → List Location
locations_of none = []
locations_of (some ls) = ls

abbrev pub package_prefix : Str → Str
package_prefix name = if is_empty name then [] else b'.' ∷ name

-- The messages of a file have the path `[4, i]`.
unfoldable pub process_file : FileDescriptorProto → Map MessageDocs → Map MessageDocs
unfolding process_source_info process_message
process_file file messages =
    process_messages (process_source_info (locations_of file.source_code_info) [])
      (or_default file.name) file.message_type (package_prefix (or_default file.package_name))
      (4 ∷ []) 0 messages

abbrev pub process_files : List FileDescriptorProto → Map MessageDocs → Map MessageDocs
process_files [] messages = messages
process_files (file ∷ files) messages = process_files files (process_file file messages)

abbrev pub new_registry : List FileDescriptorProto → SymbolRegistry
new_registry files = record { messages = process_files files [] }
