-- ===== src/Utilities/Multipart.antt =====
-- What becomes of a multipart body.
use mathlib.Core.List.{append_assoc, append-nil}
use grpc_gateway_rust.Prelude.{
  ◌≡◌, refl, sym, ap, ◌∙◌, ◌⊎◌, inl, inr, true, Option, none, some, List, [], ◌∷◌, ◌++◌, Str, Map,
  lit, lookup, insert, lookup-insert, or_else, or_else-none, str_eq, starts_with, if◌then◌else◌,
  done, stopped, Bool-cases, Option-cases,
}
use grpc_gateway_rust.Http.{HeaderApi}
use grpc_gateway_rust.Errors.{encoding}
use grpc_gateway_rust.Codec.{raised, Codec}
use grpc_gateway_rust.Utilities.{
  ChunkPoll, chunk, bad_chunk, FieldPoll, field, bad_field, JsonValue, BodyApi, read_chunks,
  json_of, read_fields, or_encoding, content_type_header, parse_multipart, parse_body,
}

-- Chunks that are all read, and their bytes; chunks of which one is an error.
pub data Chunks : List ChunkPoll → Str → Type 0 where
  no_chunk : Chunks [] []
  one_chunk :
      {cs : List ChunkPoll} {s : Str} (bytes : Str)
      → Chunks cs s
      → Chunks (chunk bytes ∷ cs) (bytes ++ s)

pub data BadChunks : List ChunkPoll → Str → Type 0 where
  bad_here : {cs : List ChunkPoll} {e : Str} → BadChunks (bad_chunk e ∷ cs) e
  bad_later :
      {cs : List ChunkPoll} {e bytes : Str} → BadChunks cs e → BadChunks (chunk bytes ∷ cs) e

-- Fields that are all read, and the values of those with a name.
pub data Fields : List FieldPoll → Map JsonValue → Type 0 where
  no_field : Fields [] []
  unnamed :
      {fs : List FieldPoll} {es : Map JsonValue} {file_name : Option Str} {cs : List ChunkPoll}
      → Fields fs es
      → Fields (field none file_name cs ∷ fs) es
  named :
      {fs : List FieldPoll} {es : Map JsonValue} {name bytes : Str} {file_name : Option Str}
      {cs : List ChunkPoll}
      → Chunks cs bytes
      → Fields fs es
      → Fields (field (some name) file_name cs ∷ fs) ((name, json_of file_name bytes) ∷ es)

-- Fields of which one is an error, or a chunk of one that has a name: the first error.
pub data BadFields : List FieldPoll → Str → Type 0 where
  bad_one : {fs : List FieldPoll} {e : Str} → BadFields (bad_field e ∷ fs) e
  bad_one_chunk :
      {fs : List FieldPoll} {e name : Str} {file_name : Option Str} {cs : List ChunkPoll}
      → BadChunks cs e
      → BadFields (field (some name) file_name cs ∷ fs) e
  bad_after_unnamed :
      {fs : List FieldPoll} {e : Str} {file_name : Option Str} {cs : List ChunkPoll}
      → BadFields fs e
      → BadFields (field none file_name cs ∷ fs) e
  bad_after_named :
      {fs : List FieldPoll} {e name bytes : Str} {file_name : Option Str} {cs : List ChunkPoll}
      → Chunks cs bytes
      → BadFields fs e
      → BadFields (field (some name) file_name cs ∷ fs) e

read_chunks_lem :
    (acc : Str) (cs : List ChunkPoll)
    → ((s : Str) × Chunks cs s × (read_chunks acc cs ≡ done (acc ++ s)))
      ⊎ ((e : Str) × BadChunks cs e × (read_chunks acc cs ≡ stopped e))
unfolding read_chunks
read_chunks_lem acc [] = inl ([], no_chunk, ap done (sym (append-nil acc)))
read_chunks_lem acc (bad_chunk e ∷ cs) = inr (e, bad_here, refl)
read_chunks_lem acc (chunk bytes ∷ cs) = elim (read_chunks_lem (acc ++ bytes) cs) [
  | inl (s, all, f) ↦ inl (bytes ++ s, one_chunk bytes all, f ∙ ap done (append_assoc acc bytes s))
  | inr (e, bad, f) ↦ inr (e, bad_later bad, f)
]

-- The value of the last entry of a name.
abbrev pub last_of : Str → Map JsonValue → Option JsonValue
last_of name [] = none
last_of name ((k, v) ∷ es) =
    let rest = last_of name es in or_else rest (if str_eq k name then some v else none)

-- An object has, under each name, the value of the last entry, or what `before` has.
abbrev pub Gathers : Map JsonValue → Map JsonValue → Map JsonValue → Type 0
Gathers before es object =
    (name : Str) → lookup name object ≡ or_else (last_of name es) (lookup name before)

Gathers-insert :
    (k : Str) (v : JsonValue) (before es object : Map JsonValue)
    → Gathers (insert k v before) es object
    → Gathers before ((k, v) ∷ es) object
Gathers-insert k v before es object h name = h name ∙ elim (Option-cases (last_of name es)) [
  | inl missing ↦
      rw (missing, lookup-insert k name v before)
        (elim (Bool-cases (str_eq k name)) [ inl same ↦ rw same | inr other ↦ rw other ])
  | inr (w, found) ↦ rw found
]

read_fields_lem :
    (before : Map JsonValue) (fs : List FieldPoll)
    → ((es object : Map JsonValue) × Fields fs es
        × (read_fields before fs ≡ done object)
        × Gathers before es object)
      ⊎ ((e : Str) × BadFields fs e × (read_fields before fs ≡ stopped e))
unfolding read_fields
read_fields_lem before [] = inl ([], before, no_field, refl, λ name. refl)
read_fields_lem before (bad_field e ∷ fs) = inr (e, bad_one, refl)
read_fields_lem before (field none file_name cs ∷ fs) = elim (read_fields_lem before fs) [
  | inl (es, object, all, f, h) ↦ inl (es, object, unnamed all, f, h)
  | inr (e, bad, f) ↦ inr (e, bad_after_unnamed bad, f)
]
read_fields_lem before (field (some name) file_name cs ∷ fs) = elim (read_chunks_lem [] cs) [
  | inr (e, bad, f) ↦ inr (e, bad_one_chunk bad, rw (f, read_fields))
  | inl (bytes, chunks, f) ↦
      elim (read_fields_lem (insert name (json_of file_name bytes) before) fs) [
        | inl (es, object, all, g, h) ↦ inl (
          (name, json_of file_name bytes) ∷ es,
          object,
          named chunks all,
          rw (f, read_fields) g,
          Gathers-insert name (json_of file_name bytes) before es object h,
        )
        | inr (e, bad, g) ↦ inr (e, bad_after_named chunks bad, rw (f, read_fields) g)
      ]
]

-- A multipart body becomes an object that has, under each name, the value of the last field of that
-- name, and serde_json makes the message of it; where multer reports an error, for a field or for a
-- chunk of a field with a name, the first such error is the error of the whole.
pub parse_body-Fields :
    {T : Type 0} (bodies : BodyApi T) (codec : Codec T) (api : HeaderApi) (headers : api.Headers)
    (body content_type boundary : Str)
    → content_type_header api headers ≡ some content_type
    → starts_with content_type (lit "multipart/form-data") ≡ true
    → bodies.parse_boundary content_type ≡ done boundary
    → ((es object : Map JsonValue) × Fields (bodies.fields body boundary) es
        × (parse_body bodies codec api headers body ≡ or_encoding (bodies.from_value object))
        × ((name : Str) → lookup name object ≡ last_of name es))
      ⊎ ((e : Str) × BadFields (bodies.fields body boundary) e
          × (parse_body bodies codec api headers body ≡ raised (encoding e)))
unfolding parse_body parse_multipart lookup
parse_body-Fields bodies codec api headers body content_type boundary h multipart b =
    elim (read_fields_lem [] (bodies.fields body boundary)) [
      | inl (es, object, all, f, g) ↦ inl (
        es,
        object,
        all,
        rw (h, multipart, b, f, parse_body),
        λ name. g name ∙ or_else-none (last_of name es),
      )
      | inr (e, bad, f) ↦ inr (e, bad, rw (h, multipart, b, f, parse_body))
    ]
