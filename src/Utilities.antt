-- ===== src/Utilities.antt =====
-- gateway-runtime/src/utilities.rs: how the body of a request becomes a message. The service behind a
-- mutex is in a child.
pub mod Sharing
pub mod Multipart
pub mod Laws
pub mod Examples
use grpc_gateway_rust.Prelude.{
  ℕ, Bool, true, false, Option, none, some, List, [], ◌∷◌, ◌++◌, Str, Map, lit, insert, is_empty,
  is_utf8, starts_with, if◌then◌else◌, ◌>>=◌, Attempt, done, stopped, ◌>>=!◌,
}
use grpc_gateway_rust.Http.{HeaderApi}
use grpc_gateway_rust.Errors.{GatewayError, encoding}
use grpc_gateway_rust.Codec.{Result, returned, raised, Codec}
use grpc_gateway_rust.Defaults.{first}

-- `value.parse()`
abbrev pub parse_path_param : {T E : Type 0} → (Str → Attempt E T) → Str → Attempt E T
parse_path_param parse value = parse value

-- What `Field::chunk` and `Multipart::next_field` of the crate multer return, one after the other: an
-- error as its display text, and a stream as what it returns before its end.
pub data ChunkPoll : Type 0 where
  chunk : Str → ChunkPoll
  bad_chunk : Str → ChunkPoll

pub data FieldPoll : Type 0 where
  -- The name, the file name, and the chunks.
  field : Option Str → Option Str → List ChunkPoll → FieldPoll
  bad_field : Str → FieldPoll

-- The values of serde_json that the code makes.
pub data JsonValue : Type 0 where
  array : List ℕ → JsonValue
  string : Str → JsonValue

-- What the code calls of multer, and of serde_json at the type of the message.
pub record BodyApi (T : Type 0) : Type 0 where
  pub parse_boundary : Str → Attempt Str Str
  pub fields : Str → Str → List FieldPoll
  pub from_value : Map JsonValue → Attempt Str T

-- The loop over the chunks of a field.
unfoldable pub read_chunks : Str → List ChunkPoll → Attempt Str Str
read_chunks data_read [] = done data_read
read_chunks data_read (bad_chunk e ∷ rest) = stopped e
read_chunks data_read (chunk bytes ∷ rest) = read_chunks (data_read ++ bytes) rest

-- A file is an array of numbers, and so is what is not UTF-8.
abbrev pub json_of : Option Str → Str → JsonValue
json_of (some file_name) bytes = array bytes
json_of none bytes = if is_utf8 bytes then string bytes else array bytes

-- The loop over the fields; a field without a name is not read.
unfoldable pub read_fields : Map JsonValue → List FieldPoll → Attempt Str (Map JsonValue)
unfolding read_chunks
read_fields map_read [] = done map_read
read_fields map_read (bad_field e ∷ rest) = stopped e
read_fields map_read (field none file_name chunks ∷ rest) = read_fields map_read rest
read_fields map_read (field (some name) file_name chunks ∷ rest) = elim (read_chunks [] chunks) [
  | stopped e ↦ stopped e
  | done bytes ↦ read_fields (insert name (json_of file_name bytes) map_read) rest
]

-- `map_err(|e| GatewayError::Encoding(Box::new(e)))`
abbrev pub or_encoding : {A : Type 0} → Attempt Str A → Result A
or_encoding (done a) = returned a
or_encoding (stopped e) = raised (encoding e)

unfoldable pub content_type_header : (api : HeaderApi) → api.Headers → Option Str
content_type_header api headers = first (api.get_all (lit "content-type") headers) >>= api.to_str

abbrev pub or_empty : Option Str → Str
or_empty none = []
or_empty (some s) = s

abbrev pub non_empty : Str → Option Str
non_empty s = if is_empty s then none else some s

module _ {T : Type 0} (bodies : BodyApi T) (codec : Codec T) where
  unfoldable pub parse_multipart : Str → Str → Result T
  unfolding read_fields
  parse_multipart content_type body = or_encoding (
      bodies.parse_boundary content_type
      >>=! (λ boundary. read_fields [] (bodies.fields body boundary) >>=! bodies.from_value))

  unfoldable pub parse_body : (api : HeaderApi) → api.Headers → Str → Result T
  unfolding parse_multipart content_type_header
  parse_body api headers body =
      let content_type = or_empty (content_type_header api headers) in
      if starts_with content_type (lit "multipart/form-data")
      then parse_multipart content_type body
      else codec.decode body (non_empty content_type)

-- Without the standard library a multipart body goes to the codec too.
unfoldable pub parse_body_no_std :
    {T : Type 0} → Codec T → (api : HeaderApi) → api.Headers → Str → Result T
unfolding content_type_header
parse_body_no_std codec api headers body = codec.decode body (content_type_header api headers)
