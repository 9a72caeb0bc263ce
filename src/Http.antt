-- ===== src/Http.antt =====
-- What the code uses of the crates `http`, `tonic`, `serde_json` and `percent-encoding`: header maps,
-- gRPC metadata, requests and responses. The crates are not part of the repository, so they are an
-- interface: the operations that the code calls, with what their documentation states of them.
pub mod Message
pub mod Concrete
pub mod LastValue
use grpc_gateway_rust.Prelude.{
  ◌≡◌, ℕ, Bool, true, Option, none, some, List, [], ◌∷◌, Str, Map, lit, str_eq, if◌then◌else◌,
  to_lowercase, leb, ltb, ◌&&◌,
}

abbrev pub one_value : Str → List Str
one_value v = v ∷ []

-- The values under a name, in order.
abbrev pub values_of : Str → List (Str × Str) → List Str
values_of k [] = []
values_of k ((j, v) ∷ es) = let rest = values_of k es in if str_eq j k then v ∷ rest else rest

-- `http::HeaderMap`: names with their values in order; `insert` replaces every value of its name.
pub record HeaderApi : Type 1 where
  pub Headers : Type 0
  pub no_headers : Headers
  pub entries : Headers → List (Str × Str)
  pub get_all : Str → Headers → List Str
  pub insert_header : Str → Str → Headers → Headers
  pub remove_header : Str → Headers → Headers
  -- `HeaderName::from_bytes`
  pub parse_name : Str → Option Str
  -- `HeaderValue::to_str`
  pub to_str : Str → Option Str
  -- `StatusCode::from_u16`
  pub from_u16 : ℕ → Option ℕ
  pub get_all-no_headers : (k : Str) → get_all k no_headers ≡ []
  pub get_all-insert_header :
      (k j v : Str) (h : Headers)
      → get_all j (insert_header k v h) ≡ (if str_eq k j then one_value v else get_all j h)
  pub get_all-remove_header :
      (k j : Str) (h : Headers)
      → get_all j (remove_header k h) ≡ (if str_eq k j then [] else get_all j h)
  -- A name is normalised to lower case.
  pub parse_name-to_lowercase : (s t : Str) → parse_name s ≡ some t → t ≡ to_lowercase s
  pub from_u16_range : (c : ℕ) → from_u16 c ≡ (if leb 100 c && ltb c 1000 then some c else none)
  pub get_all-entries : (k : Str) (h : Headers) → get_all k h ≡ values_of k (entries h)

-- `tonic::metadata::MetadataMap`: entries with an ASCII or a binary key; the value of one insertion.
pub data MetadataKind : Type 0 where
  ascii binary : MetadataKind

pub record MetadataEntry : Type 0 where
  pub kind : MetadataKind
  pub key : Str
  pub value : Str

-- `tonic::Code`
pub data Code : Type 0 where
  ok cancelled unknown invalid_argument deadline_exceeded not_found already_exists permission_denied
        resource_exhausted failed_precondition aborted out_of_range unimplemented internal
        unavailable data_loss unauthenticated :
      Code

-- `tonic::Status`
pub record Status : Type 0 where
  pub code : Code
  pub message : Str

-- The values under a key, in order.
abbrev pub entry_values : Str → List MetadataEntry → List Str
entry_values k [] = []
entry_values k (e ∷ es) =
    let rest = entry_values k es in if str_eq e.key k then e.value ∷ rest else rest

-- `tonic::metadata::MetadataMap`. `insert` and `insert_bin` (`put_entry`) replace every value of the
-- key; `get` and `get_bin` (`get_entry`) return the first.
pub record MetadataApi : Type 1 where
  pub Metadata : Type 0
  pub no_entries : Metadata
  pub is_empty_metadata : Metadata → Bool
  pub metadata_entries : Metadata → List MetadataEntry
  pub get_entry : Str → Metadata → Option Str
  pub put_entry : MetadataEntry → Metadata → Metadata
  -- `MetadataKey::from_bytes`, for a binary and for an ASCII key
  pub parse_key : MetadataKind → Str → Option Str
  -- `MetadataValue::try_from`, for an ASCII value
  pub parse_ascii : Str → Option Str
  pub get_entry-no_entries : (k : Str) → get_entry k no_entries ≡ none
  pub get_entry-put_entry :
      (k : Str) (e : MetadataEntry) (m : Metadata)
      → get_entry k (put_entry e m) ≡ (if str_eq e.key k then some e.value else get_entry k m)
  pub is_empty_metadata-entries :
      (m : Metadata) → is_empty_metadata m ≡ true → metadata_entries m ≡ []
