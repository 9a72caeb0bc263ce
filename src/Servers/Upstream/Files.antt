-- ===== src/Servers/Upstream/Files.antt =====
-- examples/src/a_bit_of_everything/grpc.rs, `MyStoredFileService`, with its messages of
-- examples/proto/examplemultipart/stored_file_service.proto and google/api/httpbody.proto.
use grpc_gateway_rust.Prelude.{
  ℕ, zero, suc, ◌%◌, List, [], ◌∷◌, ◌++◌, map, length, Str, lit, Attempt, done, u64_mod,
}
use grpc_gateway_rust.Http.{Status}
use grpc_gateway_rust.Generator.Emitted.{GrpcRequest}

pub record CreateFileRequest : Type 0 where
  pub filename : Str
  pub content : Str
  pub content_type : Str

-- `size_bytes` is an `i64`, kept as its bit pattern.
pub record StoredFile : Type 0 where
  pub identifier : ℕ
  pub original_file_name : Str
  pub mime_type : Str
  pub size_bytes : ℕ
  pub file_storage_name : Str
  pub file_path : Str

-- `contents` is the field `data`.
pub record HttpBody (Any : Type 0) : Type 0 where
  pub content_type : Str
  pub contents : Str
  pub extensions : List Any

-- The rest of a chunk, which takes `room` further elements, and the chunks after it, each of one
-- element and `more`.
unfoldable pub chunks_after {ℓ} : {A : Type ℓ} → ℕ → ℕ → List A → List A → List (List A)
chunks_after more room chunk [] = chunk ∷ []
chunks_after more zero chunk (x ∷ xs) = chunk ∷ chunks_after more more (x ∷ []) xs
chunks_after more (suc room) chunk (x ∷ xs) = chunks_after more room (chunk ++ (x ∷ [])) xs

-- `slice::chunks(more + 1)`
unfoldable pub chunks {ℓ} : {A : Type ℓ} → ℕ → List A → List (List A)
unfolding chunks_after
chunks more [] = []
chunks more (x ∷ xs) = chunks_after more more (x ∷ []) xs

abbrev pub stored_content : Str
stored_content = lit "Hello, streamed world!"

abbrev pub file_chunk : {Any : Type 0} → Str → HttpBody Any
file_chunk chunk = record { content_type = lit "text/plain"; contents = chunk; extensions = [] }

module _ {M : Type 0} where
  abbrev pub create_stored_file : GrpcRequest CreateFileRequest M → Attempt Status StoredFile
  create_stored_file request = done (record {
    original_file_name = request.message.filename;
    mime_type = request.message.content_type;
    size_bytes = length request.message.content % u64_mod;
    file_storage_name = lit "stored-uuid-123";
    file_path = lit "/tmp/stored-uuid-123";
    identifier = 12345;
  })

  -- What the task sends into the channel whose receiver is the stream, as long as that is open.
  unfoldable pub download_stored_file :
      {In Any : Type 0} → GrpcRequest In M → Attempt Status (List (Attempt Status (HttpBody Any)))
  unfolding chunks
  download_stored_file request =
      done (map (λ chunk. done (file_chunk chunk)) (chunks 4 stored_content))
