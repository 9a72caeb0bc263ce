-- ===== src/Servers/Upstream/Download.antt =====
-- examples/src/a_bit_of_everything/grpc.rs and gateway-runtime/src/forward.rs: a file that is downloaded
-- through the gateway.
mod Examples
use mathlib.Core.List.{append_assoc}
use grpc_gateway_rust.Prelude.{
  ℕ, zero, suc, ◌≡◌, refl, sym, ap, ◌∙◌, subst, Option, some, List, [], ◌∷◌, ◌++◌, map, Str, lit,
  str_eq_refl, Attempt, done, stopped,
}
use grpc_gateway_rust.Http.{HeaderApi, Status, one_value}
use grpc_gateway_rust.Http.Message.{
  Request, Response, success, Body, pending, frame, failed, data_frame,
}
use grpc_gateway_rust.Errors.{upstream}
use grpc_gateway_rust.Codec.{
  returned, MultimediaCodec, content_type_of, encode_as, decode_as, as_codec,
}
use grpc_gateway_rust.Codec.Roundtrip.{IsFaithful}
use grpc_gateway_rust.Forward.{
  StreamPoll, waiting, received, broken, stream_body, accept_of, build, forward_response_stream,
}
use grpc_gateway_rust.Forward.Answers.{reads_back, build_lem}
use grpc_gateway_rust.Generator.Emitted.{GrpcRequest}
use grpc_gateway_rust.Servers.Upstream.Files.{
  HttpBody, chunks_after, chunks, stored_content, file_chunk, download_stored_file,
}

-- What gRPC promises of a stream: the client polls the items that the server sends, in order, with
-- waits in between; an error ends it.
pub data Carries {T : Type 0} : List (Attempt Status T) → List (StreamPoll T) → Type 0 where
  ended : Carries [] []
  waits :
      {items : List (Attempt Status T)} {ps : List (StreamPoll T)}
      → Carries items ps
      → Carries items (waiting ∷ ps)
  arrives :
      {msg : T} {items : List (Attempt Status T)} {ps : List (StreamPoll T)}
      → Carries items ps
      → Carries (done msg ∷ items) (received msg ∷ ps)
  breaks :
      {s : Status} {items : List (Attempt Status T)} → Carries (stopped s ∷ items) (broken s ∷ [])

-- What an HTTP client that knows the codec reads from a body, frame by frame.
pub data Reads {T : Type 0} (codec : MultimediaCodec T) (content_type : Str)
    : Body → List (Attempt Status T) → Type 0 where
  finished : Reads codec content_type [] []
  idle :
      {b : Body} {items : List (Attempt Status T)}
      → Reads codec content_type b items
      → Reads codec content_type (pending ∷ b) items
  decoded :
      {bytes : Str} {msg : T} {b : Body} {items : List (Attempt Status T)}
      → decode_as codec bytes (some content_type) ≡ returned msg
      → Reads codec content_type b items
      → Reads codec content_type (frame (data_frame bytes) ∷ b) (done msg ∷ items)
  interrupted :
      {s : Status} {items : List (Attempt Status T)}
      → Reads codec content_type (failed (upstream s) ∷ []) (stopped s ∷ items)

module _ {T : Type 0} (codec : MultimediaCodec T) (json : IsFaithful codec.json)
    (proto : IsFaithful codec.proto)
    (encodes : (msg : T) (content_type : Option Str)
      → (bytes : Str) × (encode_as codec msg content_type ≡ returned bytes))
    (accept : Option Str) where
  stream_body-Reads :
      {items : List (Attempt Status T)} {ps : List (StreamPoll T)}
      → Carries items ps
      → Reads codec
          (content_type_of accept)
          (stream_body (as_codec codec) (content_type_of accept) ps)
          items
  stream_body-Reads ended = finished
  stream_body-Reads (waits c) = idle (stream_body-Reads c)
  stream_body-Reads (arrives {msg = msg} c) =
      let (bytes, encoded) = encodes msg (some (content_type_of accept)) in
      rw encoded
        (decoded (reads_back codec json proto msg accept bytes encoded) (stream_body-Reads c))
  stream_body-Reads breaks = interrupted

-- The contents that a client reads, one after the other.
abbrev pub contents_of : {Any : Type 0} → List (Attempt Status (HttpBody Any)) → Str
contents_of [] = []
contents_of (done part ∷ items) = part.contents ++ contents_of items
contents_of (stopped s ∷ items) = contents_of items

module _ (Any : Type 0) where
  abbrev sends : List Str → List (Attempt Status (HttpBody Any))
  sends parts = map (λ chunk. done (file_chunk chunk)) parts

  chunks_after-contents_of :
      (more room : ℕ) (chunk rest : Str)
      → contents_of (sends (chunks_after more room chunk rest)) ≡ chunk ++ rest
  unfolding chunks_after
  chunks_after-contents_of more room chunk [] = refl
  chunks_after-contents_of more zero chunk (x ∷ xs) =
      ap (λ later. chunk ++ later) (chunks_after-contents_of more more (x ∷ []) xs)
  chunks_after-contents_of more (suc room) chunk (x ∷ xs) =
      chunks_after-contents_of more room (chunk ++ (x ∷ [])) xs ∙ append_assoc chunk (x ∷ []) xs

  -- Cutting a text into chunks loses nothing of it.
  chunks-contents_of : (more : ℕ) (text : Str) → contents_of (sends (chunks more text)) ≡ text
  unfolding chunks
  chunks-contents_of more [] = refl
  chunks-contents_of more (x ∷ xs) = chunks_after-contents_of more more (x ∷ []) xs

module _ (api : HeaderApi) (to_value : Str → Option Str) (invalid : Str) {Any In M N : Type 0}
    (codec : MultimediaCodec (HttpBody Any)) (json : IsFaithful codec.json)
    (proto : IsFaithful codec.proto)
    (encodes : (part : HttpBody Any) (content_type : Option Str)
      → (bytes : Str) × (encode_as codec part content_type ≡ returned bytes))
    (accepted : (accept : Option Str)
      → to_value (content_type_of accept) ≡ some (content_type_of accept)) where
  -- A stored file that is downloaded through the gateway arrives: for every way in which the stream of
  -- the gRPC method reaches the gateway, with waits anywhere, the gateway answers with status 200 and
  -- one content type, and the body, read frame by frame with that content type, gives the chunks that
  -- the method sends, in order, whose contents make up the file. For a codec that encodes every
  -- chunk and of which each format reads back what it wrote, where the two media types are values of
  -- headers.
  pub download_stored_file-Reads :
      (call : GrpcRequest In M) (items : List (Attempt Status (HttpBody Any)))
      (ps : List (StreamPoll (HttpBody Any))) (req : Request api.Headers N)
      → download_stored_file call ≡ done items
      → Carries items ps
      → (content_type : Str) × (resp : Response api.Headers) × (forward_response_stream api to_value
            invalid
            (as_codec codec)
            ps
            req
          ≡ success resp)
        × (resp.status ≡ 200)
        × (api.get_all (lit "content-type") resp.headers ≡ one_value content_type)
        × Reads codec content_type resp.body items
        × (contents_of items ≡ stored_content)
  unfolding download_stored_file forward_response_stream
  download_stored_file-Reads call items ps req sent carried =
      let accept = accept_of api req in
      let ct = content_type_of accept in
      let body = stream_body (as_codec codec) ct ps in
      let is_sent : sends Any (chunks 4 stored_content) ≡ items = cc sent in
      let (resp, e, status, header, is_body) =
        build_lem api to_value invalid ct body (accepted accept) in
      (
        ct,
        resp,
        e,
        status,
        header,
        subst (λ b. Reads codec ct b items) (sym is_body)
            (stream_body-Reads codec json proto encodes accept carried),
        ap contents_of (sym is_sent) ∙ chunks-contents_of Any 4 stored_content,
      )
