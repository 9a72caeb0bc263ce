-- ===== src/Forward/Answers.antt =====
-- What a client reads from the response of a message or of a stream.
use grpc_gateway_rust.Prelude.{
  ◌≡◌, refl, ap, ◌∙◌, sym, subst, Bool-cases, Option-cases, ◌⊎◌, inl, inr, Option, none, some, List,
  [], ◌∷◌, Str, lit, str_eq_refl,
}
use grpc_gateway_rust.Http.{HeaderApi, Status, one_value}
use grpc_gateway_rust.Http.Message.{
  Request, Response, success, pending, frame, failed, data_frame, Body,
}
use grpc_gateway_rust.Errors.{GatewayError, upstream}
use grpc_gateway_rust.Codec.{
  Result, returned, raised, MultimediaCodec, names_protobuf, content_type_of, encode_as, decode_as,
  as_codec,
}
use grpc_gateway_rust.Codec.Roundtrip.{IsFaithful, decode_as-encode_as, protobuf_name, json_name}
use grpc_gateway_rust.Forward.{
  StreamPoll, waiting, received, broken, stream_body, accept_of, build, forward_response_message,
  forward_response_stream,
}

pub Result-cases :
    {A : Type 0} (r : Result A)
    → ((a : A) × (r ≡ returned a)) ⊎ ((e : GatewayError) × (r ≡ raised e))
Result-cases (returned a) = inl (a, refl)
Result-cases (raised e) = inr (e, refl)

content_type_of_idempotent :
    (accept : Option Str) → content_type_of (some (content_type_of accept)) ≡ content_type_of accept
unfolding content_type_of
content_type_of_idempotent none = rw json_name
content_type_of_idempotent (some accept) = elim (Bool-cases (names_protobuf accept)) [
  | inl binary ↦ rw (binary, protobuf_name)
  | inr text ↦ rw (text, json_name)
]

module _ {T : Type 0} (codec : MultimediaCodec T) (json : IsFaithful codec.json)
    (proto : IsFaithful codec.proto) where
  -- What is encoded for the announced content type is decoded from it.
  pub reads_back :
      (val : T) (accept : Option Str) (bytes : Str)
      → encode_as codec val (some (content_type_of accept)) ≡ returned bytes
      → decode_as codec bytes (some (content_type_of accept)) ≡ returned val
  reads_back val accept bytes h =
      ap (λ ct. decode_as codec bytes (some ct)) (sym (content_type_of_idempotent accept))
      ∙ decode_as-encode_as codec val (some (content_type_of accept)) bytes json proto h

-- The polls of a body that delivers a stream: each message as a frame that decodes to it, or as the
-- error of its encoding, and an error of the stream as such.
pub data Delivers {T : Type 0} (codec : MultimediaCodec T) (content_type : Str)
    : List (StreamPoll T) → Body → Type 0 where
  finished : Delivers codec content_type [] []
  idle :
      {ps : List (StreamPoll T)} {b : Body}
      → Delivers codec content_type ps b
      → Delivers codec content_type (waiting ∷ ps) (pending ∷ b)
  delivered :
      {msg : T} {bytes : Str} {ps : List (StreamPoll T)} {b : Body}
      → decode_as codec bytes (some content_type) ≡ returned msg
      → Delivers codec content_type ps b
      → Delivers codec content_type (received msg ∷ ps) (frame (data_frame bytes) ∷ b)
  unencodable :
      {msg : T} {e : GatewayError} {ps : List (StreamPoll T)} {b : Body}
      → encode_as codec msg (some content_type) ≡ raised e
      → Delivers codec content_type ps b
      → Delivers codec content_type (received msg ∷ ps) (failed e ∷ b)
  interrupted :
      {s : Status} {ps : List (StreamPoll T)} {b : Body}
      → Delivers codec content_type ps b
      → Delivers codec content_type (broken s ∷ ps) (failed (upstream s) ∷ b)

stream_body-Delivers :
    {T : Type 0} (codec : MultimediaCodec T) (accept : Option Str)
    → IsFaithful codec.json
    → IsFaithful codec.proto
    → (ps : List (StreamPoll T))
    → Delivers codec
        (content_type_of accept)
        ps
        (stream_body (as_codec codec) (content_type_of accept) ps)
stream_body-Delivers codec accept json proto [] = finished
stream_body-Delivers codec accept json proto (waiting ∷ ps) =
    idle (stream_body-Delivers codec accept json proto ps)
stream_body-Delivers codec accept json proto (received msg ∷ ps) =
    elim (Result-cases (encode_as codec msg (some (content_type_of accept)))) [
      | inl (bytes, encoded) ↦ rw encoded (
          delivered (reads_back codec json proto msg accept bytes encoded)
            (stream_body-Delivers codec accept json proto ps))
      | inr (e, refused) ↦
          rw refused (unencodable refused (stream_body-Delivers codec accept json proto ps))
    ]
stream_body-Delivers codec accept json proto (broken s ∷ ps) =
    interrupted (stream_body-Delivers codec accept json proto ps)

module _ (api : HeaderApi) (to_value : Str → Option Str) (invalid : Str) where
  -- The announced content type, where the response could be built.
  build-success :
      (content_type : Str) (b : Body) (resp : Response api.Headers)
      → ((s v : Str) → to_value s ≡ some v → v ≡ s)
      → build api to_value invalid content_type b ≡ success resp
      → (api.get_all (lit "content-type") resp.headers ≡ one_value content_type)
        × (resp.body ≡ b)
        × (resp.status ≡ 200)
  build-success content_type b resp same h = elim (Option-cases (to_value content_type)) [
    | inl refused ↦ absurd (cc (rw (refused, build) at h))
    | inr (v, kept) ↦
        let e = rw (kept, build) at h in
        let name = lit "content-type" in
        let headers : api.insert_header name v api.no_headers ≡ resp.headers = cc e in
        let body : b ≡ resp.body = cc e in
        let status : 200 ≡ resp.status = cc e in
        (
          ap (api.get_all name) (sym headers)
              ∙ api.get_all-insert_header name name v api.no_headers
              ∙ rw (str_eq_refl name) (ap one_value (same content_type v kept)),
          sym body,
          sym status,
        )
  ]

  -- A content type that is a value of headers.
  pub build_lem :
      (content_type : Str) (b : Body)
      → to_value content_type ≡ some content_type
      → (resp : Response api.Headers) × (build api to_value invalid content_type b ≡ success resp)
        × (resp.status ≡ 200)
        × (api.get_all (lit "content-type") resp.headers ≡ one_value content_type)
        × (resp.body ≡ b)
  build_lem content_type b e =
      let name = lit "content-type" in
      (
        record {
          status = 200;
          headers = api.insert_header name content_type api.no_headers;
          body = b;
        },
        rw (e, build) refl,
        refl,
        api.get_all-insert_header name name content_type api.no_headers
            ∙ rw (str_eq_refl name) refl,
        refl,
      )

  -- Where a message is forwarded with a response, that has the status 200 and one content type, and
  -- its body is the bytes of an encoding that the codec decodes, for this content type, to the
  -- message: if each of the two formats reads back what it wrote.
  pub forward_response_message-decode_as :
      {T M : Type 0} (full : Str → Body) (codec : MultimediaCodec T) (msg : T)
      (req : Request api.Headers M) (resp : Response api.Headers)
      → IsFaithful codec.json
      → IsFaithful codec.proto
      → ((s v : Str) → to_value s ≡ some v → v ≡ s)
      → forward_response_message api to_value invalid full (as_codec codec) msg req ≡ success resp
      → (content_type : Str) × (bytes : Str) × (api.get_all (lit "content-type") resp.headers
          ≡ one_value content_type)
        × (resp.body ≡ full bytes)
        × (resp.status ≡ 200)
        × (decode_as codec bytes (some content_type) ≡ returned msg)
  unfolding forward_response_message
  forward_response_message-decode_as full codec msg req resp json proto same h =
      let accept = accept_of api req in
      let ct = content_type_of accept in
      elim (Result-cases (encode_as codec msg (some ct))) [
        | inl (bytes, encoded) ↦
            let (header, body, status) =
              build-success ct (full bytes) resp same (rw encoded at h) in
            (ct, bytes, header, body, status, reads_back codec json proto msg accept bytes encoded)
        | inr (e, refused) ↦ absurd (cc (rw refused at h))
      ]

  -- Where a stream is forwarded with a response, that has the status 200 and one content type, and
  -- its body delivers the stream poll by poll: each message as a frame that the codec decodes, for
  -- this content type, to the message, or as the error of its encoding, and an error of the stream
  -- as such. The stream is not collected first.
  pub forward_response_stream-Delivers :
      {T M : Type 0} (codec : MultimediaCodec T) (stream : List (StreamPoll T))
      (req : Request api.Headers M) (resp : Response api.Headers)
      → IsFaithful codec.json
      → IsFaithful codec.proto
      → ((s v : Str) → to_value s ≡ some v → v ≡ s)
      → forward_response_stream api to_value invalid (as_codec codec) stream req ≡ success resp
      → (content_type : Str) × (api.get_all (lit "content-type") resp.headers
          ≡ one_value content_type)
        × (resp.status ≡ 200)
        × Delivers codec content_type stream resp.body
  unfolding forward_response_stream
  forward_response_stream-Delivers codec stream req resp json proto same h =
      let accept = accept_of api req in
      let ct = content_type_of accept in
      let (header, body, status) =
        build-success ct (stream_body (as_codec codec) ct stream) resp same h in
      (
        ct,
        header,
        status,
        subst (Delivers codec ct stream) (sym body)
            (stream_body-Delivers codec accept json proto stream),
      )
