-- ===== src/Servers/Upstream/Download/Examples.antt =====
-- The download of the example file, with a wait after its first chunk.
use grpc_gateway_rust.Prelude.{
  ℕ, ◌≡◌, refl, subst, inl, inr, Bool-cases, Option, some, List, [], ◌∷◌, ◌++◌, map, length, take,
  drop, take-length, drop-length, Str, lit, str_eq, Attempt, done,
}
use grpc_gateway_rust.Http.{Status, one_value}
use grpc_gateway_rust.Http.Concrete.{list_headers}
use grpc_gateway_rust.Http.Message.{Response, success}
use grpc_gateway_rust.Errors.{custom}
use grpc_gateway_rust.Codec.{
  Result, returned, raised, Codec, MultimediaCodec, as_codec, encode_as, content_type_of,
}
use grpc_gateway_rust.Codec.Roundtrip.{IsFaithful}
use grpc_gateway_rust.Layers.Examples.{Headers, a_request}
use grpc_gateway_rust.Forward.{StreamPoll, waiting, received, forward_response_stream}
use grpc_gateway_rust.Generator.Emitted.{GrpcRequest}
use grpc_gateway_rust.Servers.Upstream.Files.{
  HttpBody, chunks, chunks_after, stored_content, file_chunk, download_stored_file,
}
use grpc_gateway_rust.Servers.Upstream.Download.{
  ended, waits, arrives, Reads, contents_of, download_stored_file-Reads,
}

-- A format that writes the lengths first; an extension is a number.
abbrev written : HttpBody ℕ → Str
written part =
    length part.content_type
    ∷ length part.extensions
    ∷ (part.content_type ++ (part.extensions ++ part.contents))

abbrev read_part : Str → Result (HttpBody ℕ)
read_part (n ∷ k ∷ s) = returned (record {
  content_type = take n s;
  contents = drop k (drop n s);
  extensions = take k (drop n s);
})
read_part s = raised (custom 400 (lit "too short"))

abbrev part_format : Codec (HttpBody ℕ)
part_format = record {
  encoder_content_type = λ accept. [];
  encode = λ part mime. returned (written part);
  decode = λ bytes mime. read_part bytes;
}

read_part-written : (part : HttpBody ℕ) → read_part (written part) ≡ returned part
read_part-written part =
    rw
      (
        take-length part.content_type (part.extensions ++ part.contents),
        drop-length part.content_type (part.extensions ++ part.contents),
        take-length part.extensions part.contents,
        drop-length part.extensions part.contents,
      )
      refl

part_format-IsFaithful : IsFaithful part_format
part_format-IsFaithful = record {
  reads = λ part bytes m n e.
      let is_written : written part ≡ bytes = cc e in
      subst (λ s. read_part s ≡ returned part) is_written (read_part-written part);
}

abbrev part_codec : MultimediaCodec (HttpBody ℕ)
part_codec = record { json = part_format; proto = part_format }

part_codec-encodes :
    (part : HttpBody ℕ) (content_type : Option Str)
    → (bytes : Str) × (encode_as part_codec part content_type ≡ returned bytes)
unfolding encode_as
part_codec-encodes part content_type =
    elim (Bool-cases (str_eq (content_type_of content_type) (lit "application/octet-stream"))) [
      | inl binary ↦ (written part, rw binary refl)
      | inr text ↦ (written part, rw text refl)
    ]

abbrev a_call : GrpcRequest Str Str
a_call = record { message = []; metadata = [] }

abbrev items : List (Attempt Status (HttpBody ℕ))
items =
    map (λ chunk. done (file_chunk (lit chunk))) ("Hello" ∷ ", str" ∷ "eamed" ∷ " worl" ∷ "d!" ∷ [])

abbrev polls : List (StreamPoll (HttpBody ℕ))
polls =
    received (file_chunk (lit "Hello"))
    ∷ waiting
    ∷ map (λ chunk. received (file_chunk (lit chunk))) (", str" ∷ "eamed" ∷ " worl" ∷ "d!" ∷ [])

download_stored_file-Reads_example :
    (content_type : Str) × (resp : Response Headers) × (forward_response_stream list_headers
        (λ s. some s)
        []
        (as_codec part_codec)
        polls
        a_request
      ≡ success resp)
    × (resp.status ≡ 200)
    × (list_headers.get_all (lit "content-type") resp.headers ≡ one_value content_type)
    × Reads part_codec content_type resp.body items
    × (contents_of items ≡ stored_content)
download_stored_file-Reads_example =
    download_stored_file-Reads list_headers (λ s. some s) [] part_codec part_format-IsFaithful
      part_format-IsFaithful part_codec-encodes (λ accept. refl) a_call items polls a_request
      (unfold download_stored_file chunks chunks_after in refl)
      (arrives (waits (arrives (arrives (arrives (arrives ended))))))
