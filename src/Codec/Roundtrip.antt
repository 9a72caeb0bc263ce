-- ===== src/Codec/Roundtrip.antt =====
-- What is encoded for a client is decoded from the content type of the answer.
use grpc_gateway_rust.Prelude.{
  ◌≡◌, refl, true, false, Bool-cases, inl, inr, Option, none, some, Str, lit, str_eq, contains,
}
use grpc_gateway_rust.Codec.{
  returned, Codec, MultimediaCodec, names_protobuf, content_type_of, encode_as, decode_as,
}

-- A codec reads back what it wrote, whatever the media types are.
pub record IsFaithful {T : Type 0} (codec : Codec T) : Type 0 where
  pub reads :
      (val : T) (bytes : Str) (m n : Option Str)
      → codec.encode val m ≡ returned bytes
      → codec.decode bytes n ≡ returned val

pub protobuf_name : names_protobuf (lit "application/octet-stream") ≡ true
unfolding contains
protobuf_name = refl

pub json_name : names_protobuf (lit "application/json") ≡ false
unfolding contains
json_name = refl

-- What the codec encodes for a value of `Accept` is decoded to the same message from the content
-- type that the codec announces for that value, if each of the two formats reads back what it wrote.
pub decode_as-encode_as :
    {T : Type 0} (codec : MultimediaCodec T) (val : T) (accept : Option Str) (bytes : Str)
    → IsFaithful codec.json
    → IsFaithful codec.proto
    → encode_as codec val accept ≡ returned bytes
    → decode_as codec bytes (some (content_type_of accept)) ≡ returned val
unfolding encode_as decode_as content_type_of str_eq
decode_as-encode_as codec val none bytes json proto h = rw json_name (json.reads val bytes none _ h)
decode_as-encode_as codec val (some accept) bytes json proto h =
    elim (Bool-cases (names_protobuf accept)) [
      | inl binary ↦
          rw (binary, protobuf_name) (proto.reads val bytes (some accept) _ (rw binary at h))
      | inr text ↦ rw (text, json_name) (json.reads val bytes (some accept) _ (rw text at h))
    ]
