-- ===== src/Codec/Reading.antt =====
-- A JSON codec reads what it writes, and the default codec of the gateway too.
use grpc_gateway_rust.Prelude.{
  ◌≡◌, refl, ◌||◌, not, true, inl, inr, Bool-cases, Option, some, [], ◌∷◌, Str, All, is_empty, ℕ,
  ◌==◌, done, stopped, Attempt,
}
use grpc_gateway_rust.Codec.{returned, content_type_of, encode_as, decode_as}
use grpc_gateway_rust.Codec.Roundtrip.{IsFaithful, decode_as-encode_as}
use grpc_gateway_rust.Codec.Formats.{
  Prost, Serde, JsonCodec, new_json, encoding_result, chosen_indent, protobuf_codec, json_text,
  json_codec, default_multimedia,
}

-- The white space of JSON.
abbrev pub IsSpace : ℕ → Type 0
IsSpace c = ((c == b' ') || (c == b'\t') || (c == b'\n') || (c == b'\r')) ≡ true

-- serde_json reads back what it writes, also with an indent of white space.
pub record IsReadable {T : Type 0} (serde : Serde T) : Type 0 where
  pub reads :
      (val : T) (bytes : Str) → serde.to_writer val ≡ done bytes → serde.from_slice bytes ≡ done val
  pub reads_indented :
      (indent : Str) (val : T) (bytes : Str)
      → All IsSpace indent
      → serde.serialize_with_indent indent val ≡ done bytes
      → serde.from_slice bytes ≡ done val

-- prost decodes what it encodes.
abbrev pub IsDecodable : {T : Type 0} → Prost T → Type 0
IsDecodable {T} prost =
    (val : T) (bytes : Str)
    → prost.encode_message val ≡ done bytes
    → prost.decode_message bytes ≡ done val

encoding_result-returned :
    {A : Type 0} (a : Attempt Str A) (b : A) → encoding_result a ≡ returned b → a ≡ done b
encoding_result-returned (done a) b h = cc h
encoding_result-returned (stopped e) b h = cc h

chosen_indent-IsSpace : (indent : Str) → All IsSpace indent → All IsSpace (chosen_indent indent)
chosen_indent-IsSpace [] h = (refl, (refl, tt))
chosen_indent-IsSpace (c ∷ s) h = h

-- A JSON codec reads what it writes, whatever the options and the media types are: for an indent of
-- white space, and if serde_json reads back what it writes with such an indent and without one.
pub json_codec-IsFaithful :
    {T : Type 0} (serde : Serde T) (codec : JsonCodec)
    → IsReadable serde
    → All IsSpace codec.encoder_opts.indent
    → IsFaithful (json_codec serde codec)
unfolding json_codec json_text
json_codec-IsFaithful {T} serde codec h spaces = record { reads = faithful }
  where
    faithful :
        (val : T) (bytes : Str) (m n : Option Str)
        → (json_codec serde codec).encode val m ≡ returned bytes
        → (json_codec serde codec).decode bytes n ≡ returned val
    faithful val bytes m n e =
        let text = encoding_result-returned (json_text serde codec.encoder_opts val) bytes e in
        elim (Bool-cases
          (codec.encoder_opts.pretty_print || not (is_empty codec.encoder_opts.indent))) [
            | inl pretty ↦
                rw
                  (h.reads_indented (chosen_indent codec.encoder_opts.indent) val bytes
                    (chosen_indent-IsSpace codec.encoder_opts.indent spaces)
                    (rw (pretty, json_text) at text))
                  refl
            | inr compact ↦ rw (h.reads val bytes (rw (compact, json_text) at text)) refl
          ]

protobuf_codec-IsFaithful :
    {T : Type 0} (prost : Prost T) → IsDecodable prost → IsFaithful (protobuf_codec prost)
unfolding protobuf_codec
protobuf_codec-IsFaithful {T} prost h = record { reads = faithful }
  where
    faithful :
        (val : T) (bytes : Str) (m n : Option Str)
        → (protobuf_codec prost).encode val m ≡ returned bytes
        → (protobuf_codec prost).decode bytes n ≡ returned val
    faithful val bytes m n e =
        rw (h val bytes (encoding_result-returned (prost.encode_message val) bytes e)) refl

-- The default codec of the gateway reads, from the content type that it announces for a value of
-- `Accept`, what it wrote for that value: if serde_json and prost read back what they write.
pub default_multimedia-decode_as :
    {T : Type 0} (serde : Serde T) (prost : Prost T) (val : T) (accept : Option Str) (bytes : Str)
    → IsReadable serde
    → IsDecodable prost
    → encode_as (default_multimedia serde prost) val accept ≡ returned bytes
    → decode_as (default_multimedia serde prost) bytes (some (content_type_of accept))
      ≡ returned val
default_multimedia-decode_as serde prost val accept bytes h k =
    decode_as-encode_as (default_multimedia serde prost) val accept bytes
      (json_codec-IsFaithful serde new_json h tt) (protobuf_codec-IsFaithful prost k)
