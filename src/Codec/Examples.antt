-- ===== src/Codec/Examples.antt =====
-- The theorem on codecs at a codec of texts, whose two formats differ in their first byte.
use grpc_gateway_rust.Prelude.{
  Attempt, done, stopped, sym, ◌≡◌, refl, Option, ℕ, some, [], ◌∷◌, Str, lit, contains, str_eq,
}
use grpc_gateway_rust.Errors.{encoding}
use grpc_gateway_rust.Codec.{
  Result, returned, raised, Codec, MultimediaCodec, content_type_of, encode_as, decode_as,
}
use grpc_gateway_rust.Codec.Roundtrip.{IsFaithful}
use grpc_gateway_rust.Codec.Formats.{Serde, Prost, protobuf_codec, default_multimedia}
use grpc_gateway_rust.Codec.Reading.{IsReadable, IsDecodable, default_multimedia-decode_as}

abbrev pub drop_tag : Str → Result Str
drop_tag [] = raised (encoding [])
drop_tag (c ∷ s) = returned s

abbrev pub tagged : ℕ → Codec Str
tagged tag = record {
  encoder_content_type = λ accept. [];
  encode = λ val mime. returned (tag ∷ val);
  decode = λ buf mime. drop_tag buf;
}

pub tagged-IsFaithful : (tag : ℕ) → IsFaithful (tagged tag)
tagged-IsFaithful tag = record { reads = reads }
  where
    reads :
        (val bytes : Str) (m n : Option Str)
        → returned (tag ∷ val) ≡ returned bytes
        → drop_tag bytes ≡ returned val
    reads val [] m n h = absurd (cc h)
    reads val (c ∷ s) m n h = cc h

abbrev pub a_codec : MultimediaCodec Str
a_codec = record { json = tagged b'j'; proto = tagged b'p' }

abbrev pub drop_first : Str → Attempt Str Str
drop_first [] = stopped []
drop_first (c ∷ s) = done s

-- A JSON text is the text itself, and an indent goes before it.
abbrev pub a_serde : Serde Str
a_serde = record {
  to_writer = λ val. done val;
  serialize_with_indent = λ indent val. done val;
  from_slice = λ bytes. done bytes;
}

abbrev pub a_prost : Prost Str
a_prost = record { encode_message = λ val. done (b'p' ∷ val); decode_message = drop_first }

pub a_serde-IsReadable : IsReadable a_serde
a_serde-IsReadable = record {
  reads = λ val bytes h. sym h;
  reads_indented = λ indent val bytes spaces h. sym h;
}

pub a_prost-IsDecodable : IsDecodable a_prost
a_prost-IsDecodable val [] h = absurd (cc h)
a_prost-IsDecodable val (c ∷ s) h = cc h

default_multimedia-decode_as_example :
    decode_as
      (default_multimedia a_serde a_prost)
      (b'p' ∷ lit "x")
      (some (content_type_of (some (lit "application/x-protobuf"))))
    ≡ returned (lit "x")
default_multimedia-decode_as_example =
    default_multimedia-decode_as a_serde a_prost (lit "x") (some (lit "application/x-protobuf"))
      (b'p' ∷ lit "x") a_serde-IsReadable a_prost-IsDecodable
      (unfold encode_as content_type_of contains str_eq protobuf_codec in refl)
