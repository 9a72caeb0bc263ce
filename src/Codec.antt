-- ===== src/Codec.antt =====
-- gateway-runtime/src/codec.rs: the choice between the JSON and the protobuf format. The formats
-- themselves are those of serde_json and prost, so the two codecs are values of the interface.
pub mod Roundtrip
pub mod Formats
pub mod Reading
pub mod Examples
use grpc_gateway_rust.Prelude.{
  Bool, true, false, ◌||◌, Option, none, some, Str, lit, str_eq, contains, if◌then◌else◌,
}
use grpc_gateway_rust.Errors.{GatewayError}

-- `Result<A, GatewayError>`
pub data Result (A : Type 0) : Type 0 where
  returned : A → Result A
  raised : GatewayError → Result A

-- The trait `Codec`, at one type of messages.
pub record Codec (T : Type 0) : Type 0 where
  pub encoder_content_type : Option Str → Str
  pub encode : T → Option Str → Result Str
  pub decode : Str → Option Str → Result T

pub record MultimediaCodec (T : Type 0) : Type 0 where
  pub json : Codec T
  pub proto : Codec T

-- The names of the protobuf format.
abbrev pub names_protobuf : Str → Bool
names_protobuf mime =
    contains mime (lit "application/octet-stream") || contains mime (lit "application/x-protobuf")

unfoldable pub content_type_of : Option Str → Str
content_type_of none = lit "application/json"
content_type_of (some accept) =
    if names_protobuf accept then lit "application/octet-stream" else lit "application/json"

module _ {T : Type 0} where
  unfoldable pub encode_as : MultimediaCodec T → T → Option Str → Result Str
  unfolding content_type_of
  encode_as codec val mime =
      if str_eq (content_type_of mime) (lit "application/octet-stream")
      then codec.proto.encode val mime
      else codec.json.encode val mime

  unfoldable pub decode_as : MultimediaCodec T → Str → Option Str → Result T
  decode_as codec buf none = codec.json.decode buf none
  decode_as codec buf (some mime) =
      if names_protobuf mime
      then codec.proto.decode buf (some mime)
      else codec.json.decode buf (some mime)

  abbrev pub as_codec : MultimediaCodec T → Codec T
  as_codec codec = record {
    encoder_content_type = content_type_of;
    encode = encode_as codec;
    decode = decode_as codec;
  }
