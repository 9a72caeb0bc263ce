-- ===== src/Codec/Formats.antt =====
-- gateway-runtime/src/codec.rs: the codecs of the two formats. `Prost` and `Serde` are what they call of
-- the crates prost and serde_json, with errors as their display texts.
use grpc_gateway_rust.Prelude.{
  Bool, true, false, not, ◌||◌, [], Str, lit, is_empty, if◌then◌else◌, Attempt, done, stopped,
}
use grpc_gateway_rust.Errors.{encoding}
use grpc_gateway_rust.Codec.{Result, returned, raised, Codec, MultimediaCodec}

pub record Prost (T : Type 0) : Type 0 where
  pub encode_message : T → Attempt Str Str
  pub decode_message : Str → Attempt Str T

pub record Serde (T : Type 0) : Type 0 where
  pub to_writer : T → Attempt Str Str
  pub serialize_with_indent : Str → T → Attempt Str Str
  pub from_slice : Str → Attempt Str T

pub record JsonEncoderOptions : Type 0 where
  pub pretty_print : Bool
  pub indent : Str

-- The options for decoding have no field yet.
pub data JsonDecoderOptions : Type 0 where
  no_options : JsonDecoderOptions

pub record JsonCodec : Type 0 where
  pub encoder_opts : JsonEncoderOptions
  pub decoder_opts : JsonDecoderOptions

-- `JsonCodec::new()`
abbrev pub new_json : JsonCodec
new_json = record {
  encoder_opts = record { pretty_print = false; indent = [] };
  decoder_opts = no_options;
}

-- `JsonCodec::pretty()`
abbrev pub pretty_json : JsonCodec
pretty_json = record {
  encoder_opts = record { pretty_print = true; indent = [] };
  decoder_opts = no_options;
}

abbrev pub with_encoder_options : JsonEncoderOptions → JsonCodec → JsonCodec
with_encoder_options options codec = record codec { encoder_opts = options }

abbrev pub with_decoder_options : JsonDecoderOptions → JsonCodec → JsonCodec
with_decoder_options options codec = record codec { decoder_opts = options }

-- `map_err(GatewayError::Encoding)`
abbrev pub encoding_result : {A : Type 0} → Attempt Str A → Result A
encoding_result (done a) = returned a
encoding_result (stopped e) = raised (encoding e)

abbrev pub chosen_indent : Str → Str
chosen_indent indent = if is_empty indent then lit "  " else indent

module _ {T : Type 0} where
  unfoldable pub protobuf_codec : Prost T → Codec T
  protobuf_codec prost = record {
    encoder_content_type = λ accept. lit "application/octet-stream";
    encode = λ val mime. encoding_result (prost.encode_message val);
    decode = λ buf mime. encoding_result (prost.decode_message buf);
  }

  unfoldable pub json_text : Serde T → JsonEncoderOptions → T → Attempt Str Str
  json_text serde opts val =
      if opts.pretty_print || not (is_empty opts.indent)
      then serde.serialize_with_indent (chosen_indent opts.indent) val
      else serde.to_writer val

  unfoldable pub json_codec : Serde T → JsonCodec → Codec T
  unfolding json_text
  json_codec serde codec = record {
    encoder_content_type = λ accept. lit "application/json";
    encode = λ val mime. encoding_result (json_text serde codec.encoder_opts val);
    decode = λ buf mime. encoding_result (serde.from_slice buf);
  }

  -- `MultimediaCodec::default()`
  abbrev pub default_multimedia : Serde T → Prost T → MultimediaCodec T
  default_multimedia serde prost = record {
    json = json_codec serde new_json;
    proto = protobuf_codec prost;
  }
