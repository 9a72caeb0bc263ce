-- ===== src/Forward.antt =====
-- gateway-runtime/src/forward.rs: the HTTP response of a gRPC message, and of a stream of messages.
pub mod Answers
mod Examples
use grpc_gateway_rust.Prelude.{ℕ, Option, none, some, List, [], ◌∷◌, Str, lit, ◌>>=◌}
use grpc_gateway_rust.Http.{HeaderApi, Status}
use grpc_gateway_rust.Http.Message.{
  Request, Response, Outcome, success, failure, Poll, pending, frame, failed, data_frame, Body,
}
use grpc_gateway_rust.Errors.{GatewayError, upstream, http}
use grpc_gateway_rust.Defaults.{first}
use grpc_gateway_rust.Codec.{Result, returned, raised, Codec}

-- What a poll of a gRPC stream returns; a stream is what its polls return, and then its end.
pub data StreamPoll (T : Type 0) : Type 0 where
  waiting : StreamPoll T
  received : T → StreamPoll T
  broken : Status → StreamPoll T

abbrev pub frame_of : Result Str → Poll
frame_of (returned bytes) = frame (data_frame bytes)
frame_of (raised e) = failed e

-- The closure that maps the stream.
abbrev pub poll_of : {T : Type 0} → Codec T → Str → StreamPoll T → Poll
poll_of codec content_type waiting = pending
poll_of codec content_type (received msg) = frame_of (codec.encode msg (some content_type))
poll_of codec content_type (broken s) = failed (upstream s)

abbrev pub stream_body : {T : Type 0} → Codec T → Str → List (StreamPoll T) → Body
stream_body codec content_type [] = []
stream_body codec content_type (p ∷ ps) =
    poll_of codec content_type p ∷ stream_body codec content_type ps

abbrev pub accept_of : (api : HeaderApi) {M : Type 0} → Request api.Headers M → Option Str
accept_of api req = first (api.get_all (lit "accept") req.headers) >>= api.to_str

-- `to_value` is `HeaderValue::try_from`, and `invalid` the text of its error.
module _ (api : HeaderApi) (to_value : Str → Option Str) (invalid : Str) where
  -- `Response::builder()` with status, content type and body
  abbrev pub build : Str → Body → Outcome api.Headers
  build content_type body = elim (to_value content_type) [
    | none ↦ failure (http invalid)
    | some v ↦ success (record {
      status = 200;
      headers = api.insert_header (lit "content-type") v api.no_headers;
      body = body;
    })
  ]

  -- `full` is `http_body_util::Full`.
  abbrev pub build_encoded : (Str → Body) → Str → Result Str → Outcome api.Headers
  build_encoded full content_type (raised e) = failure e
  build_encoded full content_type (returned body_bytes) = build content_type (full body_bytes)

  unfoldable pub forward_response_message :
      {T M : Type 0} → (Str → Body) → Codec T → T → Request api.Headers M → Outcome api.Headers
  forward_response_message full codec msg req =
      let content_type = codec.encoder_content_type (accept_of api req) in
      build_encoded full content_type (codec.encode msg (some content_type))

  unfoldable pub forward_response_stream :
      {T M : Type 0} → Codec T → List (StreamPoll T) → Request api.Headers M → Outcome api.Headers
  forward_response_stream codec stream req =
      let content_type = codec.encoder_content_type (accept_of api req) in
      build content_type (stream_body codec content_type stream)
