-- ===== src/Servers/Upstream/Echo.antt =====
-- examples/src/a_bit_of_everything/grpc.rs, `echo`, behind the generated code: from the request of an
-- HTTP client to what it reads in the response.
mod Examples
use grpc_gateway_rust.Prelude.{◌≡◌, some, false, Str, Map, lit, Attempt, done, stopped}
use grpc_gateway_rust.Http.{HeaderApi, MetadataApi, Status, one_value}
use grpc_gateway_rust.Http.Message.{Request, Response, Outcome, success}
use grpc_gateway_rust.Errors.{GatewayError}
use grpc_gateway_rust.Errors.Handling.{handle_error}
use grpc_gateway_rust.Codec.{Codec, MultimediaCodec, Result, returned, raised, decode_as, as_codec}
use grpc_gateway_rust.Utilities.{BodyApi}
use grpc_gateway_rust.Generator.Setter.{Statement}
use grpc_gateway_rust.Generator.Service.{MethodCode, RegistrationCode}
use grpc_gateway_rust.Generator.Emitted.{
  Runtime, GrpcRequest, Method, unmarshal_request, invalid_body,
}
use grpc_gateway_rust.Generator.Serving.{Populated}
use grpc_gateway_rust.Servers.Upstream.{Messages, echo}

abbrev unary : MethodCode → MethodCode
unary code = record code { server_streaming = false }

module _ (api : HeaderApi) (md : MetadataApi) (runtime : Runtime md.Metadata) (m : Messages)
    {W : Type 0} (codec : MultimediaCodec m.StringMessage) (bodies : BodyApi m.StringMessage)
    (start : m.StringMessage) (set_field : Statement → Str → m.StringMessage → m.StringMessage)
    (transport : GrpcRequest m.StringMessage md.Metadata → W → W) (code : MethodCode) where
  -- The client, whose connection delivers the call to `echo` and the answer back.
  abbrev pub echo_method : Method false m.StringMessage m.StringMessage md.Metadata W
  echo_method = record {
    client = λ call w. (echo m call, transport call w);
    request_codec = as_codec codec;
    response_codec = as_codec codec;
    bodies = bodies;
    default_request = start;
    set_field = set_field;
  }

  pub data Echoes (registration : RegistrationCode) (vars : Map Str)
      (req : Request api.Headers md.Metadata) : Outcome api.Headers → Type 0 where
    not_read :
        {e : GatewayError}
        → unmarshal_request api md runtime (unary code) echo_method registration.unmarshal req
          ≡ raised e
        → Echoes registration vars req (
            success (
              handle_error api runtime.reporting
                (invalid_body api md runtime (unary code) echo_method e)))
    echoed :
        {msg out : m.StringMessage} {content_type bytes : Str} {resp : Response api.Headers}
        → unmarshal_request api md runtime (unary code) echo_method registration.unmarshal req
          ≡ returned msg
        → Populated set_field vars registration.population msg out
        → resp.status ≡ 200
        → api.get_all (lit "content-type") resp.headers ≡ one_value content_type
        → resp.body ≡ runtime.reporting.full bytes
        → decode_as codec bytes (some content_type) ≡ returned out
        → Echoes registration vars req (success resp)
