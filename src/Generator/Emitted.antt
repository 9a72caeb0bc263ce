-- ===== src/Generator/Emitted.antt =====
-- gateway-codegen/src/generator.rs: what the code that `generate_service` quotes does when it runs.
use grpc_gateway_rust.Prelude.{
  ℕ, Bool, true, false, Option, none, some, List, [], ◌∷◌, Str, Map, lit, lookup, Attempt, done,
  stopped, ◌>>=◌,
}
use grpc_gateway_rust.Http.{HeaderApi, MetadataApi, Status, invalid_argument}
use grpc_gateway_rust.Http.Message.{Request, Outcome, success, failure, Service}
use grpc_gateway_rust.Errors.{GatewayError, upstream}
use grpc_gateway_rust.Errors.Handling.{Reporting, display, handle_error}
use grpc_gateway_rust.Codec.{Result, returned, raised, Codec}
use grpc_gateway_rust.Defaults.{first}
use grpc_gateway_rust.Metadata.{forward_metadata, grpc_timeout}
use grpc_gateway_rust.Forward.{StreamPoll, forward_response_message, forward_response_stream}
use grpc_gateway_rust.Utilities.{BodyApi, parse_body}
use grpc_gateway_rust.Router.{Router, route}
use grpc_gateway_rust.Generator.Setter.{Statement}
use grpc_gateway_rust.Generator.Service.{
  Population, Unmarshal, parses_body, default_message, RegistrationCode, MethodCode,
}

-- `tonic::Request`, of which the code sets the message and the metadata.
pub record GrpcRequest (In M : Type 0) : Type 0 where
  pub message : In
  pub metadata : M

-- What a call returns: a message, or a stream of messages.
abbrev pub Reply : Bool → Type 0 → Type 0
Reply true Out = List (StreamPoll Out)
Reply false Out = Out

-- What the emitted code of a method uses: the client of tonic, the codec at the two types of messages,
-- and of the request type, which prost generates, its default and what a setter does to it.
pub record Method (streaming : Bool) (In Out M W : Type 0) : Type 0 where
  pub client : GrpcRequest In M → W → Attempt Status (Reply streaming Out) × W
  pub request_codec : Codec In
  pub response_codec : Codec Out
  pub bodies : BodyApi In
  pub default_request : In
  pub set_field : Statement → Str → In → In

-- `if let Some(params) = extensions.get() { .. }`, with its list of setters.
unfoldable pub populate :
    {In : Type 0} → (Statement → Str → In → In) → Option (Map Str) → List Population → In → In
populate set_field none ps msg = msg
populate set_field (some params) [] msg = msg
populate set_field (some params) (p ∷ ps) msg = elim (lookup p.key params) [
  | none ↦ populate set_field (some params) ps msg
  | some val ↦ populate set_field (some params) ps (set_field p.setter val msg)
]

-- What the emitted code calls of other crates: `tonic::Request::set_timeout`, `HeaderValue::try_from`
-- with the text of its error, and what the reports of errors need.
pub record Runtime (M : Type 0) : Type 0 where
  pub set_timeout : ℕ → M → M
  pub to_value : Str → Option Str
  pub invalid : Str
  pub reporting : Reporting

module _ (api : HeaderApi) (md : MetadataApi) (runtime : Runtime md.Metadata) where
  abbrev pub put_timeout : Option ℕ → md.Metadata → md.Metadata
  put_timeout none m = m
  put_timeout (some duration) m = runtime.set_timeout duration m

  -- The metadata of the call.
  unfoldable pub call_metadata : Request api.Headers md.Metadata → md.Metadata
  unfolding forward_metadata grpc_timeout
  call_metadata req =
      put_timeout
        (first (api.get_all (lit "grpc-timeout") req.headers) >>= api.to_str >>= grpc_timeout)
        (forward_metadata api md req md.no_entries)

  unfoldable pub forward_reply :
      {Out : Type 0} (streaming : Bool)
      → Codec Out
      → Reply streaming Out
      → Request api.Headers md.Metadata
      → Outcome api.Headers
  unfolding forward_response_message forward_response_stream
  forward_reply true codec stream req =
      forward_response_stream api runtime.to_value runtime.invalid codec stream req
  forward_reply false codec msg req =
      forward_response_message api runtime.to_value runtime.invalid runtime.reporting.full codec msg
        req

  abbrev pub outcome_of :
      {Out : Type 0} (streaming : Bool)
      → Codec Out
      → Request api.Headers md.Metadata
      → Attempt Status (Reply streaming Out)
      → Outcome api.Headers
  outcome_of streaming codec req (stopped status) = failure (upstream status)
  outcome_of streaming codec req (done reply) = forward_reply streaming codec reply req

  module _ {In Out W : Type 0} (code : MethodCode)
      (method : Method code.server_streaming In Out md.Metadata W) where
    -- The emitted method.
    unfoldable pub call_method : In → Request api.Headers md.Metadata → W → Outcome api.Headers × W
    unfolding call_metadata forward_reply
    call_method proto_req req w =
        let answer =
          method.client (record { message = proto_req; metadata = call_metadata req }) w in
        (outcome_of code.server_streaming method.response_codec req answer.0, answer.1)

    unfoldable pub unmarshal_request : Unmarshal → Request api.Headers md.Metadata → Result In
    unfolding parse_body
    unmarshal_request default_message req = returned method.default_request
    unmarshal_request parses_body req =
        parse_body method.bodies method.request_codec api req.headers req.body

    abbrev pub invalid_body : GatewayError → Status
    invalid_body e = record { code = invalid_argument; message = display runtime.reporting e }

    -- The closure that is registered.
    unfoldable pub registered : RegistrationCode → Service api.Headers md.Metadata W
    unfolding unmarshal_request populate call_method handle_error display
    registered registration req w = elim (unmarshal_request registration.unmarshal req) [
      | raised e ↦ (success (handle_error api runtime.reporting (invalid_body e)), w)
      | returned proto_req ↦
          call_method
            (populate method.set_field req.extensions.params registration.population proto_req)
            (record req { body = [] }) w
    ]

  -- The registration function, one block after the other.
  module _ {W : Type 0} (In Out : MethodCode → Type 0)
      (methods : (code : MethodCode)
        → Method code.server_streaming (In code) (Out code) md.Metadata W) where
    unfoldable pub register :
        List (MethodCode × RegistrationCode)
        → Router (Service api.Headers md.Metadata W)
        → Router (Service api.Headers md.Metadata W)
    unfolding registered
    register [] router = router
    register ((code, registration) ∷ rest) router = register rest (
        route router registration.http_method registration.pattern
          (registered code (methods code) registration))
