-- ===== src/Forward/Examples.antt =====
-- The theorems on forwarding at the codec of texts and a request that accepts protobuf.
use grpc_gateway_rust.Prelude.{◌≡◌, refl, Option, some, List, [], ◌∷◌, Str, lit, contains, str_eq}
use grpc_gateway_rust.Http.{MetadataEntry, Status, unavailable, one_value}
use grpc_gateway_rust.Http.Concrete.{list_headers}
use grpc_gateway_rust.Http.Message.{Request, Response, frame, failed, data_frame, Body}
use grpc_gateway_rust.Errors.{upstream}
use grpc_gateway_rust.Codec.{returned, content_type_of, encode_as, decode_as}
use grpc_gateway_rust.Codec.Examples.{a_codec, tagged-IsFaithful}
use grpc_gateway_rust.Layers.Examples.{Headers, a_request, full}
use grpc_gateway_rust.Forward.{
  StreamPoll, received, broken, forward_response_message, forward_response_stream,
}
use grpc_gateway_rust.Forward.Answers.{
  Delivers, forward_response_message-decode_as, forward_response_stream-Delivers,
}

abbrev binary_request : Request Headers (List MetadataEntry)
binary_request = record a_request { headers = (lit "accept", lit "application/x-protobuf") ∷ [] }

abbrev as_value : Str → Option Str
as_value s = some s

as_value-same : (s v : Str) → as_value s ≡ some v → v ≡ s
as_value-same s v h = cc h

abbrev answer : Body → Response Headers
answer b = record {
  status = 200;
  headers = (lit "content-type", lit "application/octet-stream") ∷ [];
  body = b;
}

forward_response_message-decode_as_example :
    (content_type : Str) × (bytes : Str) × (list_headers.get_all
        (lit "content-type")
        (answer (full (lit "px"))).headers
      ≡ one_value content_type)
    × (full (lit "px") ≡ full bytes)
    × ((answer (full (lit "px"))).status ≡ 200)
    × (decode_as a_codec bytes (some content_type) ≡ returned (lit "x"))
forward_response_message-decode_as_example =
    forward_response_message-decode_as list_headers as_value [] full a_codec (lit "x")
      binary_request (answer (full (lit "px"))) (tagged-IsFaithful b'j') (tagged-IsFaithful b'p')
      as_value-same
      (unfold forward_response_message encode_as content_type_of contains str_eq in refl)

abbrev down : Status
down = record { code = unavailable; message = lit "down" }

abbrev a_stream : List (StreamPoll Str)
a_stream = received (lit "x") ∷ broken down ∷ []

abbrev a_body : Body
a_body = frame (data_frame (lit "px")) ∷ failed (upstream down) ∷ []

forward_response_stream-Delivers_example :
    (content_type : Str) × (list_headers.get_all (lit "content-type") (answer a_body).headers
      ≡ one_value content_type)
    × ((answer a_body).status ≡ 200)
    × Delivers a_codec content_type a_stream a_body
forward_response_stream-Delivers_example =
    forward_response_stream-Delivers list_headers as_value [] a_codec a_stream binary_request
      (answer a_body) (tagged-IsFaithful b'j') (tagged-IsFaithful b'p') as_value-same
      (unfold forward_response_stream encode_as content_type_of contains str_eq in refl)
