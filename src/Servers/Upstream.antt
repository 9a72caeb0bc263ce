-- ===== src/Servers/Upstream.antt =====
-- examples/src/a_bit_of_everything/grpc.rs: the gRPC server behind the example gateways. Each method has
-- its message, without the lines that it prints; the files of the multipart example are a child.
pub mod Files
mod Download
mod Echo
use grpc_gateway_rust.Prelude.{Attempt, done, stopped, lit}
use grpc_gateway_rust.Http.{Status, unknown}
use grpc_gateway_rust.Generator.Emitted.{GrpcRequest}

-- The messages that prost generates, with `Default` where a method answers with it.
pub record Messages : Type 1 where
  pub ABitOfEverything : Type 0
  pub CreateBookRequest : Type 0
  pub Book : Type 0
  pub UpdateBookRequest : Type 0
  pub IdMessage : Type 0
  pub Empty : Type 0
  pub UpdateV2Request : Type 0
  pub ABitOfEverythingRepeated : Type 0
  pub StringMessage : Type 0
  pub Duration : Type 0
  pub MessageWithBody : Type 0
  pub Body : Type 0
  pub StringValue : Type 0
  pub MessageWithPathEnum : Type 0
  pub MessageWithNestedPathEnum : Type 0
  pub CheckStatusResponse : Type 0
  pub OneofEnumMessage : Type 0
  pub RequiredMessageTypeRequest : Type 0
  pub SnakeEnumRequest : Type 0
  pub SnakeEnumResponse : Type 0
  pub default_book : Book
  pub default_a_bit_of_everything : ABitOfEverything
  pub default_empty : Empty
  pub default_string_value : StringValue
  pub default_check_status_response : CheckStatusResponse
  pub default_snake_enum_response : SnakeEnumResponse

module _ (m : Messages) {M : Type 0} where
  -- `MyABitOfEverythingService`
  abbrev pub create : GrpcRequest m.ABitOfEverything M → Attempt Status m.ABitOfEverything
  create request = done request.message

  abbrev pub create_body : GrpcRequest m.ABitOfEverything M → Attempt Status m.ABitOfEverything
  create_body request = done request.message

  abbrev pub create_book : GrpcRequest m.CreateBookRequest M → Attempt Status m.Book
  create_book request = done m.default_book

  abbrev pub update_book : GrpcRequest m.UpdateBookRequest M → Attempt Status m.Book
  update_book request = done m.default_book

  abbrev pub lookup : GrpcRequest m.IdMessage M → Attempt Status m.ABitOfEverything
  lookup request = done m.default_a_bit_of_everything

  abbrev pub custom : GrpcRequest m.ABitOfEverything M → Attempt Status m.ABitOfEverything
  custom request = done m.default_a_bit_of_everything

  abbrev pub double_colon : GrpcRequest m.ABitOfEverything M → Attempt Status m.ABitOfEverything
  double_colon request = done m.default_a_bit_of_everything

  abbrev pub update : GrpcRequest m.ABitOfEverything M → Attempt Status m.Empty
  update request = done m.default_empty

  abbrev pub update_v2 : GrpcRequest m.UpdateV2Request M → Attempt Status m.Empty
  update_v2 request = done m.default_empty

  abbrev pub delete : GrpcRequest m.IdMessage M → Attempt Status m.Empty
  delete request = done m.default_empty

  abbrev pub get_query : GrpcRequest m.ABitOfEverything M → Attempt Status m.Empty
  get_query request = done m.default_empty

  abbrev pub get_repeated_query :
      GrpcRequest m.ABitOfEverythingRepeated M → Attempt Status m.ABitOfEverythingRepeated
  get_repeated_query request = done request.message

  abbrev pub echo : GrpcRequest m.StringMessage M → Attempt Status m.StringMessage
  echo request = done request.message

  abbrev pub deep_path_echo : GrpcRequest m.ABitOfEverything M → Attempt Status m.ABitOfEverything
  deep_path_echo request = done request.message

  abbrev pub no_bindings : GrpcRequest m.Duration M → Attempt Status m.Empty
  no_bindings request = done m.default_empty

  abbrev pub timeout : GrpcRequest m.Empty M → Attempt Status m.Empty
  timeout request = done m.default_empty

  abbrev pub error_with_details : GrpcRequest m.Empty M → Attempt Status m.Empty
  error_with_details request =
      stopped (record { code = unknown; message = lit "Error with details" })

  abbrev pub get_message_with_body : GrpcRequest m.MessageWithBody M → Attempt Status m.Empty
  get_message_with_body request = done m.default_empty

  abbrev pub post_with_empty_body : GrpcRequest m.Body M → Attempt Status m.Empty
  post_with_empty_body request = done m.default_empty

  abbrev pub check_get_query_params :
      GrpcRequest m.ABitOfEverything M → Attempt Status m.ABitOfEverything
  check_get_query_params request = done request.message

  abbrev pub check_nested_enum_get_query_params :
      GrpcRequest m.ABitOfEverything M → Attempt Status m.ABitOfEverything
  check_nested_enum_get_query_params request = done request.message

  abbrev pub check_post_query_params :
      GrpcRequest m.ABitOfEverything M → Attempt Status m.ABitOfEverything
  check_post_query_params request = done request.message

  abbrev pub overwrite_request_content_type : GrpcRequest m.Body M → Attempt Status m.Empty
  overwrite_request_content_type request = done m.default_empty

  abbrev pub overwrite_response_content_type : GrpcRequest m.Empty M → Attempt Status m.StringValue
  overwrite_response_content_type request = done m.default_string_value

  abbrev pub check_external_path_enum : GrpcRequest m.MessageWithPathEnum M → Attempt Status m.Empty
  check_external_path_enum request = done m.default_empty

  abbrev pub check_external_nested_path_enum :
      GrpcRequest m.MessageWithNestedPathEnum M → Attempt Status m.Empty
  check_external_nested_path_enum request = done m.default_empty

  abbrev pub check_status : GrpcRequest m.Empty M → Attempt Status m.CheckStatusResponse
  check_status request = done m.default_check_status_response

  abbrev pub exists : GrpcRequest m.ABitOfEverything M → Attempt Status m.Empty
  exists request = done m.default_empty

  abbrev pub custom_options_request : GrpcRequest m.ABitOfEverything M → Attempt Status m.Empty
  custom_options_request request = done m.default_empty

  abbrev pub trace_request : GrpcRequest m.ABitOfEverything M → Attempt Status m.ABitOfEverything
  trace_request request = done request.message

  abbrev pub post_oneof_enum : GrpcRequest m.OneofEnumMessage M → Attempt Status m.Empty
  post_oneof_enum request = done m.default_empty

  abbrev pub post_required_message_type :
      GrpcRequest m.RequiredMessageTypeRequest M → Attempt Status m.Empty
  post_required_message_type request = done m.default_empty

  -- `MyCamelCaseServiceName`
  abbrev pub empty : GrpcRequest m.Empty M → Attempt Status m.Empty
  empty request = done m.default_empty

  -- `MySnakeEnumService`
  abbrev pub snake_enum : GrpcRequest m.SnakeEnumRequest M → Attempt Status m.SnakeEnumResponse
  snake_enum request = done m.default_snake_enum_response
