-- ===== src/Servers/Upstream/Echo/Examples.antt =====
-- The echo method at the route of a shelf: the variable of the path is appended to the message.
use grpc_gateway_rust.Prelude.{[], Str}
use grpc_gateway_rust.Servers.Upstream.{Messages}

abbrev texts : Messages
texts = record {
  ABitOfEverything = Str;
  CreateBookRequest = Str;
  Book = Str;
  UpdateBookRequest = Str;
  IdMessage = Str;
  Empty = Str;
  UpdateV2Request = Str;
  ABitOfEverythingRepeated = Str;
  StringMessage = Str;
  Duration = Str;
  MessageWithBody = Str;
  Body = Str;
  StringValue = Str;
  MessageWithPathEnum = Str;
  MessageWithNestedPathEnum = Str;
  CheckStatusResponse = Str;
  OneofEnumMessage = Str;
  RequiredMessageTypeRequest = Str;
  SnakeEnumRequest = Str;
  SnakeEnumResponse = Str;
  default_book = [];
  default_a_bit_of_everything = [];
  default_empty = [];
  default_string_value = [];
  default_check_status_response = [];
  default_snake_enum_response = [];
}
