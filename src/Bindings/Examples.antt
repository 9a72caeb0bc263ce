-- ===== src/Bindings/Examples.antt =====
-- The theorems on bindings at a registry of two messages, one inside the other.
use grpc_gateway_rust.Prelude.{done, List, ◌≡◌, inl, none, some, [], ◌∷◌, lit}
use grpc_gateway_rust.Grammar.Print.{print}
use grpc_gateway_rust.Matching.Examples.{read}
use grpc_gateway_rust.Bindings.Descriptors.{
  MethodDescriptorProto, FieldDescriptorProto, message, DescriptorProtos, no_messages,
  more_messages, FileDescriptorProto, get, rule, no_rules,
}
use grpc_gateway_rust.Bindings.Registry.{
  or_default, FieldDocs, SymbolRegistry, new_registry, process_messages,
}
use grpc_gateway_rust.Bindings.Services.{ServiceDefinition, process_file}
use grpc_gateway_rust.Bindings.Processing.{DescribesServices, process_file-DescribesServices}
use grpc_gateway_rust.Bindings.Declared.{
  IsKnown, first_of, itself, inside, process_messages-IsKnown,
}

abbrev a_field : FieldDescriptorProto
a_field = record { name = some (lit "id"); label = some 3; field_type = some 9; type_name = none }

abbrev book_field : FieldDescriptorProto
book_field = record {
  name = some (lit "book");
  label = some 1;
  field_type = some 11;
  type_name = some (lit ".lib.Shelf.Book");
}

-- message Shelf { message Book { repeated string id; } Book book; }
abbrev shelf : DescriptorProtos
shelf =
    more_messages
      (message (some (lit "Shelf")) (book_field ∷ [])
        (more_messages (message (some (lit "Book")) (a_field ∷ []) no_messages) no_messages))
      no_messages

abbrev shelf_file : FileDescriptorProto
shelf_file = record {
  name = some (lit "shelf.proto");
  package_name = some (lit "lib");
  message_type = shelf;
  enum_type = [];
  service = [];
  extension = [];
  source_code_info = none;
}

abbrev pub registry : SymbolRegistry
registry = new_registry (shelf_file ∷ [])

abbrev id_docs : FieldDocs
id_docs = record { docs = []; label = some 3; type_name = none; field_type = some 9 }

process_messages-IsKnown_example :
    IsKnown
      (lit ".lib.Shelf.Book")
      (process_messages [] (lit "shelf.proto") shelf (lit ".lib") (4 ∷ []) 0 [])
process_messages-IsKnown_example =
    process_messages-IsKnown [] (lit "shelf.proto") shelf (lit ".lib") (lit ".lib.Shelf.Book")
      (4 ∷ []) 0 [] (inl (first_of (inside (first_of itself))))

-- service Library { rpc GetShelf(Shelf) returns (Shelf) { get: ".." } rpc Internal(..) returns (..) }
abbrev get_shelf : MethodDescriptorProto
get_shelf = record {
  name = some (lit "GetShelf");
  input_type = some (lit ".lib.Shelf");
  output_type = some (lit ".lib.Shelf");
  options = some (record { http = some (rule (some (get (print read))) [] [] no_rules) });
  client_streaming = none;
  server_streaming = none;
}

abbrev pub library : FileDescriptorProto
library = record shelf_file {
  service =
      record {
        name = some (lit "Library");
        method = get_shelf ∷ record get_shelf { options = none } ∷ [];
      }
      ∷ [];
}

process_file-DescribesServices_example :
    (ds : List ServiceDefinition) × (process_file library registry ≡ done ds)
    × DescribesServices registry (or_default library.package_name) library.service ds
process_file-DescribesServices_example = process_file-DescribesServices library registry
