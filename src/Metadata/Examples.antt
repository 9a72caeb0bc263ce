-- ===== src/Metadata/Examples.antt =====
-- The theorems on forwarded metadata and deadlines at concrete values.
use grpc_gateway_rust.Prelude.{◌≡◌, none, some, List, [], ◌∷◌, lit, last, or_else}
use grpc_gateway_rust.Http.{MetadataEntry, ascii, entry_values}
use grpc_gateway_rust.Http.Concrete.{list_headers, list_metadata}
use grpc_gateway_rust.Http.Message.{Request}
use grpc_gateway_rust.Layers.Examples.{Headers, two_values, a_request}
use grpc_gateway_rust.Metadata.{default_config, forward_metadata}
use grpc_gateway_rust.Metadata.Forwarding.{forwarded, forward_metadata_lem}

abbrev annotations : List MetadataEntry
annotations = record { kind = ascii; key = lit "x-request-id"; value = lit "req-1" } ∷ []

-- Headers of a client, and the metadata of an annotator.
abbrev annotated_request : Request Headers (List MetadataEntry)
annotated_request = record a_request {
  extensions = record { params = none; metadata = some annotations; metadata_config = none };
}

forward_metadata_lem_example :
    list_metadata.get_entry
      (lit "authorization")
      (forward_metadata list_headers list_metadata annotated_request [])
    ≡ or_else (last (entry_values (lit "authorization") annotations)) (
        or_else
          (last (
            entry_values
              (lit "authorization")
              (forwarded list_headers list_metadata default_config two_values)))
          none)
forward_metadata_lem_example =
    forward_metadata_lem list_headers list_metadata annotated_request [] (lit "authorization")
