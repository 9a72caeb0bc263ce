-- ===== src/Validator.antt =====
-- gateway-codegen/src/validator.rs: which proto files get generated code.
pub mod Laws
mod Examples
use grpc_gateway_rust.Prelude.{Bool, true, false, not, ◌||◌, Str, lit, is_empty, if◌then◌else◌}
use grpc_gateway_rust.Bindings.Descriptors.{
  DescriptorProtos, no_messages, more_messages, FileDescriptorProto,
}

pub data ProtoCategory : Type 0 where
  service_defining message_enum_only annotation_option import_only : ProtoCategory

unfoldable pub description : ProtoCategory → Str
description service_defining = lit "Service-Defining Proto"
description message_enum_only = lit "Message / Enum-Only Proto"
description annotation_option = lit "Annotation / Option Proto"
description import_only = lit "Import-Only Proto"

pub record ValidationResult : Type 0 where
  pub category : ProtoCategory
  pub expected_output : Bool
  pub justification : Str

abbrev pub has_messages : DescriptorProtos → Bool
has_messages no_messages = false
has_messages (more_messages m ms) = true

unfoldable pub classify : FileDescriptorProto → ValidationResult
classify file =
    if not (is_empty file.service)
    then record {
      category = service_defining;
      expected_output = true;
      justification = lit "Contains service definitions; expected to generate gateway artifacts.";
    }
    else if has_messages file.message_type || not (is_empty file.enum_type)
    then record {
      category = message_enum_only;
      expected_output = false;
      justification = lit "Contains only messages/enums; no gateway services to generate.";
    }
    else if not (is_empty file.extension)
    then record {
      category = annotation_option;
      expected_output = false;
      justification = lit "Contains extensions only; no runtime code expected.";
    }
    else record {
      category = import_only;
      expected_output = false;
      justification = lit "Import-only or empty proto; no code generation expected.";
    }
