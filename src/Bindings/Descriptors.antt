-- ===== src/Bindings/Descriptors.antt =====
-- The descriptors of gateway-annotations/proto that the generator reads: files, messages, services and
-- the rule of http.proto, with the parts that the code uses.
use grpc_gateway_rust.Prelude.{ℕ, Bool, Option, List, Str}

-- The message `google.api.HttpRule`, of which `additional_bindings` holds rules again.
pub data RulePattern : Type 0 where
  get put post delete patch : Str → RulePattern
  custom : Str → Str → RulePattern

mutual
  pub data HttpRule : Type 0 where
    rule : Option RulePattern → Str → Str → HttpRules → HttpRule

  pub data HttpRules : Type 0 where
    no_rules : HttpRules
    more_rules : HttpRule → HttpRules → HttpRules

-- The parts of a descriptor that the code reads. Numbers of type `i32` are kept as bit patterns.
pub record FieldDescriptorProto : Type 0 where
  pub name : Option Str
  pub label : Option ℕ
  pub field_type : Option ℕ
  pub type_name : Option Str

mutual
  pub data DescriptorProto : Type 0 where
    message : Option Str → List FieldDescriptorProto → DescriptorProtos → DescriptorProto

  pub data DescriptorProtos : Type 0 where
    no_messages : DescriptorProtos
    more_messages : DescriptorProto → DescriptorProtos → DescriptorProtos

pub record Location : Type 0 where
  pub path : List ℕ
  pub leading_comments : Option Str

pub record MethodOptions : Type 0 where
  pub http : Option HttpRule

pub record MethodDescriptorProto : Type 0 where
  pub name : Option Str
  pub input_type : Option Str
  pub output_type : Option Str
  pub options : Option MethodOptions
  pub client_streaming : Option Bool
  pub server_streaming : Option Bool

pub record ServiceDescriptorProto : Type 0 where
  pub name : Option Str
  pub method : List MethodDescriptorProto

pub record EnumDescriptorProto : Type 0 where
  pub name : Option Str

pub record FileDescriptorProto : Type 0 where
  pub name : Option Str
  pub package_name : Option Str
  pub message_type : DescriptorProtos
  pub enum_type : List EnumDescriptorProto
  pub service : List ServiceDescriptorProto
  pub extension : List FieldDescriptorProto
  pub source_code_info : Option (List Location)

-- `get_http_rule` of gateway-annotations/src/lib.rs
abbrev pub get_http_rule : MethodOptions → Option HttpRule
get_http_rule options = options.http
