-- ===== src/Template.antt =====
-- gateway-internal/src/path_template.rs: the parsed template and the compiled pattern.
use grpc_gateway_rust.Prelude.{ℕ, List, Option, Str}

-- The opcodes of the matching machine.
pub data OpCode : Type 0 where
  nop push lit_push push_m concat_n capture : OpCode

-- `operand` is the bit pattern of the `i32`.
pub record Op : Type 0 where
  pub code : OpCode
  pub operand : ℕ

pub record Pattern : Type 0 where
  pub ops : List Op
  pub pool : List Str
  pub vars : List Str
  pub stack_size : ℕ
  pub tail_len : ℕ
  pub verb : Option Str

-- `Segment` and `Variable` hold lists of segments, so the lists stand in the block.
mutual
  pub data Segment : Type 0 where
    literal : Str → Segment
    wildcard : Segment
    deep_wildcard : Segment
    variable : Variable → Segment

  pub data Variable : Type 0 where
    of_path : Str → Segments → Variable

  pub data Segments : Type 0 where
    nil : Segments
    cons : Segment → Segments → Segments

pub record PathTemplate : Type 0 where
  pub segments : Segments
  pub verb : Option Str
  pub template : Str
