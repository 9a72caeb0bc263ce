-- ===== src/Compiler.antt =====
-- gateway-codegen/src/path_compiler.rs: `compile`, from the text of a template to a pattern. Counters
-- of type `usize` wrap as in a release build; a build with overflow checks panics there instead.
pub mod Emit
pub mod Tests
use grpc_gateway_rust.Prelude.{
  ℕ, suc, ◌+◌, ◌-◌, Bool, ◌&&◌, Option, none, some, List, [], ◌∷◌, ◌++◌, Str, lit, length, take,
  drop, is_empty, ltb, ◌==◌, if◌then◌else◌, str_eq, split, strip_prefix, rfind, find, byte_count,
  starts_with, ends_with, sub_usize, as_i32,
}
use grpc_gateway_rust.Template.{OpCode, push, lit_push, push_m, concat_n, capture, Op, Pattern}

-- The vectors that `compile` fills.
pub record Builder : Type 0 where
  pub ops : List Op
  pub pool : List Str
  pub vars : List Str
  pub stack_size : ℕ

abbrev pub no_code : Builder
no_code = record { ops = []; pool = []; vars = []; stack_size = 0 }

pub record Merge : Type 0 where
  pub merged : List Str
  pub buffer : Str
  pub brace_depth : ℕ

abbrev pub no_merge : Merge
no_merge = record { merged = []; buffer = []; brace_depth = 0 }

-- One round of the loop that joins what stands between braces.
unfoldable pub merge_segment : Str → Merge → Merge
merge_segment segment m =
    let opened = byte_count b'{' segment in
    let closed = byte_count b'}' segment in
    let depth = sub_usize (m.brace_depth + opened) closed in
    let buffer = m.buffer ++ (b'/' ∷ segment) in
    if is_empty segment
    then m
    else if ltb 0 m.brace_depth
    then if depth == 0
      then record { merged = m.merged ++ (buffer ∷ []); buffer = []; brace_depth = 0 }
      else record m { buffer = buffer; brace_depth = depth }
    else if ltb closed opened
    then record m { buffer = m.buffer ++ segment; brace_depth = m.brace_depth + (opened - closed) }
    else record m { merged = m.merged ++ (segment ∷ []) }

unfoldable pub merge_segments : List Str → Merge → Merge
merge_segments [] m = m
merge_segments (segment ∷ rest) m = merge_segments rest (merge_segment segment m)

abbrev pub push_op : OpCode → ℕ → Builder → Builder
push_op code operand b = record b {
  ops = b.ops ++ (record { code = code; operand = operand } ∷ []);
}

-- `pool.push(..)`, then a `LitPush` of its index.
abbrev pub push_literal : Str → Builder → Builder
push_literal text b =
    push_op lit_push (as_i32 (length b.pool)) (record b { pool = b.pool ++ (text ∷ []) })

-- A part of the path, at the top or inside a variable.
unfoldable pub compile_part : Str → Builder → Builder
compile_part part b =
    if str_eq part (lit "*")
    then push_op push 0 b
    else if str_eq part (lit "**")
    then push_op push_m 0 b
    else push_literal part b

-- The loop over the parts of a variable; it counts what they push.
unfoldable pub compile_parts : List Str → Builder → ℕ → Builder × ℕ
compile_parts [] b pushes = (b, pushes)
compile_parts (part ∷ parts) b pushes = compile_parts parts (compile_part part b) (pushes + 1)

-- `{name}` or `{name=pattern}`
abbrev pub split_variable : Str → Str × Str
split_variable content = elim (find b'=' content) [
  | none ↦ (content, lit "*")
  | some idx ↦ (take idx content, drop (suc idx) content)
]

abbrev pub push_capture : Str → ℕ → Builder → Builder
push_capture name pushes b =
    let b' = if ltb 1 pushes then push_op concat_n (as_i32 pushes) b else b in
    let b'' = record b' { vars = b'.vars ++ (name ∷ []) } in
    let done = push_op capture (as_i32 (length b'.vars)) b'' in
    record done { stack_size = done.stack_size + pushes }

unfoldable pub compile_variable : Str → Builder → Builder
unfolding compile_part compile_parts
compile_variable content b =
    let name = (split_variable content).0 in
    let parts = split b'/' (split_variable content).1 in
    let compiled = compile_parts parts b 0 in push_capture name compiled.1 compiled.0

abbrev pub is_variable : Str → Bool
is_variable segment = starts_with segment (lit "{") && ends_with segment (lit "}")

abbrev pub grow : Builder → Builder
grow b = record b { stack_size = b.stack_size + 1 }

unfoldable pub compile_segment : Str → Builder → Builder
compile_segment segment b =
    if str_eq segment (lit "*")
    then grow (push_op push 0 b)
    else if str_eq segment (lit "**")
    then grow (push_op push_m 0 b)
    else if is_variable segment
    then compile_variable (take (length segment - 2) (drop 1 segment)) b
    else grow (push_literal segment b)

unfoldable pub compile_segments : List Str → Builder → Builder
compile_segments [] b = b
compile_segments (segment ∷ rest) b = compile_segments rest (compile_segment segment b)

-- The text before the last colon, and the verb after it.
unfoldable pub split_verb : Str → Str × Option Str
split_verb template = elim (rfind b':' template) [
  | none ↦ (template, none)
  | some idx ↦ (take idx template, some (drop (suc idx) template))
]

abbrev pub to_pattern : Builder → Option Str → Pattern
to_pattern b verb = record {
  ops = b.ops;
  pool = b.pool;
  vars = b.vars;
  stack_size = b.stack_size;
  tail_len = 0;
  verb = verb;
}

abbrev pub strip_slash : Str → Str
strip_slash template = elim (strip_prefix b'/' template) [ none ↦ template | some rest ↦ rest ]

unfoldable pub compile : Str → Pattern
unfolding split_verb merge_segments merge_segment compile_segments compile_segment compile_variable
compile template =
    let path_str = (split_verb (strip_slash template)).0 in
    let verb = (split_verb (strip_slash template)).1 in
    let merged = (merge_segments (split b'/' path_str) no_merge).merged in
    to_pattern (compile_segments merged no_code) verb
