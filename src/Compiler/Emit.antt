-- ===== src/Compiler/Emit.antt =====
-- The code of a template in closed form.
use grpc_gateway_rust.Prelude.{ℕ, ◌+◌, List, [], ◌∷◌, ◌++◌, Str, length, ltb, if◌then◌else◌, as_i32}
use grpc_gateway_rust.Template.{Op, push, lit_push, push_m, concat_n, capture, Pattern}
use grpc_gateway_rust.Grammar.{
  Part, literal, wildcard, deep_wildcard, Segment, part, field, variable, Template,
}

-- `n` literals are in the pool before the part.
abbrev pub part_code : ℕ → Part → Op
part_code n (literal l) = record { code = lit_push; operand = as_i32 n }
part_code n wildcard = record { code = push; operand = 0 }
part_code n deep_wildcard = record { code = push_m; operand = 0 }

abbrev pub part_pool : Part → List Str
part_pool (literal l) = l ∷ []
part_pool wildcard = []
part_pool deep_wildcard = []

abbrev pub parts_pool : List Part → List Str
parts_pool [] = []
parts_pool (p ∷ ps) = part_pool p ++ parts_pool ps

abbrev pub parts_code : ℕ → List Part → List Op
parts_code n [] = []
parts_code n (p ∷ ps) = part_code n p ∷ parts_code (n + length (part_pool p)) ps

abbrev pub join_code : ℕ → List Op
join_code n = if ltb 1 n then record { code = concat_n; operand = as_i32 n } ∷ [] else []

abbrev pub capture_code : ℕ → List Op
capture_code k = record { code = capture; operand = as_i32 k } ∷ []

abbrev pub segment_pool : Segment → List Str
segment_pool (part p) = part_pool p
segment_pool (field v) = []
segment_pool (variable v p ps) = parts_pool (p ∷ ps)

abbrev pub segment_vars : Segment → List Str
segment_vars (part p) = []
segment_vars (field v) = v ∷ []
segment_vars (variable v p ps) = v ∷ []

-- `n` literals and `k` variables stand before the segment.
abbrev pub segment_code : ℕ → ℕ → Segment → List Op
segment_code n k (part p) = part_code n p ∷ []
segment_code n k (field v) = part_code n wildcard ∷ capture_code k
segment_code n k (variable v p ps) =
    parts_code n (p ∷ ps) ++ (join_code (length (p ∷ ps)) ++ capture_code k)

abbrev pub pool_of : List Segment → List Str
pool_of [] = []
pool_of (s ∷ ss) = segment_pool s ++ pool_of ss

abbrev pub vars_of : List Segment → List Str
vars_of [] = []
vars_of (s ∷ ss) = segment_vars s ++ vars_of ss

abbrev pub code_of : ℕ → ℕ → List Segment → List Op
code_of n k [] = []
code_of n k (s ∷ ss) =
    segment_code n k s ++ code_of (n + length (segment_pool s)) (k + length (segment_vars s)) ss

abbrev pub segment_pushes : Segment → ℕ
segment_pushes (part p) = 1
segment_pushes (field v) = 1
segment_pushes (variable v p ps) = length (p ∷ ps)

abbrev pub pushes_of : List Segment → ℕ
pushes_of [] = 0
pushes_of (s ∷ ss) = segment_pushes s + pushes_of ss

abbrev pub emit : Template → Pattern
emit t = record {
  ops = code_of 0 0 t.segments;
  pool = pool_of t.segments;
  vars = vars_of t.segments;
  stack_size = pushes_of t.segments;
  tail_len = 0;
  verb = t.verb;
}
