-- ===== src/Pattern.antt =====
-- gateway-runtime/src/pattern.rs: `route_matcher`, the machine that runs a compiled pattern over the
-- components of a path. The stack has its top at the head.
pub mod Tests
use mathlib.Core.List.{reverse}
use mathlib.Core.Option
use grpc_gateway_rust.Prelude.{
  ℕ, suc, ◌+◌, ◌-◌, Bool, ◌&&◌, Option, none, some, List, [], ◌∷◌, Str, Map, insert, length,
  get_elem?, take, drop, last, init, is_empty, ltb, if◌then◌else◌, ◌>>=◌, str_eq, split, join,
  strip_prefix, rfind, as_usize,
}
use grpc_gateway_rust.Template.{OpCode, nop, push, lit_push, push_m, concat_n, capture, Op, Pattern}

-- `path.strip_prefix('/').unwrap_or(path)`
abbrev pub strip_slash : Str → Str
strip_slash path = elim (strip_prefix b'/' path) [ none ↦ path | some rest ↦ rest ]

-- The empty component that a trailing slash leaves is removed, unless it is the only one.
unfoldable pub pop_trailing : List Str → List Str
pop_trailing components = elim (last components) [
  | none ↦ components
  | some c ↦ if is_empty c && ltb 1 (length components) then init components else components
]

abbrev pub path_components : Str → List Str
path_components path = pop_trailing (split b'/' (strip_slash path))

-- What follows the last colon of the last component, if it is the verb of the pattern.
unfoldable pub current_verb : Str → List Str → Str
current_verb verb components = elim (last components) [
  | none ↦ []
  | some c ↦ elim (rfind b':' c) [
    | none ↦ []
    | some idx ↦ elim (strip_prefix b':' (drop idx c)) [
      | none ↦ []
      | some stripped ↦ if str_eq stripped verb then stripped else []
    ]
  ]
]

-- `components[last_idx] = head`
abbrev pub map_last : (Str → Str) → List Str → List Str
map_last f [] = []
map_last f (c ∷ []) = f c ∷ []
map_last f (c ∷ d ∷ cs) = c ∷ map_last f (d ∷ cs)

unfoldable pub strip_verb : Str → List Str → List Str
strip_verb [] components = components
strip_verb (x ∷ v) components = map_last (λ c. take (length c - length (x ∷ v) - 1) c) components

pub record Machine : Type 0 where
  pub stack : List Str
  pub captured : Map Str
  pub pos : ℕ

abbrev pub start : Machine
start = record { stack = []; captured = []; pos = 0 }

module _ (pattern : Pattern) (components : List Str) where
  abbrev pub advance : Machine → Str → Machine
  advance m c = record m { stack = c ∷ m.stack; pos = m.pos + 1 }

  -- `captured.insert(var_name, val)`, for a variable that exists.
  abbrev pub bind : ℕ → Str → Map Str → Map Str
  bind index val captured = elim (get_elem? pattern.vars index) [
    | none ↦ captured
    | some name ↦ insert name val captured
  ]

  -- One round of the loop over the operations.
  unfoldable pub step : OpCode → ℕ → Machine → Option Machine
  step nop operand m = some m
  step push operand m = elim (get_elem? components m.pos) [
    | none ↦ none
    | some c ↦ some (advance m c)
  ]
  step lit_push operand m = elim (get_elem? components m.pos) [
    | none ↦ none
    | some c ↦ elim (get_elem? pattern.pool (as_usize operand)) [
      | none ↦ none
      | some l ↦ if str_eq c l then some (advance m c) else none
    ]
  ]
  step push_m operand m =
      if ltb (length components) (m.pos + pattern.tail_len)
      then none
      else (let end = length components - pattern.tail_len in
          let c = join b'/' (take (end - m.pos) (drop m.pos components)) in
          some (record m { stack = c ∷ m.stack; pos = end }))
  step concat_n operand m =
      let n = as_usize operand in
      if ltb (length m.stack) n
      then none
      else some (record m { stack = join b'/' (reverse (take n m.stack)) ∷ drop n m.stack })
  step capture operand m = elim m.stack [
    | [] ↦ none
    | val ∷ rest ↦
        some (record m { stack = rest; captured = bind (as_usize operand) val m.captured })
  ]

  unfoldable pub run : List Op → Machine → Option Machine
  run [] m = some m
  run (op ∷ ops) m = step op.code op.operand m >>= run ops

  -- A path is matched only if all of it was consumed.
  abbrev pub finish : Machine → Option (Map Str)
  finish m = if ltb m.pos (length components) then none else some m.captured

  unfoldable pub execute : Option (Map Str)
  execute = run pattern.ops start >>= finish

abbrev pub verb_of : Pattern → Str
verb_of pattern = elim pattern.verb [ none ↦ [] | some v ↦ v ]

unfoldable pub route_matcher : Pattern → Str → Option (Map Str)
unfolding pop_trailing current_verb strip_verb run execute
route_matcher pattern path =
    let components = path_components path in
    let verb = verb_of pattern in
    if str_eq verb (current_verb verb components)
    then execute pattern (strip_verb verb components)
    else none
