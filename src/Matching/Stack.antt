-- ===== src/Matching/Stack.antt =====
-- The stack of the machine, and the place that the compiler asks for it.
use grpc_gateway_rust.Prelude.{
  ℕ, zero, suc, subst, ◌+◌, ◌<◌, ◌≤◌, ◌≡◌, refl, sym, ap, ap₂, ◌∙◌, ◌⊎◌, inl, inr, Bool-cases,
  Option-cases, some, List, [], ◌∷◌, ◌++◌, Str, All, length, length-drop, get_elem?, ltb, str_eq,
  i32_sign, as_usize, as_usize-as_i32, if◌then◌else◌, ◌==◌, >>=-eq-some, arith,
}
use grpc_gateway_rust.Template.{OpCode, nop, push, lit_push, push_m, concat_n, capture, Op, Pattern}
use grpc_gateway_rust.Grammar.{
  Part, literal, wildcard, deep_wildcard, Segment, part, field, variable, Template,
}
use grpc_gateway_rust.Grammar.Print.{print, IsPrintable}
use grpc_gateway_rust.Compiler.{compile}
use grpc_gateway_rust.Compiler.Emit.{
  part_code, part_pool, parts_code, join_code, capture_code, segment_code, segment_pool,
  segment_vars, segment_pushes, code_of, pushes_of,
}
use grpc_gateway_rust.Pattern.{Machine, start, advance, step, run}
use grpc_gateway_rust.Matching.Segments.{Fits}
use grpc_gateway_rust.Matching.Compiling.{compile-print}
use grpc_gateway_rust.Matching.Routing.{IsSmall}

-- By how much an operation can grow the stack.
abbrev op_growth : OpCode → ℕ → ℕ
op_growth nop operand = 0
op_growth push operand = 1
op_growth lit_push operand = 1
op_growth push_m operand = 1
op_growth concat_n operand = if as_usize operand == 0 then 1 else 0
op_growth capture operand = 0

abbrev growth : List Op → ℕ
growth [] = 0
growth (op ∷ ops) = op_growth op.code op.operand + growth ops

get_elem?-bound {ℓ} :
    {A : Type ℓ} (xs : List A) (i : ℕ) (x : A) → get_elem? xs i ≡ some x → i + 1 ≤ length xs
get_elem?-bound [] i x h = absurd (cc h)
get_elem?-bound (y ∷ xs) zero x h = omega arith
get_elem?-bound (y ∷ xs) (suc i) x h = omega (arith, get_elem?-bound xs i x h)

List-cases {ℓ} :
    {A : Type ℓ} (xs : List A) → (xs ≡ []) ⊎ ((x : A) × (rest : List A) × (xs ≡ x ∷ rest))
List-cases [] = inl refl
List-cases (x ∷ xs) = inr (x, xs, refl)

module _ (pattern : Pattern) (components : List Str) where
  -- The machine stands inside the path, and its stack has at most `n` entries.
  abbrev pub Within : ℕ → Machine → Type 0
  Within n m = (length m.stack ≤ n) × (m.pos ≤ length components)

  settled : (k : ℕ) (x m : Machine) → some x ≡ some m → Within k x → Within k m
  settled k x m e h = let same : x ≡ m = cc e in subst (Within k) same h

  advanced :
      (n : ℕ) (m m' : Machine) (c : Str)
      → Within n m
      → get_elem? components m.pos ≡ some c
      → some (advance pattern components m c) ≡ some m'
      → Within (n + 1) m'
  advanced n m m' c (s, p) found e =
      settled (n + 1) (advance pattern components m c) m' e
        (omega (arith, s), get_elem?-bound components m.pos c found)

  step-Within :
      (code : OpCode) (operand n : ℕ) (m m' : Machine)
      → Within n m
      → step pattern components code operand m ≡ some m'
      → Within (n + op_growth code operand) m'
  unfolding step
  step-Within nop operand n m m' (s, p) h = settled (n + 0) m m' h (omega (arith, s), p)
  step-Within push operand n m m' w h = elim (Option-cases (get_elem? components m.pos)) [
    | inl missing ↦ absurd (cc (rw (missing, step) at h))
    | inr (c, found) ↦ advanced n m m' c w found (rw (found, step) at h)
  ]
  step-Within lit_push operand n m m' w h = elim (Option-cases (get_elem? components m.pos)) [
    | inl missing ↦ absurd (cc (rw (missing, step) at h))
    | inr (c, found) ↦ elim (Option-cases (get_elem? pattern.pool (as_usize operand))) [
      | inl no_literal ↦ absurd (cc (rw (found, no_literal, step) at h))
      | inr (l, literal_found) ↦ elim (Bool-cases (str_eq c l)) [
        | inl same ↦ advanced n m m' c w found (rw (found, literal_found, same, step) at h)
        | inr other ↦ absurd (cc (rw (found, literal_found, other, step) at h))
      ]
    ]
  ]
  step-Within push_m operand n m m' (s, p) h =
      elim (Bool-cases (ltb (length components) (m.pos + pattern.tail_len))) [
        | inl few ↦ absurd (cc (rw (few, step) at h))
        | inr enough ↦ settled (n + 1) _ m' (rw (enough, step) at h) (omega (arith, s), omega arith)
      ]
  step-Within concat_n operand n m m' (s, p) h =
      elim (Bool-cases (ltb (length m.stack) (as_usize operand))) [
        | inl few ↦ absurd (cc (rw (few, step) at h))
        | inr enough ↦
            settled _ _ m' (rw (enough, step) at h)
              (ground (arith, s, enough, length-drop (as_usize operand) m.stack), p)
      ]
  step-Within capture operand n m m' (s, p) h = elim (List-cases m.stack) [
    | inl no_value ↦ absurd (cc (rw (no_value, step) at h))
    | inr (val, rest, e) ↦
        settled (n + 0) _ m' (rw (e, step) at h) (omega (arith, s, ap length e), p)
  ]

  run-Within :
      (ops : List Op) (n : ℕ) (m m' : Machine)
      → Within n m
      → run pattern components ops m ≡ some m'
      → Within (n + growth ops) m'
  unfolding run
  run-Within [] n m m' (s, p) h = settled (n + 0) m m' h (omega (arith, s), p)
  run-Within (op ∷ ops) n m m' w h =
      let (next, stepped, rest) =
        >>=-eq-some (step pattern components op.code op.operand m) (run pattern components ops) h in
      let (s, p) =
        run-Within ops (n + op_growth op.code op.operand) next m'
          (step-Within op.code op.operand n m next w stepped) rest in
      (omega (arith, s), p)

growth-append : (xs ys : List Op) → growth (xs ++ ys) ≡ growth xs + growth ys
growth-append [] ys = omega arith
growth-append (x ∷ xs) ys = omega (arith, growth-append xs ys)

growth-part_code : (n : ℕ) (p : Part) → op_growth (part_code n p).code (part_code n p).operand ≡ 1
growth-part_code n (literal l) = refl
growth-part_code n wildcard = refl
growth-part_code n deep_wildcard = refl

growth-parts_code : (n : ℕ) (ps : List Part) → growth (parts_code n ps) ≡ length ps
growth-parts_code n [] = refl
growth-parts_code n (p ∷ ps) =
    omega (arith, growth-part_code n p, growth-parts_code (n + length (part_pool p)) ps)

growth-join_code : (n : ℕ) → n < i32_sign → growth (join_code n) ≡ 0
growth-join_code n h = elim (Bool-cases (ltb 1 n)) [
  | inl several ↦ rw (several, as_usize-as_i32 n h) (ground (arith, several))
  | inr one ↦ rw one refl
]

growth-segment_code :
    (n k : ℕ) (s : Segment) → Fits s → growth (segment_code n k s) ≡ segment_pushes s
growth-segment_code n k (part p) h = omega (arith, growth-part_code n p)
growth-segment_code n k (field v) h = refl
growth-segment_code n k (variable v p ps) h =
    growth-append (parts_code n (p ∷ ps)) (join_code (length (p ∷ ps)) ++ capture_code k)
    ∙ omega (
      arith,
      growth-append (join_code (length (p ∷ ps))) (capture_code k),
      growth-parts_code n (p ∷ ps),
      growth-join_code (length (p ∷ ps)) h,
    )

growth-code_of :
    (n k : ℕ) (ss : List Segment) → All Fits ss → growth (code_of n k ss) ≡ pushes_of ss
growth-code_of n k [] h = refl
growth-code_of n k (s ∷ ss) (h, hs) =
    growth-append (segment_code n k s) _
    ∙ ap₂ (λ a b. a + b) (growth-segment_code n k s h)
        (growth-code_of (n + length (segment_pool s)) (k + length (segment_vars s)) ss hs)

-- At every point of a run of a compiled template, the machine stands inside the path and its stack has
-- at most the size that the compiler put down: for a template in the syntax of google.api.http whose
-- indices fit an `i32`.
pub run-compile_Within :
    (t : Template) (components : List Str) (front rest : List Op) (m : Machine)
    → IsPrintable t
    → IsSmall t
    → (compile (print t)).ops ≡ front ++ rest
    → run (compile (print t)) components front start ≡ some m
    → (length m.stack ≤ (compile (print t)).stack_size) × (m.pos ≤ length components)
run-compile_Within t components front rest m printable small e h =
    let same = compile-print t printable in
    let (s, p) =
      run-Within (compile (print t)) components front 0 start m (omega arith, omega arith) h in
    let total : growth front + growth rest ≡ pushes_of t.segments =
      sym (growth-append front rest)
      ∙ ap growth (sym e ∙ ap (λ q. q.ops) same)
      ∙ growth-code_of 0 0 t.segments small.parts in
    (rw same (omega (arith, s, total)), p)
