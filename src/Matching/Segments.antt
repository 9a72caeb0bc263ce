-- ===== src/Matching/Segments.antt =====
-- The machine on whole segments: joining and capturing, and the refinement of `execute`.
use mathlib.Core.List.{reverse, reverse_aux, reverse_aux-eq, reverse-reverse, append_assoc}
use native.Mathlib.Nat.{lt_trans, add-zero}
use grpc_gateway_rust.Prelude.{
  ℕ, suc, ◌+◌, ◌-◌, ◌<◌, ◌≡◌, refl, sym, ap, ◌∙◌, true, false, Option, none, some, List, [], ◌∷◌,
  ◌++◌, Str, Map, insert, length, take, drop, is_empty, join, ltb, if◌then◌else◌, ◌>>=◌,
  >>=-eq-some, arith, as_i32, as_usize, i32_sign, as_usize-as_i32, inl, inr, take-length,
  drop-length, length-reverse, length-reverse_aux, ltb-false, lt→ltb, Option-cases, All,
}
use grpc_gateway_rust.Template.{Op, Pattern}
use grpc_gateway_rust.Pattern.{Machine, run, step, bind, finish}
use grpc_gateway_rust.Grammar.{Part, wildcard, Segment, part, field, variable}
use grpc_gateway_rust.Grammar.Consume.{consume_part, consume_parts, consume_segment, consume}
use grpc_gateway_rust.Compiler.Emit.{
  part_code, part_pool, parts_code, parts_pool, join_code, capture_code, code_of, pool_of, vars_of,
}
use grpc_gateway_rust.Matching.Machine.{
  At, at_rest, At-part, parts-run, part-step, drop-add, get_elem?-drop, drop-lt,
}

length-consume_parts :
    (qs : List Part) (rest pieces rest' : List Str)
    → consume_parts qs rest ≡ some (pieces, rest')
    → length pieces ≡ length qs
unfolding consume_parts
length-consume_parts [] rest pieces rest' h = let e : [] ≡ pieces = cc h in ap length (sym e)
length-consume_parts (q ∷ qs) rest pieces rest' h =
    let ((piece, mid), first, later) = >>=-eq-some (consume_part q rest) _ h in
    let ((others, end), second, final) = >>=-eq-some (consume_parts qs mid) _ later in
    let e : piece ∷ others ≡ pieces = cc final in
    omega (arith, length-consume_parts qs mid others end second, ap length e)

At-parts :
    (cs : List Str) (qs : List Part) (pos : ℕ) (rest pieces rest' : List Str)
    → At cs pos rest
    → consume_parts qs rest ≡ some (pieces, rest')
    → At cs (length cs - length rest') rest'
unfolding consume_parts
At-parts cs [] pos rest pieces rest' a h =
    let e : rest ≡ rest' = cc h in
    let here : pos ≡ length cs - length rest = omega (arith, a.total) in rw (← e, ← here) a
At-parts cs (q ∷ qs) pos rest pieces rest' a h =
    let ((piece, mid), first, later) = >>=-eq-some (consume_part q rest) _ h in
    let ((others, end), second, final) = >>=-eq-some (consume_parts qs mid) _ later in
    let e : end ≡ rest' = cc final in
    rw (← e) (
      At-parts cs qs (length cs - length mid) mid others end
        (At-part cs q pos rest piece mid a first) second)

reverse-take :
    (pieces stack : List Str) → reverse (take (length pieces) (reverse_aux pieces stack)) ≡ pieces
reverse-take pieces stack =
    let e : take (length pieces) (reverse_aux pieces stack) ≡ reverse pieces =
      rw (reverse_aux-eq pieces stack, ← length-reverse pieces)
        (take-length (reverse pieces) stack) in
    ap reverse e ∙ reverse-reverse pieces

drop_reverse : (pieces stack : List Str) → drop (length pieces) (reverse_aux pieces stack) ≡ stack
drop_reverse pieces stack =
    rw (reverse_aux-eq, ← length-reverse pieces) (drop-length (reverse pieces) stack)

module _ (p : Pattern) (cs : List Str) where
  capture-run :
      (k : ℕ) (m : Machine) (c v : Str) (post : List Str) (ops : List Op)
      → length p.vars < i32_sign
      → drop k p.vars ≡ v ∷ post
      → run p cs (capture_code k ++ ops) (record m { stack = c ∷ m.stack })
        ≡ run p cs ops (record m { captured = insert v c m.captured })
  unfolding run step
  capture-run k m c v post ops small h = rw (
    as_usize-as_i32 k (lt_trans (drop-lt k p.vars v post h) small),
    bind,
    get_elem?-drop k p.vars v post h,
  )

  join-run :
      (c : Str) (pieces : List Str) (m : Machine) (ops : List Op)
      → length (c ∷ pieces) < i32_sign
      → run p cs
          (join_code (length (c ∷ pieces)) ++ ops)
          (record m { stack = reverse_aux (c ∷ pieces) m.stack })
        ≡ run p cs ops (record m { stack = join b'/' (c ∷ pieces) ∷ m.stack })
  unfolding run step
  join-run c [] m ops small = unfold join in refl
  join-run c (d ∷ pieces) m ops small =
      let all = c ∷ d ∷ pieces in
      let many : ltb 1 (length all) ≡ true = lt→ltb 1 (length all) (omega arith) in
      let word : as_usize (as_i32 (length all)) ≡ length all = as_usize-as_i32 (length all) small in
      let enough : ltb (length (reverse_aux all m.stack)) (length all) ≡ false =
        ltb-false _ _ (omega (arith, length-reverse_aux all m.stack)) in
      rw (many, word, enough, reverse-take all m.stack, drop_reverse all m.stack)

  -- After its parts, a variable joins what they pushed and takes it off the stack.
  variable-run :
      (k : ℕ) (m : Machine) (pieces : List Str) (n : ℕ) (v : Str) (post : List Str) (ops : List Op)
      → length pieces ≡ suc n
      → suc n < i32_sign
      → length p.vars < i32_sign
      → drop k p.vars ≡ v ∷ post
      → run p cs
          (join_code (suc n) ++ (capture_code k ++ ops))
          (record m { stack = reverse_aux pieces m.stack })
        ≡ run p cs ops (record m { captured = insert v (join b'/' pieces) m.captured })
  variable-run k m [] n v post ops e few small h = absurd (omega (arith, e))
  variable-run k m (c ∷ pieces) n v post ops e few small h = rw (← e) (
      join-run c pieces m (capture_code k ++ ops) (omega (arith, e))
      ∙ capture-run k m (join b'/' (c ∷ pieces)) v post ops small h)

-- The part counts of the variables fit an `i32`.
abbrev pub Fits : Segment → Type 0
Fits (part q) = Unit
Fits (field v) = Unit
Fits (variable v q qs) = length (q ∷ qs) < i32_sign

-- All components must be consumed.
abbrev pub answer : Option (Map Str × List Str) → Option (Map Str)
answer o = o >>= λ (captured, rest). if is_empty rest then some captured else none

module _ (p : Pattern) (cs : List Str) (no_tail : p.tail_len ≡ 0) (small : length p.pool < i32_sign)
    (few : length p.vars < i32_sign) where
  finish-At :
      (m : Machine) (rest : List Str)
      → At cs m.pos rest
      → finish p cs m ≡ (if is_empty rest then some m.captured else none)
  finish-At m [] a = rw (ltb-false m.pos (length cs) (omega (arith, a.total)))
  finish-At m (c ∷ rest) a = rw (lt→ltb m.pos (length cs) (omega (arith, a.total)))

  part-run :
      (q : Part) (n : ℕ) (m : Machine) (rest post : List Str) (ops : List Op)
      → At cs m.pos rest
      → drop n p.pool ≡ part_pool q ++ post
      → run p cs (part_code n q ∷ ops) m
        ≡ (consume_part q rest >>= λ (piece, rest'). run p cs ops (at_rest cs m piece rest'))
  unfolding run
  part-run q n m rest post ops a h =
      rw (part-step p cs no_tail small q n m rest post a h)
        (elim (Option-cases (consume_part q rest)) [
          | inl missed ↦ rw missed
          | inr (found, e) ↦ rw e
        ])

  pub code-run :
      (ss : List Segment) (n k : ℕ) (m : Machine) (rest pool vars : List Str)
      → All Fits ss
      → At cs m.pos rest
      → drop n p.pool ≡ pool_of ss ++ pool
      → drop k p.vars ≡ vars_of ss ++ vars
      → (run p cs (code_of n k ss) m >>= finish p cs) ≡ answer (consume ss rest m.captured)
  unfolding consume consume_segment
  code-run [] n k m rest pool vars fits a hp hv = unfold run in finish-At m rest a
  code-run (part q ∷ ss) n k m rest pool vars (_, fits) a hp hv =
      let hp' = hp ∙ append_assoc (part_pool q) (pool_of ss) pool in
      rw
        (part-run q n m rest (pool_of ss ++ pool) (code_of (n + length (part_pool q)) (k + 0) ss) a
          hp')
        (elim (Option-cases (consume_part q rest)) [
          | inl missed ↦ rw missed
          | inr ((piece, rest'), found) ↦ rw found (
              code-run ss (n + length (part_pool q)) (k + 0) (at_rest cs m piece rest') rest' pool
                vars fits (At-part cs q m.pos rest piece rest' a found)
                (drop-add n p.pool (part_pool q) (pool_of ss ++ pool) hp') (rw add-zero hv))
        ])
  code-run (field v ∷ ss) n k m rest pool vars (_, fits) a hp hv =
      let later = code_of (n + 0) (k + 1) ss in
      rw (part-run wildcard n m rest (pool_of ss ++ pool) (capture_code k ++ later) a hp)
        (elim (Option-cases (consume_part wildcard rest)) [
          | inl missed ↦ rw missed
          | inr ((c, rest'), found) ↦
              let m' = record m { pos = length cs - length rest' } in
              rw (found, capture-run p cs k m' c v (vars_of ss ++ vars) later few hv)
                (code-run ss (n + 0) (k + 1) (record m' { captured = insert v c m.captured }) rest'
                  pool vars fits (At-part cs wildcard m.pos rest c rest' a found) (rw add-zero hp)
                  (drop-add k p.vars (v ∷ []) (vars_of ss ++ vars) hv))
        ])
  code-run (variable v q qs ∷ ss) n k m rest pool vars (fit, fits) a hp hv =
      let own = parts_pool (q ∷ qs) in
      let hp' = hp ∙ append_assoc own (pool_of ss) pool in
      let later = code_of (n + length own) (k + 1) ss in
      let joins = join_code (length (q ∷ qs)) in
      rw
        (
          append_assoc (parts_code n (q ∷ qs)) (joins ++ capture_code k) later,
          append_assoc joins (capture_code k) later,
          parts-run p cs no_tail small (q ∷ qs) n m rest (pool_of ss ++ pool)
              (joins ++ (capture_code k ++ later)) a hp',
        )
        (elim (Option-cases (consume_parts (q ∷ qs) rest)) [
          | inl missed ↦ rw missed
          | inr ((pieces, rest'), found) ↦
              let m' = record m { pos = length cs - length rest' } in
              let count = length-consume_parts (q ∷ qs) rest pieces rest' found in
              rw
                (
                  found,
                  variable-run p cs k m' pieces (length qs) v (vars_of ss ++ vars) later count fit
                      few hv,
                )
                (code-run ss (n + length own) (k + 1)
                  (record m' { captured = insert v (join b'/' pieces) m.captured }) rest' pool vars
                  fits (At-parts cs (q ∷ qs) m.pos rest pieces rest' a found)
                  (drop-add n p.pool own (pool_of ss ++ pool) hp')
                  (drop-add k p.vars (v ∷ []) (vars_of ss ++ vars) hv))
        ])
