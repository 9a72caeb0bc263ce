-- ===== src/Matching/Machine.antt =====
-- The machine of gateway-runtime/src/pattern.rs on the code of a template does what `consume` says.
use mathlib.Core.List.{reverse_aux, append_assoc}
use native.Mathlib.Numerals.{add-one}
use native.Mathlib.Nat.{add-zero, lt_trans}
use grpc_gateway_rust.Prelude.{
  ℕ, suc, zero, ◌+◌, ◌-◌, ◌<◌, ◌≡◌, refl, ap, ◌∙◌, false, none, some, List, [], ◌∷◌, ◌++◌, Str,
  length, get_elem?, drop, ltb, str_eq, ◌>>=◌, arith, i32_sign, as_usize-as_i32, Bool-cases, inl,
  inr, take_all, drop_all, ltb-false, Option-cases, length-drop,
}
use grpc_gateway_rust.Template.{Op, Pattern}
use grpc_gateway_rust.Pattern.{Machine, run, step}
use grpc_gateway_rust.Grammar.{Part, literal, wildcard, deep_wildcard}
use grpc_gateway_rust.Grammar.Consume.{consume_part, consume_parts}
use grpc_gateway_rust.Compiler.Emit.{part_code, part_pool, parts_code, parts_pool}

module _ {ℓ} {A : Type ℓ} where
  pub get_elem?-drop :
      (n : ℕ) (xs : List A) (y : A) (ys : List A) → drop n xs ≡ y ∷ ys → get_elem? xs n ≡ some y
  get_elem?-drop zero (x ∷ xs) y ys h = cc
  get_elem?-drop (suc n) (x ∷ xs) y ys h = get_elem?-drop n xs y ys h
  get_elem?-drop zero [] y ys h = cc
  get_elem?-drop (suc n) [] y ys h = cc

  get_elem?-drop_nil : (n : ℕ) (xs : List A) → drop n xs ≡ [] → get_elem? xs n ≡ none
  get_elem?-drop_nil n [] h = refl
  get_elem?-drop_nil zero (x ∷ xs) h = cc
  get_elem?-drop_nil (suc n) (x ∷ xs) h = get_elem?-drop_nil n xs h

  drop-suc : (n : ℕ) (xs : List A) (y : A) (ys : List A) → drop n xs ≡ y ∷ ys → drop (suc n) xs ≡ ys
  drop-suc zero (x ∷ xs) y ys h = cc
  drop-suc (suc n) (x ∷ xs) y ys h = drop-suc n xs y ys h
  drop-suc zero [] y ys h = cc
  drop-suc (suc n) [] y ys h = cc

  drop-add_one :
      (n : ℕ) (xs : List A) (y : A) (ys : List A) → drop n xs ≡ y ∷ ys → drop (n + 1) xs ≡ ys
  drop-add_one n xs y ys h = rw add-one (drop-suc n xs y ys h)

  pub drop-add : (n : ℕ) (xs ys zs : List A) → drop n xs ≡ ys ++ zs → drop (n + length ys) xs ≡ zs
  drop-add n xs [] zs h = rw add-zero h
  drop-add n xs (y ∷ ys) zs h =
      let e : n + suc (length ys) ≡ suc n + length ys = omega arith in
      rw e (drop-add (suc n) xs ys zs (drop-suc n xs y (ys ++ zs) h))

  pub drop-lt : (n : ℕ) (xs : List A) (y : A) (ys : List A) → drop n xs ≡ y ∷ ys → n < length xs
  drop-lt n xs y ys h = omega (arith, length-drop n xs, ap length h)

-- `rest` is what the position leaves of the components.
pub record At (components : List Str) (pos : ℕ) (rest : List Str) : Type 0 where
  pub left : drop pos components ≡ rest
  pub total : pos + length rest ≡ length components

abbrev pub at_rest : List Str → Machine → Str → List Str → Machine
at_rest cs m piece rest = record m { stack = piece ∷ m.stack; pos = length cs - length rest }

module _ (cs : List Str) where
  At-next :
      (pos : ℕ) (c : Str) (rest : List Str)
      → At cs pos (c ∷ rest)
      → pos + 1 ≡ length cs - length rest
  At-next pos c rest a = omega (arith, a.total)

  pub At-part :
      (q : Part) (pos : ℕ) (rest : List Str) (piece : Str) (rest' : List Str)
      → At cs pos rest
      → consume_part q rest ≡ some (piece, rest')
      → At cs (length cs - length rest') rest'
  unfolding consume_part
  At-part (literal l) pos [] piece rest' a h = cc
  At-part (literal l) pos (c ∷ rest) piece rest' a h =
      let e : rest ≡ rest' = ground (arith, h) in
      rw (← e, ← At-next pos c rest a)
        (record { left = drop-add_one pos cs c rest a.left; total = omega (arith, a.total) })
  At-part wildcard pos [] piece rest' a h = cc
  At-part wildcard pos (c ∷ rest) piece rest' a h =
      let e : rest ≡ rest' = cc h in
      rw (← e, ← At-next pos c rest a)
        (record { left = drop-add_one pos cs c rest a.left; total = omega (arith, a.total) })
  At-part deep_wildcard pos rest piece rest' a h =
      let e : [] ≡ rest' = cc h in
      let z : length cs - 0 ≡ length cs = omega arith in
      rw (← e, z) (record { left = drop_all cs; total = omega arith })

module _ (p : Pattern) (cs : List Str) (no_tail : p.tail_len ≡ 0)
    (small : length p.pool < i32_sign) where
  pub part-step :
      (q : Part) (n : ℕ) (m : Machine) (rest post : List Str)
      → At cs m.pos rest
      → drop n p.pool ≡ part_pool q ++ post
      → step p cs (part_code n q).code (part_code n q).operand m
        ≡ (consume_part q rest >>= λ (piece, rest'). some (at_rest cs m piece rest'))
  unfolding step consume_part
  part-step (literal l) n m [] post a h = rw (get_elem?-drop_nil m.pos cs a.left, step)
  part-step (literal l) n m (c ∷ rest) post a h =
      rw
        (
          get_elem?-drop m.pos cs c rest a.left,
          as_usize-as_i32 n (lt_trans (drop-lt n p.pool l post h) small),
          get_elem?-drop n p.pool l post h,
          step,
        )
        (elim (Bool-cases (str_eq c l)) [
          | inl same ↦ rw (same, At-next cs m.pos c rest a)
          | inr other ↦ rw other
        ])
  part-step wildcard n m [] post a h = rw (get_elem?-drop_nil m.pos cs a.left, step)
  part-step wildcard n m (c ∷ rest) post a h =
      rw (get_elem?-drop m.pos cs c rest a.left, step, At-next cs m.pos c rest a)
  part-step deep_wildcard n m rest post a h =
      let room : ltb (length cs) (m.pos + p.tail_len) ≡ false =
        ltb-false _ _ (omega (arith, a.total)) in
      let count : length cs - p.tail_len - m.pos ≡ length rest = omega (arith, a.total) in
      let last : length cs - p.tail_len ≡ length cs - 0 = omega arith in
      rw (room, count, last, a.left, take_all rest)

  pub parts-run :
      (qs : List Part) (n : ℕ) (m : Machine) (rest post : List Str) (ops : List Op)
      → At cs m.pos rest
      → drop n p.pool ≡ parts_pool qs ++ post
      → run p cs (parts_code n qs ++ ops) m ≡ (
          consume_parts qs rest >>= λ (pieces, rest').
          run p cs ops
            (record m { stack = reverse_aux pieces m.stack; pos = length cs - length rest' }))
  unfolding run consume_parts
  parts-run [] n m rest post ops a h =
      let e : length cs - length rest ≡ m.pos = omega (arith, a.total) in rw e
  parts-run (q ∷ qs) n m rest post ops a h =
      let h' : drop n p.pool ≡ part_pool q ++ (parts_pool qs ++ post) =
        h ∙ append_assoc (part_pool q) (parts_pool qs) post in
      rw (part-step q n m rest (parts_pool qs ++ post) a h')
        (elim (Option-cases (consume_part q rest)) [
          | inl missed ↦ rw missed
          | inr ((piece, rest'), found) ↦
              rw
                (
                  found,
                  parts-run qs (n + length (part_pool q)) (at_rest cs m piece rest') rest' post ops
                      (At-part cs q m.pos rest piece rest' a found)
                      (drop-add n p.pool (part_pool q) (parts_pool qs ++ post) h'),
                )
                (elim (Option-cases (consume_parts qs rest')) [
                  | inl missed ↦ rw missed
                  | inr ((pieces, rest''), got) ↦ rw got
                ])
        ])
