-- ===== src/Prelude/FindLaws.antt =====
-- Searching a text for one byte.
use Prim.Native.Nat.{ℕ, suc, ◌+◌}
use mathlib.Core.Path.{◌≡◌, refl, ap, subst}
use mathlib.Core.Logic.{inl, inr}
use mathlib.Core.Option.{none, some}
use mathlib.Core.List.{[], ◌∷◌, ◌++◌}
use native.Mathlib.Omega.{arith}
use grpc_gateway_rust.Prelude.Tests.{◌==◌, ==_refl, ==→eq, Option-cases, Bool-cases}
use grpc_gateway_rust.Prelude.Lists.{length, take, drop}
use grpc_gateway_rust.Prelude.Text.{Str, rfind, find, byte_count}
use grpc_gateway_rust.Prelude.SplitLaws.{Lacks}

pub Lacks-append : (c : ℕ) (s t : Str) → Lacks c s → Lacks c t → Lacks c (s ++ t)
Lacks-append c [] t h k = k
Lacks-append c (x ∷ s) t (n, h) k = (n, Lacks-append c s t h k)

pub rfind-Lacks : (c : ℕ) (s : Str) → Lacks c s → rfind c s ≡ none
unfolding rfind
rfind-Lacks c [] h = refl
rfind-Lacks c (x ∷ s) (n, h) = rw (rfind-Lacks c s h, n)

pub rfind-append : (c : ℕ) (s t : Str) → Lacks c t → rfind c (s ++ (c ∷ t)) ≡ some (length s)
unfolding rfind
rfind-append c [] t h = rw (rfind-Lacks c t h, ==_refl c)
rfind-append c (x ∷ s) t h = rw (rfind-append c s t h)

pub find-Lacks : (c : ℕ) (s : Str) → Lacks c s → find c s ≡ none
unfolding find
find-Lacks c [] h = refl
find-Lacks c (x ∷ s) (n, h) = rw (n, find-Lacks c s h)

pub find-append : (c : ℕ) (s t : Str) → Lacks c s → find c (s ++ (c ∷ t)) ≡ some (length s)
unfolding find
find-append c [] t h = rw (==_refl c)
find-append c (x ∷ s) t (n, h) = rw (n, find-append c s t h)

pub byte_count-Lacks : (c : ℕ) (s : Str) → Lacks c s → byte_count c s ≡ 0
unfolding byte_count
byte_count-Lacks c [] h = refl
byte_count-Lacks c (x ∷ s) (n, h) = rw (n, byte_count-Lacks c s h)

pub byte_count-append :
    (c : ℕ) (s t : Str) → byte_count c (s ++ t) ≡ byte_count c s + byte_count c t
unfolding byte_count
byte_count-append c [] t = omega arith
byte_count-append c (x ∷ s) t = ground (arith, byte_count-append c s t)

pub Lacks-of_rfind : (c : ℕ) (s : Str) → rfind c s ≡ none → Lacks c s
unfolding rfind
Lacks-of_rfind c [] h = tt
Lacks-of_rfind c (x ∷ s) h = elim (Option-cases (rfind c s)) [
  | inl missed ↦ (ground (arith, missed, h), Lacks-of_rfind c s missed)
  | inr (j, found) ↦ absurd (ground (arith, found, h))
]

-- `i` is the position of the last `c` of `s`.
abbrev pub LastAt : ℕ → Str → ℕ → Type 0
LastAt c s i =
    (s ≡ take i s ++ (c ∷ drop (suc i) s))
    × (drop i s ≡ c ∷ drop (suc i) s)
    × Lacks c (drop (suc i) s)

pub rfind_sound : (c : ℕ) (s : Str) (i : ℕ) → rfind c s ≡ some i → LastAt c s i
unfolding rfind
rfind_sound c [] i h = cc
rfind_sound c (x ∷ s) i h = elim (Option-cases (rfind c s)) [
  | inl missed ↦ elim (Bool-cases (x == c)) [
    | inl same ↦
        let e : x ≡ c = ==→eq x c same in
        let z : 0 ≡ i = ground (arith, missed, same, h) in
        subst (LastAt c (x ∷ s)) z (ap (λ y. y ∷ s) e, ap (λ y. y ∷ s) e, Lacks-of_rfind c s missed)
    | inr other ↦ absurd (ground (arith, missed, other, h))
  ]
  | inr (j, found) ↦
      let z : suc j ≡ i = ground (arith, found, h) in
      let (whole, tail, rest) = rfind_sound c s j found in
      subst (LastAt c (x ∷ s)) z (ap (λ t. x ∷ t) whole, tail, rest)
]
