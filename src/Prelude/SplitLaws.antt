-- ===== src/Prelude/SplitLaws.antt =====
-- `split` and `join` undo one another.
use Prim.Native.Nat.{ℕ}
use mathlib.Core.Path.{◌≡◌, refl, ap}
use mathlib.Core.Bool.{false}
use mathlib.Core.Logic.{inl, inr}
use mathlib.Core.List.{List, [], ◌∷◌, ◌++◌}
use grpc_gateway_rust.Prelude.Tests.{◌==◌, ==_refl, Bool-cases}
use grpc_gateway_rust.Prelude.Lists.{All}
use grpc_gateway_rust.Prelude.Text.{Str, split, join}

-- The byte `c` does not occur.
abbrev pub Lacks : ℕ → Str → Type 0
Lacks c [] = Unit
Lacks c (x ∷ s) = ((x == c) ≡ false) × Lacks c s

pub split-Lacks : (c : ℕ) (s : Str) → Lacks c s → split c s ≡ s ∷ []
unfolding split
split-Lacks c [] h = refl
split-Lacks c (x ∷ s) (n, h) = rw (n, split-Lacks c s h)

pub split-append : (c : ℕ) (p s : Str) → Lacks c p → split c (p ++ (c ∷ s)) ≡ p ∷ split c s
unfolding split
split-append c [] s h = rw (==_refl c)
split-append c (x ∷ p) s (n, h) = rw (n, split-append c p s h)

-- Pieces without the separator are found again.
pub split-join :
    (c : ℕ) (p : Str) (ps : List Str) → All (Lacks c) (p ∷ ps) → split c (join c (p ∷ ps)) ≡ p ∷ ps
unfolding join
split-join c p [] (h, _) = split-Lacks c p h
split-join c p (q ∷ ps) (h, hs) =
    rw (split-append c p (join c (q ∷ ps)) h) (ap (λ t. p ∷ t) (split-join c q ps hs))

-- A text has one piece at least.
pub split-cons : (c : ℕ) (s : Str) → (p : Str) × (ps : List Str) × (split c s ≡ p ∷ ps)
unfolding split
split-cons c [] = ([], [], refl)
split-cons c (x ∷ s) =
    let (p, ps, e) = split-cons c s in
    elim (Bool-cases (x == c)) [
      | inl same ↦ ([], split c s, rw same)
      | inr other ↦ (x ∷ p, ps, rw (other, e))
    ]

-- Splitting a text at a separator splits both sides.
pub split-concat : (c : ℕ) (s t : Str) → split c (s ++ (c ∷ t)) ≡ split c s ++ split c t
unfolding split
split-concat c [] t = rw (==_refl c)
split-concat c (x ∷ s) t =
    let (p, ps, e) = split-cons c s in
    elim (Bool-cases (x == c)) [
      | inl same ↦ rw (same, split-concat c s t)
      | inr other ↦ rw (other, split-concat c s t, e)
    ]
