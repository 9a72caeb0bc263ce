-- ===== src/Prelude/Attempts.antt =====
-- `Result<A, E>`: a value or an error, and the chains that `?` makes of them.
use mathlib.Core.Path.{◌≡◌, refl}
use mathlib.Core.Logic.{◌⊎◌, inl, inr}

pub data Attempt {ℓ} (E : Type 0) (A : Type ℓ) : Type ℓ where
  done : A → Attempt E A
  stopped : E → Attempt E A

infixl 5 ◌>>=!◌
abbrev pub ◌>>=!◌ {ℓ κ} :
    {E : Type 0} {A : Type ℓ} {B : Type κ} → Attempt E A → (A → Attempt E B) → Attempt E B
done a >>=! k = k a
stopped e >>=! k = stopped e

pub Attempt-cases {ℓ} :
    {E : Type 0} {A : Type ℓ} (r : Attempt E A)
    → ((e : E) × (r ≡ stopped e)) ⊎ ((a : A) × (r ≡ done a))
Attempt-cases (stopped e) = inl (e, refl)
Attempt-cases (done a) = inr (a, refl)
