-- ===== src/Prelude/TextLaws.antt =====
-- Equality of texts is decided by `str_eq`.

use mathlib.Core.Path.{◌≡◌, refl}
use mathlib.Core.Logic.{◌↔◌, ◌≢◌}
use mathlib.Core.Bool.{true, false, and-eq-true_iff}
use mathlib.Core.List.{[], ◌∷◌}
use native.Mathlib.Omega.{arith}
use grpc_gateway_rust.Prelude.Tests.{◌==◌, ==→eq, ==_refl}
use grpc_gateway_rust.Prelude.Text.{Str, str_eq}

pub str_eq_refl : (s : Str) → str_eq s s ≡ true
unfolding str_eq
str_eq_refl [] = refl
str_eq_refl (a ∷ s) = rw (==_refl a) (str_eq_refl s)

str_eq_sound : (s t : Str) → str_eq s t ≡ true → s ≡ t
unfolding str_eq
str_eq_sound [] [] h = refl
str_eq_sound (a ∷ s) (b ∷ t) h =
    let (p, q) = (and-eq-true_iff (a == b) (str_eq s t)).0 h in cc (==→eq a b p, str_eq_sound s t q)
str_eq_sound [] (b ∷ t) h = cc
str_eq_sound (a ∷ s) [] h = cc

pub str_eq_iff : (s t : Str) → (str_eq s t ≡ true) ↔ (s ≡ t)
str_eq_iff s t = (str_eq_sound s t, λ e. rw e (str_eq_refl t))

pub str_eq_ne : (s t : Str) → s ≢ t → str_eq s t ≡ false
str_eq_ne s t h = ground (arith, str_eq_iff s t)

pub str_eq-false : (s t : Str) → str_eq s t ≡ false → s ≢ t
str_eq-false s t h e = cc (h, (str_eq_iff s t).1 e)
