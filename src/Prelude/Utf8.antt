-- ===== src/Prelude/Utf8.antt =====
-- `String::from_utf8`: the bytes that are UTF-8, by the table of the Unicode standard.
use Prim.Native.Nat.{ℕ, zero, suc}
use mathlib.Core.Bool.{Bool, false, ◌&&◌}
use mathlib.Core.Option.{Option, none, some}
use mathlib.Core.List.{[], ◌∷◌}
use grpc_gateway_rust.Prelude.Tests.{leb, ltb, ◌==◌, if◌then◌else◌}
use grpc_gateway_rust.Prelude.Text.{Str}

-- How many bytes the character still needs, and the range of the next one.
pub record Utf8State : Type 0 where
  pub need : ℕ
  pub low : ℕ
  pub high : ℕ

abbrev pub between : ℕ → ℕ → ℕ → Bool
between a b c = leb a c && leb c b

abbrev pub expect : ℕ → ℕ → ℕ → Utf8State
expect need low high = record { need = need; low = low; high = high }

-- The first byte of a character.
abbrev pub first_byte : ℕ → Option Utf8State
first_byte c =
    if ltb c 128
    then some (expect 0 0 0)
    else if between 194 223 c
    then some (expect 1 128 191)
    else if c == 224
    then some (expect 2 160 191)
    else if c == 237
    then some (expect 2 128 159)
    else if between 225 239 c
    then some (expect 2 128 191)
    else if c == 240
    then some (expect 3 144 191)
    else if between 241 243 c
    then some (expect 3 128 191)
    else if c == 244
    then some (expect 3 128 143)
    else none

abbrev pub next_byte : ℕ → Utf8State → ℕ → Option Utf8State
next_byte zero s c = first_byte c
next_byte (suc n) s c = if between s.low s.high c then some (expect n 128 191) else none

unfoldable pub is_utf8_from : Utf8State → Str → Bool
is_utf8_from s [] = s.need == 0
is_utf8_from s (c ∷ cs) = elim (next_byte s.need s c) [ none ↦ false | some t ↦ is_utf8_from t cs ]

unfoldable pub is_utf8 : Str → Bool
unfolding is_utf8_from
is_utf8 s = is_utf8_from (expect 0 0 0) s
