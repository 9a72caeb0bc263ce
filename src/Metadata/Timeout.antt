-- ===== src/Metadata/Timeout.antt =====
-- The deadlines that `grpc_timeout` reads.
use mathlib.Core.Option
use grpc_gateway_rust.Prelude.{
  ℕ, ◌*◌, ◌<◌, ◌-◌, ◌≡◌, refl, false, Option, none, some, [], ◌∷◌, ◌++◌, Str, str_eq, ◌==◌,
  if◌then◌else◌, length, length-append, take-length, drop-length, parse_uint, u64_mod, is_empty,
  arith,
}
use grpc_gateway_rust.Metadata.{scale, grpc_timeout}

-- The nanoseconds of a unit.
abbrev pub nanoseconds_of : ℕ → Option ℕ
nanoseconds_of unit =
    if unit == b'H'
    then some 3600000000000
    else if unit == b'M'
    then some 60000000000
    else if unit == b'S'
    then some 1000000000
    else if unit == b'm'
    then some 1000000
    else if unit == b'u'
    then some 1000
    else if unit == b'n'
    then some 1
    else none

scale_lem :
    (unit n : ℕ)
    → n * 3600 < u64_mod
    → scale (unit ∷ []) n ≡ Option.map (λ k. n * k) (nanoseconds_of unit)
unfolding str_eq
scale_lem unit n h = ground (arith, h)

-- A number and a unit are read as that many units, in nanoseconds, and any other last byte as
-- nothing: for a number of hours that fits a u64 in seconds.
pub grpc_timeout-nanoseconds_of :
    (s : Str) (unit n : ℕ)
    → parse_uint u64_mod s ≡ some n
    → n * 3600 < u64_mod
    → grpc_timeout (s ++ (unit ∷ [])) ≡ Option.map (λ k. n * k) (nanoseconds_of unit)
unfolding grpc_timeout
grpc_timeout-nanoseconds_of s unit n parsed h =
    let front : length (s ++ (unit ∷ [])) - 1 ≡ length s =
      omega (arith, length-append s (unit ∷ [])) in
    rw (nonempty s, front, take-length s (unit ∷ []), drop-length s (unit ∷ []), parsed)
      (scale_lem unit n h)
  where
    nonempty : (t : Str) → is_empty (t ++ (unit ∷ [])) ≡ false
    nonempty [] = refl
    nonempty (c ∷ t) = refl
