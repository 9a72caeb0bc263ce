-- ===== src/Prelude/Word.antt =====
-- Machine integers: a value is a natural number below 2 ^ w, and wraps as in a release build.
use Prim.Native.Nat.{ℕ, ◌+◌, ◌-◌, ◌%◌, ◌<◌}
use mathlib.Core.Path.{◌≡◌}
use native.Mathlib.Omega.{arith}
use grpc_gateway_rust.Prelude.Tests.{ltb, if◌then◌else◌}

abbrev pub u64_mod : ℕ
u64_mod = 18446744073709551616

abbrev pub i32_mod : ℕ
i32_mod = 4294967296

abbrev pub i32_sign : ℕ
i32_sign = 2147483648

-- `a - b` on `usize`, 64 bits wide.
abbrev pub sub_usize : ℕ → ℕ → ℕ
sub_usize a b = (a + u64_mod - b) % u64_mod

-- `x as i32` of a `usize`: the low 32 bits. An `i32` is kept as its bit pattern.
abbrev pub as_i32 : ℕ → ℕ
as_i32 x = x % i32_mod

-- `x as usize` of an `i32`: the sign is extended.
abbrev pub as_usize : ℕ → ℕ
as_usize x = if ltb x i32_sign then x else x + u64_mod - i32_mod

pub as_usize-as_i32 : (x : ℕ) → x < i32_sign → as_usize (as_i32 x) ≡ x
as_usize-as_i32 x h = ground arith
