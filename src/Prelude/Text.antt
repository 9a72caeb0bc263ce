-- ===== src/Prelude/Text.antt =====
-- The methods of `str` that the code calls, on the bytes of a text. A separator is one ASCII byte,
-- which UTF-8 never uses inside another character, so positions and pieces are those of the code.
use Prim.Native.Nat.{ℕ, zero, suc, ◌+◌, ◌-◌, ◌*◌}
use Prim.Native.Char.{code}
use Prim.Native.String.{String}
use mathlib.Core.Bool.{Bool, true, false, ◌&&◌, ◌||◌}
use mathlib.Core.Option.{Option, none, some}
use mathlib.Core.List.{List, [], ◌∷◌, ◌++◌, map, reverse}
use grpc_gateway_rust.Prelude.Tests.{ltb, leb, ◌==◌, if◌then◌else◌}
use grpc_gateway_rust.Prelude.Lists.{is_empty}

abbrev pub Str : Type 0
Str = List ℕ

-- The bytes of an ASCII literal.
abbrev pub lit : String → Str
lit String.[] = []
lit (String.◌∷◌ c s) = code c ∷ lit s

unfoldable pub str_eq : Str → Str → Bool
str_eq [] [] = true
str_eq (a ∷ s) (b ∷ t) = (a == b) && str_eq s t
str_eq _ _ = false

abbrev pub cons_head : ℕ → List Str → List Str
cons_head x [] = (x ∷ []) ∷ []
cons_head x (p ∷ ps) = (x ∷ p) ∷ ps

-- `s.split(c)`: one piece more than there are separators.
unfoldable pub split : ℕ → Str → List Str
split c [] = [] ∷ []
split c (x ∷ s) = let rest = split c s in if x == c then [] ∷ rest else cons_head x rest

-- `pieces.join(c)`
unfoldable pub join : ℕ → List Str → Str
join c [] = []
join c (p ∷ []) = p
join c (p ∷ q ∷ ps) = p ++ (c ∷ join c (q ∷ ps))

-- `s.strip_prefix(c)`
unfoldable pub strip_prefix : ℕ → Str → Option Str
strip_prefix c [] = none
strip_prefix c (x ∷ s) = if x == c then some s else none

-- `s.trim_start_matches(c)`
unfoldable pub trim_start_matches : ℕ → Str → Str
trim_start_matches c [] = []
trim_start_matches c (x ∷ s) = let rest = trim_start_matches c s in if x == c then rest else x ∷ s

-- The white space of Unicode, in UTF-8: one byte, two, or three.
abbrev pub is_space : ℕ → Bool
is_space c = c == b' ' || (leb 9 c && leb c 13)

abbrev pub is_space_2 : ℕ → ℕ → Bool
is_space_2 a b = a == 0xC2 && (b == 0x85 || b == 0xA0)

abbrev pub is_space_3 : ℕ → ℕ → ℕ → Bool
is_space_3 a b c =
    (a == 0xE1 && b == 0x9A && c == 0x80)
    || (a == 0xE2 && b == 0x80 && (leb 0x80 c && leb c 0x8A || c == 0xA8 || c == 0xA9 || c == 0xAF))
    || (a == 0xE2 && b == 0x81 && c == 0x9F)
    || (a == 0xE3 && b == 0x80 && c == 0x80)

-- The number of bytes of white space after `a`, where `a` begins one of at least two bytes.
abbrev pub more_after : ℕ → Str → ℕ
more_after a [] = 0
more_after a (b ∷ []) = if is_space_2 a b then 1 else 0
more_after a (b ∷ c ∷ s) = if is_space_2 a b then 1 else if is_space_3 a b c then 2 else 0

-- The same in a reversed text, where `c` ends it.
abbrev pub more_before : ℕ → Str → ℕ
more_before c [] = 0
more_before c (b ∷ []) = if is_space_2 b c then 1 else 0
more_before c (b ∷ a ∷ s) = if is_space_2 b c then 1 else if is_space_3 a b c then 2 else 0

-- Skips `n` bytes, and then white space, whose further bytes `more` counts.
unfoldable pub skip_space : (ℕ → Str → ℕ) → ℕ → Str → Str
skip_space more n [] = []
skip_space more (suc n) (x ∷ s) = skip_space more n s
skip_space more zero (x ∷ s) =
    let rest = skip_space more 0 s in
    if is_space x
    then rest
    else elim (more x s) [ zero ↦ x ∷ s | suc n ↦ skip_space more (suc n) s ]

-- `s.trim()`
unfoldable pub trim : Str → Str
unfolding skip_space
trim s = reverse (skip_space more_before 0 (reverse (skip_space more_after 0 s)))

-- `s.replace(c, t)`
unfoldable pub replace : ℕ → Str → Str → Str
replace c t [] = []
replace c t (x ∷ s) = let rest = replace c t s in if x == c then t ++ rest else x ∷ rest

-- `s.split_once(c)`
abbrev pub cons_first : ℕ → Option (Str × Str) → Option (Str × Str)
cons_first x none = none
cons_first x (some (s, t)) = some (x ∷ s, t)

unfoldable pub split_once : ℕ → Str → Option (Str × Str)
split_once c [] = none
split_once c (x ∷ s) =
    let rest = split_once c s in if x == c then some ([], s) else cons_first x rest

-- `s.rfind(c)` and `s.find(c)`
unfoldable pub rfind : ℕ → Str → Option ℕ
rfind c [] = none
rfind c (x ∷ s) = elim (rfind c s) [
  | some i ↦ some (suc i)
  | none ↦ if x == c then some 0 else none
]

unfoldable pub find : ℕ → Str → Option ℕ
find c [] = none
find c (x ∷ s) =
    let rest = find c s in
    if x == c then some 0 else elim rest [ none ↦ none | some i ↦ some (suc i) ]

-- `s.chars().filter(|x| *x == c).count()`
unfoldable pub byte_count : ℕ → Str → ℕ
byte_count c [] = 0
byte_count c (x ∷ s) = if x == c then suc (byte_count c s) else byte_count c s

-- `s.starts_with(t)`, `s.ends_with(t)`, `s.contains(t)`
unfoldable pub starts_with : Str → Str → Bool
starts_with s [] = true
starts_with [] (b ∷ t) = false
starts_with (a ∷ s) (b ∷ t) = (a == b) && starts_with s t

unfoldable pub ends_with : Str → Str → Bool
unfolding starts_with
ends_with s t = starts_with (reverse s) (reverse t)

unfoldable pub contains : Str → Str → Bool
unfolding starts_with
contains [] t = is_empty t
contains (a ∷ s) t = starts_with (a ∷ s) t || contains s t

-- `s.to_lowercase()` on ASCII text
abbrev pub lower_byte : ℕ → ℕ
lower_byte c = if leb b'A' c && leb c b'Z' then c + 32 else c

unfoldable pub to_lowercase : Str → Str
to_lowercase s = map lower_byte s

abbrev pub eq_ignore_ascii_case : Str → Str → Bool
eq_ignore_ascii_case s t = str_eq (map lower_byte s) (map lower_byte t)

-- `s.parse::<uN>()`: an optional `+`, then one digit or more, below the bound at every digit.
unfoldable pub parse_digits : ℕ → ℕ → Str → Option ℕ
parse_digits bound acc [] = some acc
parse_digits bound acc (c ∷ s) =
    let n = acc * 10 + (c - b'0') in
    let rest = parse_digits bound n s in
    if (leb b'0' c && leb c b'9') && ltb n bound then rest else none

unfoldable pub parse_uint : ℕ → Str → Option ℕ
unfolding parse_digits
parse_uint bound [] = none
parse_uint bound (c ∷ []) = if c == b'+' then none else parse_digits bound 0 (c ∷ [])
parse_uint bound (c ∷ d ∷ s) =
    if c == b'+' then parse_digits bound 0 (d ∷ s) else parse_digits bound 0 (c ∷ d ∷ s)
