-- ===== src/Http/LastValue.antt =====
-- What a loop of insertions leaves under a name.
use grpc_gateway_rust.Prelude.{◌≡◌, refl, ◌∙◌, sym, none, some, List, [], ◌∷◌, Str, last}
use grpc_gateway_rust.Http.{one_value}

-- The last of the values, alone; what was there before if there are none.
abbrev pub last_or : List Str → List Str → List Str
last_or before vs = elim (last vs) [ none ↦ before | some v ↦ one_value v ]

pub last_or-cons :
    (before : List Str) (v : Str) (vs : List Str)
    → last_or before (v ∷ vs) ≡ last_or (one_value v) vs
last_or-cons before v [] = refl
last_or-cons before v (u ∷ vs) = last_or-cons before u vs ∙ sym (last_or-cons (one_value v) u vs)
