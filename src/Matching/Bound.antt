-- ===== src/Matching/Bound.antt =====
-- A path that matches a template gives every variable of it a value.
use grpc_gateway_rust.Prelude.{
  ◌≡◌, inl, inr, Bool-cases, some, List, Str, Map, All, All-append, lookup, insert, lookup-insert,
  lookup-insert_self, str_eq,
}
use grpc_gateway_rust.Grammar.{
  Segment, Template, MatchesSegment, plain, one, captured, Matches, end, next,
}
use grpc_gateway_rust.Compiler.Emit.{segment_vars, vars_of}
use grpc_gateway_rust.Matching.Routing.{Accepts}

abbrev pub IsBound : Map Str → Str → Type 0
IsBound m v = (value : Str) × (lookup v m ≡ some value)

insert-IsBound : (k v value : Str) (m : Map Str) → IsBound m v → IsBound (insert k value m) v
insert-IsBound k v value m (w, found) = elim (Bool-cases (str_eq k v)) [
  | inl same ↦ (value, rw (lookup-insert k v value m, same))
  | inr other ↦ (w, rw (lookup-insert k v value m, other) found)
]

segment-keeps :
    {s : Segment} {cs : List Str} {m n : Map Str}
    → MatchesSegment s cs m n
    → (v : Str) → IsBound m v
    → IsBound n v
segment-keeps (plain m p) v h = h
segment-keeps (one u c m) v h = insert-IsBound u v c m h
segment-keeps (captured u m p) v h = insert-IsBound u v _ m h

segments-keep :
    {ss : List Segment} {cs : List Str} {m k : Map Str}
    → Matches ss cs m k
    → (v : Str) → IsBound m v
    → IsBound k v
segments-keep (end m) v h = h
segments-keep (next s ss e) v h = segments-keep ss v (segment-keeps s v h)

segment-binds :
    {s : Segment} {ss : List Segment} {cs ds : List Str} {m n k : Map Str}
    → MatchesSegment s cs m n
    → Matches ss ds n k
    → All (IsBound k) (segment_vars s)
segment-binds (plain m p) rest = tt
segment-binds (one u c m) rest = (segments-keep rest u (c, lookup-insert_self u c m), tt)
segment-binds (captured u m p) rest = (segments-keep rest u (_, lookup-insert_self u _ m), tt)

pub Matches-IsBound :
    {ss : List Segment} {cs : List Str} {m k : Map Str}
    → Matches ss cs m k
    → All (IsBound k) (vars_of ss)
Matches-IsBound (end m) = tt
Matches-IsBound (next {s} {ss} h rest e) =
    All-append (IsBound _) (segment_vars s) (vars_of ss) (segment-binds h rest)
      (Matches-IsBound rest)

pub Accepts-IsBound :
    (t : Template) (path : Str) (vars : Map Str)
    → Accepts t path vars
    → All (IsBound vars) (vars_of t.segments)
Accepts-IsBound t path vars a = Matches-IsBound a.matched
