-- ===== src/Grammar/Consume.antt =====
-- Matching from left to right with `**` taking all that is left, and when that agrees with `Matches`.
use mathlib.Core.List.{append-nil, append_assoc}
use mathlib.Core.Path.{subst₂}
use grpc_gateway_rust.Prelude.{
  ◌≡◌, refl, sym, ap, ◌∙◌, subst, List, [], ◌∷◌, ◌++◌, Option, none, some, Str, Map, insert, join,
  str_eq, str_eq_iff, str_eq_refl, if◌then◌else◌, ◌>>=◌, >>=-eq-some, arith, Bool-cases, inl, inr,
}
use grpc_gateway_rust.Grammar.{
  Part, literal, wildcard, deep_wildcard, Segment, part, field, variable, MatchesPart, a_literal,
  a_wildcard, a_deep, MatchesParts, done, more, MatchesSegment, plain, one, captured, Matches, end,
  next, IsShallow, AllShallow, DeepLastParts, IsShallowSegment, DeepLastSegment, DeepLast,
}

-- What a part takes from the front, and what it leaves.
unfoldable pub consume_part : Part → List Str → Option (Str × List Str)
consume_part (literal l) [] = none
consume_part (literal l) (c ∷ cs) = if str_eq c l then some (c, cs) else none
consume_part wildcard [] = none
consume_part wildcard (c ∷ cs) = some (c, cs)
consume_part deep_wildcard cs = some (join b'/' cs, [])

unfoldable pub consume_parts : List Part → List Str → Option (List Str × List Str)
consume_parts [] cs = some ([], cs)
consume_parts (p ∷ ps) cs = consume_part p cs >>= λ (piece, rest).
    consume_parts ps rest >>= λ (pieces, rest'). some (piece ∷ pieces, rest')

unfoldable pub consume_segment : Segment → List Str → Map Str → Option (Map Str × List Str)
consume_segment (part p) cs m = consume_part p cs >>= λ (piece, rest). some (m, rest)
consume_segment (field v) cs m = consume_part wildcard cs >>= λ (c, rest). some (insert v c m, rest)
consume_segment (variable v p ps) cs m =
    consume_parts (p ∷ ps) cs >>= λ (pieces, rest). some (insert v (join b'/' pieces) m, rest)

unfoldable pub consume : List Segment → List Str → Map Str → Option (Map Str × List Str)
consume [] cs m = some (m, cs)
consume (s ∷ ss) cs m = consume_segment s cs m >>= λ (n, rest). consume ss rest n

-- Soundness: what was consumed matches.

sound_part :
    (p : Part) (cs : List Str) (piece : Str) (rest : List Str)
    → consume_part p cs ≡ some (piece, rest)
    → (front : List Str) × (cs ≡ front ++ rest) × MatchesPart p front piece
unfolding consume_part
sound_part (literal l) [] piece rest h = cc
sound_part (literal l) (c ∷ cs) piece rest h = elim (Bool-cases (str_eq c l)) [
  | inl same ↦
      let e : c ≡ l = (str_eq_iff c l).0 same in
      let h' : some (c, cs) ≡ some (piece, rest) = rw same at h in
      (c ∷ [], cc h', subst₂ (λ x y. MatchesPart (literal x) (c ∷ []) y) e (cc h') (a_literal c))
  | inr other ↦ absurd (ground (arith, other, h))
]
sound_part wildcard [] piece rest h = cc
sound_part wildcard (c ∷ cs) piece rest h =
    (c ∷ [], cc h, subst (λ y. MatchesPart wildcard (c ∷ []) y) (cc h) (a_wildcard c))
sound_part deep_wildcard cs piece rest h = (
  cs,
  subst (λ r. cs ≡ cs ++ r) (cc h) (sym (append-nil cs)),
  subst (λ y. MatchesPart deep_wildcard cs y) (cc h) (a_deep cs),
)

sound_parts :
    (ps : List Part) (cs pieces rest : List Str)
    → consume_parts ps cs ≡ some (pieces, rest)
    → (front : List Str) × (cs ≡ front ++ rest) × MatchesParts ps front pieces
unfolding consume_parts
sound_parts [] cs pieces rest h = ([], cc h, subst (λ y. MatchesParts [] [] y) (cc h) done)
sound_parts (p ∷ ps) cs pieces rest h =
    let ((piece, mid), first, later) = >>=-eq-some (consume_part p cs) _ h in
    let ((others, rest'), second, final) = >>=-eq-some (consume_parts ps mid) _ later in
    let (front, split, matched) = sound_part p cs piece mid first in
    let (back, split', matched') = sound_parts ps mid others rest' second in
    (
      front ++ back,
      split
          ∙ ap (λ t. front ++ t) (split' ∙ ap (λ t. back ++ t) (cc final))
          ∙ sym (append_assoc front back rest),
      subst (λ y. MatchesParts (p ∷ ps) (front ++ back) y) (cc final) (more matched matched' refl),
    )

sound_segment :
    (s : Segment) (cs : List Str) (m n : Map Str) (rest : List Str)
    → consume_segment s cs m ≡ some (n, rest)
    → (front : List Str) × (cs ≡ front ++ rest) × MatchesSegment s front m n
unfolding consume_segment consume_part
sound_segment (part p) cs m n rest h =
    let ((piece, mid), first, final) = >>=-eq-some (consume_part p cs) _ h in
    let (front, split, matched) = sound_part p cs piece mid first in
    (
      front,
      split ∙ ap (λ t. front ++ t) (cc final),
      subst (λ k. MatchesSegment (part p) front m k) (cc final) (plain m matched),
    )
sound_segment (field v) [] m n rest h = cc
sound_segment (field v) (c ∷ cs) m n rest h =
    (c ∷ [], cc h, subst (λ k. MatchesSegment (field v) (c ∷ []) m k) (cc h) (one v c m))
sound_segment (variable v p ps) cs m n rest h =
    let ((pieces, mid), first, final) = >>=-eq-some (consume_parts (p ∷ ps) cs) _ h in
    let (front, split, matched) = sound_parts (p ∷ ps) cs pieces mid first in
    (
      front,
      split ∙ ap (λ t. front ++ t) (cc final),
      subst (λ k. MatchesSegment (variable v p ps) front m k) (cc final) (captured v m matched),
    )

pub consume_sound :
    (ss : List Segment) (cs : List Str) (m k : Map Str) (rest : List Str)
    → consume ss cs m ≡ some (k, rest)
    → (front : List Str) × (cs ≡ front ++ rest) × Matches ss front m k
unfolding consume
consume_sound [] cs m k rest h = ([], cc h, subst (λ n. Matches [] [] m n) (cc h) (end m))
consume_sound (s ∷ ss) cs m k rest h =
    let ((n, mid), first, later) = >>=-eq-some (consume_segment s cs m) _ h in
    let (front, split, matched) = sound_segment s cs m n mid first in
    let (back, split', matched') = consume_sound ss mid n k rest later in
    (
      front ++ back,
      split ∙ ap (λ t. front ++ t) split' ∙ sym (append_assoc front back rest),
      next matched matched' refl,
    )

-- Completeness: shallow elements leave the rest of the path alone, and the last one leaves nothing.

complete_part :
    {p : Part} {cs : List Str} {piece : Str} (rest : List Str)
    → MatchesPart p cs piece
    → IsShallow p
    → consume_part p (cs ++ rest) ≡ some (piece, rest)
unfolding consume_part
complete_part rest (a_literal l) h = rw (str_eq_refl l)
complete_part rest (a_wildcard c) h = refl
complete_part rest (a_deep cs) h = absurd h

complete_last_part :
    {p : Part} {cs : List Str} {piece : Str}
    → MatchesPart p cs piece
    → consume_part p cs ≡ some (piece, [])
unfolding consume_part
complete_last_part (a_literal l) = rw (str_eq_refl l)
complete_last_part (a_wildcard c) = refl
complete_last_part (a_deep cs) = refl

complete_parts :
    {ps : List Part} {cs pieces : List Str} (rest : List Str)
    → MatchesParts ps cs pieces
    → AllShallow ps
    → consume_parts ps (cs ++ rest) ≡ some (pieces, rest)
unfolding consume_parts
complete_parts rest done h = refl
complete_parts rest (more {cs} {ds} first later e) (here, there) =
    rw (e, append_assoc cs ds rest, complete_part (ds ++ rest) first here)
      (rw (complete_parts rest later there))

complete_last_parts :
    {ps : List Part} {cs pieces : List Str}
    → MatchesParts ps cs pieces
    → DeepLastParts ps
    → consume_parts ps cs ≡ some (pieces, [])
unfolding consume_parts
complete_last_parts done h = refl
complete_last_parts (more {cs} first done e) h = rw (e, append-nil cs, complete_last_part first)
complete_last_parts (more {cs} {ds} first (more a b f) e) (here, there) =
    rw (e, complete_part ds first here) (rw (complete_last_parts (more a b f) there))

complete_segment :
    {s : Segment} {cs : List Str} {m n : Map Str} (rest : List Str)
    → MatchesSegment s cs m n
    → IsShallowSegment s
    → consume_segment s (cs ++ rest) m ≡ some (n, rest)
unfolding consume_segment consume_part
complete_segment rest (plain m matched) h = rw (complete_part rest matched h)
complete_segment rest (one v c m) h = refl
complete_segment rest (captured v m matched) h = rw (complete_parts rest matched h)

complete_last_segment :
    {s : Segment} {cs : List Str} {m n : Map Str}
    → MatchesSegment s cs m n
    → DeepLastSegment s
    → consume_segment s cs m ≡ some (n, [])
unfolding consume_segment consume_part
complete_last_segment (plain m matched) h = rw (complete_last_part matched)
complete_last_segment (one v c m) h = refl
complete_last_segment (captured v m matched) h = rw (complete_last_parts matched h)

pub consume_complete :
    {ss : List Segment} {cs : List Str} {m k : Map Str}
    → Matches ss cs m k
    → DeepLast ss
    → consume ss cs m ≡ some (k, [])
unfolding consume
consume_complete (end m) h = refl
consume_complete (next {cs} first (end m) e) h =
    rw (e, append-nil cs, complete_last_segment first h)
consume_complete (next {ds} first (next a b f) e) (here, there) =
    rw (e, complete_segment ds first here) (consume_complete (next a b f) there)
