-- ===== src/Grammar.antt =====
-- The path templates of google.api.http, as the specification reads them: what a template is, when a
-- list of path components matches it, and what its variables then hold. Independent of the code.
pub mod Consume
pub mod Print
use grpc_gateway_rust.Prelude.{◌≡◌, List, [], ◌∷◌, ◌++◌, Option, Str, Map, insert, join}

-- One element of a path, outside a variable or inside one.
pub data Part : Type 0 where
  literal : Str → Part
  wildcard : Part
  deep_wildcard : Part

-- `field v` is the short form `{v}` of `{v=*}`. The pattern of a variable has one part or more.
pub data Segment : Type 0 where
  part : Part → Segment
  field : Str → Segment
  variable : Str → Part → List Part → Segment

pub record Template : Type 0 where
  pub segments : List Segment
  pub verb : Option Str

-- The text that a part matched: `*` takes one component, `**` any number of them.
pub data MatchesPart : Part → List Str → Str → Type 0 where
  a_literal : (l : Str) → MatchesPart (literal l) (l ∷ []) l
  a_wildcard : (c : Str) → MatchesPart wildcard (c ∷ []) c
  a_deep : (cs : List Str) → MatchesPart deep_wildcard cs (join b'/' cs)

pub data MatchesParts : List Part → List Str → List Str → Type 0 where
  done : MatchesParts [] [] []
  more :
      {p : Part} {ps : List Part} {cs ds es pieces : List Str} {piece : Str}
      → MatchesPart p cs piece
      → MatchesParts ps ds pieces
      → es ≡ cs ++ ds
      → MatchesParts (p ∷ ps) es (piece ∷ pieces)

-- The variables before a segment, and after it.
pub data MatchesSegment : Segment → List Str → Map Str → Map Str → Type 0 where
  plain :
      {p : Part} {cs : List Str} {piece : Str} (m : Map Str)
      → MatchesPart p cs piece
      → MatchesSegment (part p) cs m m
  one : (v c : Str) (m : Map Str) → MatchesSegment (field v) (c ∷ []) m (insert v c m)
  captured :
      (v : Str) {p : Part} {ps : List Part} {cs pieces : List Str} (m : Map Str)
      → MatchesParts (p ∷ ps) cs pieces
      → MatchesSegment (variable v p ps) cs m (insert v (join b'/' pieces) m)

pub data Matches : List Segment → List Str → Map Str → Map Str → Type 0 where
  end : (m : Map Str) → Matches [] [] m m
  next :
      {s : Segment} {ss : List Segment} {cs ds es : List Str} {m n k : Map Str}
      → MatchesSegment s cs m n
      → Matches ss ds n k
      → es ≡ cs ++ ds
      → Matches (s ∷ ss) es m k

-- `**` stands only at the very end, as the rules of google.api.http ask.
abbrev pub IsShallow : Part → Type 0
IsShallow deep_wildcard = ⊥
IsShallow _ = Unit

abbrev pub DeepLastParts : List Part → Type 0
DeepLastParts [] = Unit
DeepLastParts (p ∷ []) = Unit
DeepLastParts (p ∷ q ∷ ps) = IsShallow p × DeepLastParts (q ∷ ps)

abbrev pub AllShallow : List Part → Type 0
AllShallow [] = Unit
AllShallow (p ∷ ps) = IsShallow p × AllShallow ps

abbrev pub IsShallowSegment : Segment → Type 0
IsShallowSegment (part p) = IsShallow p
IsShallowSegment (field v) = Unit
IsShallowSegment (variable v p ps) = AllShallow (p ∷ ps)

abbrev pub DeepLastSegment : Segment → Type 0
DeepLastSegment (part p) = Unit
DeepLastSegment (field v) = Unit
DeepLastSegment (variable v p ps) = DeepLastParts (p ∷ ps)

abbrev pub DeepLast : List Segment → Type 0
DeepLast [] = Unit
DeepLast (s ∷ []) = DeepLastSegment s
DeepLast (s ∷ t ∷ ss) = IsShallowSegment s × DeepLast (t ∷ ss)
