-- ===== src/Grammar/Print.antt =====
-- The text of a template, and the templates whose text can be read back.
use grpc_gateway_rust.Prelude.{
  ◌≢◌, Option, none, some, List, [], ◌∷◌, ◌++◌, map, Str, lit, join, Lacks, All,
}
use grpc_gateway_rust.Grammar.{
  Part, literal, wildcard, deep_wildcard, Segment, part, field, variable, Template,
}

abbrev pub print_part : Part → Str
print_part (literal l) = l
print_part wildcard = lit "*"
print_part deep_wildcard = lit "**"

abbrev pub print_parts : List Part → Str
print_parts ps = join b'/' (map print_part ps)

-- What stands between the braces of a variable.
abbrev pub content : Str → List Part → Str
content v ps = v ++ (b'=' ∷ print_parts ps)

abbrev pub print_segment : Segment → Str
print_segment (part p) = print_part p
print_segment (field v) = b'{' ∷ (v ++ lit "}")
print_segment (variable v p ps) = b'{' ∷ (content v (p ∷ ps) ++ lit "}")

abbrev pub print_verb : Option Str → Str
print_verb none = []
print_verb (some v) = b':' ∷ v

abbrev pub print : Template → Str
print t = b'/' ∷ (join b'/' (map print_segment t.segments) ++ print_verb t.verb)

-- No byte with a meaning in templates.
abbrev pub IsPlain : Str → Type 0
IsPlain s = Lacks b'/' s × Lacks b'{' s × Lacks b'}' s × Lacks b':' s

abbrev pub IsLiteral : Str → Type 0
IsLiteral l = IsPlain l × (l ≢ []) × (l ≢ lit "*") × (l ≢ lit "**")

abbrev pub IsName : Str → Type 0
IsName v = IsPlain v × Lacks b'=' v

abbrev pub PrintablePart : Part → Type 0
PrintablePart (literal l) = IsLiteral l
PrintablePart wildcard = Unit
PrintablePart deep_wildcard = Unit

abbrev pub PrintableSegment : Segment → Type 0
PrintableSegment (part p) = PrintablePart p
PrintableSegment (field v) = IsName v
PrintableSegment (variable v p ps) = IsName v × All PrintablePart (p ∷ ps)

abbrev pub PrintableVerb : Option Str → Type 0
PrintableVerb none = Unit
PrintableVerb (some v) = Lacks b':' v × Lacks b'/' v × (v ≢ [])

pub record IsPrintable (t : Template) : Type 0 where
  pub segments : All PrintableSegment t.segments
  pub verb : PrintableVerb t.verb
