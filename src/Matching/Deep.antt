-- ===== src/Matching/Deep.antt =====
-- Templates with `**` before the end: the compiler leaves `tail_len` at 0.
use grpc_gateway_rust.Prelude.{
  ◌≡◌, refl, ap, ◌∙◌, none, List, [], ◌∷◌, ◌++◌, Str, Map, Option-cases, inl, inr, Option,
}
use grpc_gateway_rust.Pattern.{execute}
use grpc_gateway_rust.Grammar.{
  Part, literal, wildcard, deep_wildcard, Segment, part, field, variable, Template, IsShallow,
}
use grpc_gateway_rust.Grammar.Consume.{consume_part, consume_parts, consume_segment, consume}
use grpc_gateway_rust.Grammar.Print.{print, IsPrintable}
use grpc_gateway_rust.Compiler.{compile}
use grpc_gateway_rust.Matching.Segments.{answer}
use grpc_gateway_rust.Matching.Compiling.{compile-print}
use grpc_gateway_rust.Matching.Routing.{IsSmall, execute-emit}

-- A segment that takes one component at least.
abbrev pub Needs : Segment → Type 0
Needs (part p) = IsShallow p
Needs (field v) = Unit
Needs (variable v p ps) = IsShallow p

consume_part-nil : (p : Part) → IsShallow p → consume_part p [] ≡ none
unfolding consume_part
consume_part-nil (literal l) h = refl
consume_part-nil wildcard h = refl
consume_part-nil deep_wildcard h = absurd h

consume_segment-nil : (s : Segment) (m : Map Str) → Needs s → consume_segment s [] m ≡ none
unfolding consume_segment consume_parts
consume_segment-nil (part p) m h = rw (consume_part-nil p h)
consume_segment-nil (field v) m h = rw (consume_part-nil wildcard tt)
consume_segment-nil (variable v p ps) m h = rw (consume_part-nil p h)

-- `**`, and a later segment that needs a component.
consume-deep :
    (before : List Segment) (s : Segment) (after : List Segment) (cs : List Str) (m : Map Str)
    → Needs s
    → consume (before ++ (part deep_wildcard ∷ s ∷ after)) cs m ≡ none
unfolding consume consume_segment consume_part
consume-deep [] s after cs m h = rw (consume_segment-nil s m h)
consume-deep (b ∷ before) s after cs m h = elim (Option-cases (consume_segment b cs m)) [
  | inl missed ↦ rw missed
  | inr ((n, rest), found) ↦ rw found (consume-deep before s after rest n h)
]

abbrev pub deep_template : List Segment → Segment → List Segment → Option Str → Template
deep_template before s after verb = record {
  segments = before ++ (part deep_wildcard ∷ s ∷ after);
  verb = verb;
}

-- A template that has `**` and, next, a segment which needs a component compiles to a pattern whose
-- machine accepts no list of components: for a template in the syntax of google.api.http whose indices
-- fit an `i32`.
pub execute-compile_deep :
    (before : List Segment) (s : Segment) (after : List Segment) (verb : Option Str) (cs : List Str)
    → IsPrintable (deep_template before s after verb)
    → IsSmall (deep_template before s after verb)
    → Needs s
    → execute (compile (print (deep_template before s after verb))) cs ≡ none
execute-compile_deep before s after verb cs h small needs =
    rw (compile-print (deep_template before s after verb) h) (
      execute-emit (deep_template before s after verb) cs small
      ∙ ap answer (consume-deep before s after cs [] needs))
