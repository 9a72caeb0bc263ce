-- ===== src/Matching/Colons.antt =====
-- Where the colons of a written template stand, and how the compiler splits off the verb.
use mathlib.Core.List.{append-nil}
use grpc_gateway_rust.Prelude.{
  ℕ, ◌≡◌, refl, ap, ◌∙◌, false, Option, none, some, List, [], ◌∷◌, ◌++◌, map, Str, lit, All, Lacks,
  Lacks-append, take-length, drop-length-suc, join, ◌==◌, rfind-Lacks, rfind-append,
}
use grpc_gateway_rust.Grammar.{Part, Segment, part, field, variable}
use grpc_gateway_rust.Grammar.Print.{
  print_part, print_parts, content, print_segment, print_verb, PrintablePart, PrintableSegment,
  PrintableVerb,
}
use grpc_gateway_rust.Compiler.{split_verb}
use grpc_gateway_rust.Matching.Merging.{print_part-IsPlain}

-- No colon stands before the verb.
pub Lacks-join :
    (c : ℕ) (ps : List Str) → (b'/' == c) ≡ false → All (Lacks c) ps → Lacks c (join b'/' ps)
unfolding join
Lacks-join c [] n h = tt
Lacks-join c (p ∷ []) n (h, _) = h
Lacks-join c (p ∷ q ∷ ps) n (h, hs) =
    Lacks-append c p (b'/' ∷ join b'/' (q ∷ ps)) h (n, Lacks-join c (q ∷ ps) n hs)

colon_parts : (ps : List Part) → All PrintablePart ps → All (Lacks b':') (map print_part ps)
colon_parts [] h = tt
colon_parts (p ∷ ps) (h, hs) = ((print_part-IsPlain p h).3, colon_parts ps hs)

colon_segment : (s : Segment) → PrintableSegment s → Lacks b':' (print_segment s)
colon_segment (part p) h = (print_part-IsPlain p h).3
colon_segment (field v) ((_, _, _, colon), _) =
    (refl, Lacks-append b':' v (lit "}") colon (refl, tt))
colon_segment (variable v p ps) (((_, _, _, colon), _), h) =
    let parts = Lacks-join b':' (map print_part (p ∷ ps)) refl (colon_parts (p ∷ ps) h) in
    let inner = Lacks-append b':' v (b'=' ∷ print_parts (p ∷ ps)) colon (refl, parts) in
    (refl, Lacks-append b':' (content v (p ∷ ps)) (lit "}") inner (refl, tt))

pub colon_segments :
    (ss : List Segment) → All PrintableSegment ss → All (Lacks b':') (map print_segment ss)
colon_segments [] h = tt
colon_segments (s ∷ ss) (h, hs) = (colon_segment s h, colon_segments ss hs)

pub split_verb-print :
    (body : Str) (verb : Option Str)
    → Lacks b':' body
    → PrintableVerb verb
    → split_verb (body ++ print_verb verb) ≡ (body, verb)
unfolding split_verb
split_verb-print body none h k =
    ap split_verb (append-nil body) ∙ rw (rfind-Lacks b':' body h, split_verb)
split_verb-print body (some v) h (k, _, _) = rw (
  rfind-append b':' body v k,
  split_verb,
  take-length body (b':' ∷ v),
  drop-length-suc body b':' v,
)
