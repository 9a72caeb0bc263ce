-- ===== src/Matching/Merging.antt =====
-- The tokenizer of gateway-codegen/src/path_compiler.rs finds the segments of a printed template.
use mathlib.Core.List.{append_assoc}
use grpc_gateway_rust.Prelude.{
  ℕ, ◌≡◌, refl, ap, false, List, [], ◌∷◌, ◌++◌, map, Str, lit, All, Lacks, Lacks-append, byte_count,
  byte_count-Lacks, byte_count-append, split, join, split-Lacks, split-append, split-concat,
  is_empty, arith,
}
use grpc_gateway_rust.Grammar.{
  Part, literal, wildcard, deep_wildcard, Segment, part, field, variable,
}
use grpc_gateway_rust.Grammar.Print.{
  print_part, print_parts, print_segment, IsPlain, IsName, PrintablePart, PrintableSegment,
}
use grpc_gateway_rust.Compiler.{Merge, merge_segment, merge_segments, no_merge}

pub print_part-IsPlain : (p : Part) → PrintablePart p → IsPlain (print_part p)
print_part-IsPlain (literal l) (plain, _, _, _) = plain
print_part-IsPlain wildcard h = ((refl, tt), (refl, tt), (refl, tt), (refl, tt))
print_part-IsPlain deep_wildcard h =
    ((refl, (refl, tt)), (refl, (refl, tt)), (refl, (refl, tt)), (refl, (refl, tt)))

pub print_part-nonempty : (p : Part) → PrintablePart p → is_empty (print_part p) ≡ false
print_part-nonempty (literal []) (_, ne, _, _) = absurd (ne refl)
print_part-nonempty (literal (x ∷ l)) h = refl
print_part-nonempty wildcard h = refl
print_part-nonempty deep_wildcard h = refl

abbrev idle : List Str → Merge
idle merged = record { merged = merged; buffer = []; brace_depth = 0 }

abbrev inside : List Str → Str → Merge
inside merged buffer = record { merged = merged; buffer = buffer; brace_depth = 1 }

module _ (s : Str) (merged : List Str) (some_text : is_empty s ≡ false) where
  merge-balanced :
      (n : ℕ)
      → byte_count b'{' s ≡ n
      → byte_count b'}' s ≡ n
      → merge_segment s (idle merged) ≡ idle (merged ++ (s ∷ []))
  unfolding merge_segment
  merge-balanced n o c = rw (some_text, o, c) (ground arith)

  merge-open :
      byte_count b'{' s ≡ 1
      → byte_count b'}' s ≡ 0
      → merge_segment s (idle merged) ≡ inside merged s
  unfolding merge_segment
  merge-open o c = rw (some_text, o, c)

  merge-inside :
      (buffer : Str)
      → byte_count b'{' s ≡ 0
      → byte_count b'}' s ≡ 0
      → merge_segment s (inside merged buffer) ≡ inside merged (buffer ++ (b'/' ∷ s))
  unfolding merge_segment
  merge-inside buffer o c = rw (some_text, o, c)

  merge-close :
      (buffer : Str)
      → byte_count b'{' s ≡ 0
      → byte_count b'}' s ≡ 1
      → merge_segment s (inside merged buffer) ≡ idle (merged ++ ((buffer ++ (b'/' ∷ s)) ∷ []))
  unfolding merge_segment
  merge-close buffer o c = rw (some_text, o, c)

is_empty-append : (s : Str) (x : ℕ) (t : Str) → is_empty (s ++ (x ∷ t)) ≡ false
is_empty-append [] x t = refl
is_empty-append (y ∷ s) x t = refl

-- The last piece of a variable.
closing_counts :
    (s : Str)
    → IsPlain s
    → (byte_count b'{' (s ++ lit "}") ≡ 0)
      × (byte_count b'}' (s ++ lit "}") ≡ 1)
      × Lacks b'/' (s ++ lit "}")
closing_counts s (slash, opened, closed, _) = (
  rw (byte_count-append, byte_count-Lacks b'{' s opened) (unfold byte_count in refl),
  rw (byte_count-append, byte_count-Lacks b'}' s closed) (unfold byte_count in refl),
  Lacks-append b'/' s (lit "}") slash (refl, tt),
)

-- The pieces after the first one of a variable go to the buffer, until the brace closes.
merge-rest :
    (p : Part) (ps : List Part) (merged : List Str) (buffer : Str)
    → All PrintablePart (p ∷ ps)
    → merge_segments (split b'/' (print_parts (p ∷ ps) ++ lit "}")) (inside merged buffer)
      ≡ idle (merged ++ ((buffer ++ (b'/' ∷ (print_parts (p ∷ ps) ++ lit "}"))) ∷ []))
unfolding merge_segments join split
merge-rest p [] merged buffer (h, _) =
    let (o, c, l) = closing_counts (print_part p) (print_part-IsPlain p h) in
    rw (split-Lacks b'/' (print_part p ++ lit "}") l) (
      merge-close (print_part p ++ lit "}") merged (is_empty-append (print_part p) b'}' []) buffer o
        c)
merge-rest p (q ∷ qs) merged buffer (h, hs) =
    let (slash, opened, closed, _) = print_part-IsPlain p h in
    let tail = print_parts (q ∷ qs) ++ lit "}" in
    let e : (print_part p ++ (b'/' ∷ print_parts (q ∷ qs))) ++ lit "}"
        ≡ print_part p ++ (b'/' ∷ tail) =
      append_assoc (print_part p) (b'/' ∷ print_parts (q ∷ qs)) (lit "}") in
    rw
      (
        e,
        split-append b'/' (print_part p) tail slash,
        merge-inside (print_part p) merged (print_part-nonempty p h) buffer
            (byte_count-Lacks b'{' (print_part p) opened)
            (byte_count-Lacks b'}' (print_part p) closed),
        merge-rest q qs merged (buffer ++ (b'/' ∷ print_part p)) hs,
      )
      (ap (λ (t : Str). idle (merged ++ (t ∷ [])))
        (append_assoc buffer (b'/' ∷ print_part p) (b'/' ∷ tail)))

-- The text of a variable up to its first slash.
head_text : Str → Part → Str
head_text v p = v ++ (b'=' ∷ print_part p)

head_text-Lacks :
    (v : Str) (p : Part)
    → IsName v
    → PrintablePart p
    → Lacks b'/' (head_text v p) × Lacks b'{' (head_text v p) × Lacks b'}' (head_text v p)
unfolding head_text
head_text-Lacks v p ((s, o, c, _), _) h =
    let (s', o', c', _) = print_part-IsPlain p h in
    (
      Lacks-append b'/' v (b'=' ∷ print_part p) s (refl, s'),
      Lacks-append b'{' v (b'=' ∷ print_part p) o (refl, o'),
      Lacks-append b'}' v (b'=' ∷ print_part p) c (refl, c'),
    )

-- A piece that opens its brace and closes it.
merge-braced :
    (s : Str) (merged : List Str)
    → Lacks b'/' s
    → Lacks b'{' s
    → Lacks b'}' s
    → merge_segments (split b'/' (b'{' ∷ (s ++ lit "}"))) (idle merged)
      ≡ idle (merged ++ ((b'{' ∷ (s ++ lit "}")) ∷ []))
unfolding merge_segments
merge-braced s merged slash opened closed =
    let o : byte_count b'{' (b'{' ∷ (s ++ lit "}")) ≡ 1 =
      unfold byte_count in
      rw (byte_count-append b'{' s (lit "}"), byte_count-Lacks b'{' s opened) in
    let c : byte_count b'}' (b'{' ∷ (s ++ lit "}")) ≡ 1 =
      unfold byte_count in
      rw (byte_count-append b'}' s (lit "}"), byte_count-Lacks b'}' s closed) in
    rw
      (split-Lacks b'/' (b'{' ∷ (s ++ lit "}"))
        (refl, Lacks-append b'/' s (lit "}") slash (refl, tt)))
      (merge-balanced (b'{' ∷ (s ++ lit "}")) merged refl 1 o c)

merge-print_segment :
    (s : Segment) (merged : List Str)
    → PrintableSegment s
    → merge_segments (split b'/' (print_segment s)) (idle merged)
      ≡ idle (merged ++ (print_segment s ∷ []))
unfolding merge_segments join
merge-print_segment (part p) merged h =
    let (slash, opened, closed, _) = print_part-IsPlain p h in
    rw (split-Lacks b'/' (print_part p) slash) (
      merge-balanced (print_part p) merged (print_part-nonempty p h) 0
        (byte_count-Lacks b'{' (print_part p) opened) (byte_count-Lacks b'}' (print_part p) closed))
merge-print_segment (field v) merged ((slash, opened, closed, _), _) =
    merge-braced v merged slash opened closed
merge-print_segment (variable v p []) merged (name, (h, _)) =
    let (slash, opened, closed) = head_text-Lacks v p name h in
    unfold head_text in merge-braced (head_text v p) merged slash opened closed
merge-print_segment (variable v p (q ∷ qs)) merged (name, (h, hs)) =
    let (slash, opened, closed) = head_text-Lacks v p name h in
    let first = b'{' ∷ head_text v p in
    let tail = print_parts (q ∷ qs) ++ lit "}" in
    let o : byte_count b'{' first ≡ 1 =
      unfold byte_count in rw (byte_count-Lacks b'{' (head_text v p) opened) in
    let c : byte_count b'}' first ≡ 0 =
      unfold byte_count in rw (byte_count-Lacks b'}' (head_text v p) closed) in
    let e : print_segment (variable v p (q ∷ qs)) ≡ first ++ (b'/' ∷ tail) =
      unfold head_text join in simp append_assoc in
    rw
      (
        e,
        split-append b'/' first tail (refl, slash),
        merge_segments,
        merge-open first merged refl o c,
      )
      (merge-rest q qs merged first hs)

merge_segments-append :
    (xs ys : List Str) (m : Merge)
    → merge_segments (xs ++ ys) m ≡ merge_segments ys (merge_segments xs m)
unfolding merge_segments
merge_segments-append [] ys m = refl
merge_segments-append (x ∷ xs) ys m = merge_segments-append xs ys (merge_segment x m)

merge-print :
    (s : Segment) (ss : List Segment) (merged : List Str)
    → All PrintableSegment (s ∷ ss)
    → merge_segments (split b'/' (join b'/' (map print_segment (s ∷ ss)))) (idle merged)
      ≡ idle (merged ++ map print_segment (s ∷ ss))
unfolding join
merge-print s [] merged (h, _) = merge-print_segment s merged h
merge-print s (t ∷ ts) merged (h, hs) =
    let rest = join b'/' (map print_segment (t ∷ ts)) in
    rw
      (
        split-concat b'/' (print_segment s) rest,
        merge_segments-append (split b'/' (print_segment s)) (split b'/' rest) (idle merged),
        merge-print_segment s merged h,
        merge-print t ts (merged ++ (print_segment s ∷ [])) hs,
      )
      (ap idle (append_assoc merged (print_segment s ∷ []) (map print_segment (t ∷ ts))))

-- The tokenizer gives back the printed segments.
pub merge_segments-print :
    (ss : List Segment)
    → All PrintableSegment ss
    → (merge_segments (split b'/' (join b'/' (map print_segment ss))) no_merge).merged
      ≡ map print_segment ss
merge_segments-print [] h = unfold merge_segments merge_segment join split in refl
merge_segments-print (s ∷ ss) h = ap (λ (m : Merge). m.merged) (merge-print s ss [] h)
