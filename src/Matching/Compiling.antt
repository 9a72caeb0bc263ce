-- ===== src/Matching/Compiling.antt =====
-- gateway-codegen/src/path_compiler.rs on the text of a template emits the code of the template.
use mathlib.Core.List.{append_assoc, append-nil, reverse-append}
use native.Mathlib.Nat.{add-zero}
use grpc_gateway_rust.Prelude.{
  ℕ, ◌+◌, ◌-◌, ◌≡◌, refl, sym, ap, ap₂, ◌∙◌, true, false, List, [], ◌∷◌, ◌++◌, map, Str, lit, All,
  Lacks, length, length-append, take, take-length, drop-length-suc, split, join, split-join,
  starts_with, ends_with, str_eq, str_eq_ne, ltb, Bool-cases, inl, inr, find-Lacks, find-append,
  strip_prefix, arith,
}
use grpc_gateway_rust.Template.{Op, push}
use grpc_gateway_rust.Grammar.{
  Part, literal, wildcard, deep_wildcard, Segment, part, field, variable, Template,
}
use grpc_gateway_rust.Grammar.Print.{
  print_part, print_parts, content, print_segment, print, IsName, PrintablePart, PrintableSegment,
  IsPrintable,
}
use grpc_gateway_rust.Compiler.{
  Builder, no_code, push_op, compile_part, compile_parts, split_variable, push_capture,
  compile_variable, is_variable, compile_segment, compile_segments, compile,
}
use grpc_gateway_rust.Compiler.Emit.{
  part_code, part_pool, parts_code, parts_pool, join_code, capture_code, segment_code, segment_pool,
  segment_vars, segment_pushes, code_of, pool_of, vars_of, pushes_of, emit,
}
use grpc_gateway_rust.Matching.Colons.{Lacks-join, colon_segments, split_verb-print}
use grpc_gateway_rust.Matching.Merging.{print_part-IsPlain, merge_segments-print}

-- A builder after the code of some parts, of a segment, of all segments.
abbrev add_part : Builder → Part → Builder
add_part b p = record b {
  ops = b.ops ++ (part_code (length b.pool) p ∷ []);
  pool = b.pool ++ part_pool p;
}

abbrev add_parts : Builder → List Part → Builder
add_parts b ps = record b {
  ops = b.ops ++ parts_code (length b.pool) ps;
  pool = b.pool ++ parts_pool ps;
}

abbrev add_segment : Builder → Segment → Builder
add_segment b s = record {
  ops = b.ops ++ segment_code (length b.pool) (length b.vars) s;
  pool = b.pool ++ segment_pool s;
  vars = b.vars ++ segment_vars s;
  stack_size = b.stack_size + segment_pushes s;
}

abbrev add_segments : Builder → List Segment → Builder
add_segments b ss = record {
  ops = b.ops ++ code_of (length b.pool) (length b.vars) ss;
  pool = b.pool ++ pool_of ss;
  vars = b.vars ++ vars_of ss;
  stack_size = b.stack_size + pushes_of ss;
}

-- Two builders with the same fields are the same.
Builder-eq :
    {o o' : List Op} {p p' v v' : List Str} {s s' : ℕ}
    → o ≡ o'
    → p ≡ p'
    → v ≡ v'
    → s ≡ s'
    → ◌≡◌ {A = Builder}
        (record { ops = o; pool = p; vars = v; stack_size = s })
        (record { ops = o'; pool = p'; vars = v'; stack_size = s' })
Builder-eq eo ep ev es = λ i. record { ops = eo i; pool = ep i; vars = ev i; stack_size = es i }

compile_part-print :
    (p : Part) (b : Builder) → PrintablePart p → compile_part (print_part p) b ≡ add_part b p
unfolding compile_part
compile_part-print (literal l) b (_, _, one_star, two_stars) =
    rw (str_eq_ne l (lit "*") one_star, str_eq_ne l (lit "**") two_stars)
compile_part-print wildcard b h =
    unfold str_eq in Builder-eq refl (sym (append-nil b.pool)) refl refl
compile_part-print deep_wildcard b h =
    unfold str_eq in Builder-eq refl (sym (append-nil b.pool)) refl refl

add_part-add_parts :
    (b : Builder) (p : Part) (ps : List Part) → add_parts (add_part b p) ps ≡ add_parts b (p ∷ ps)
add_part-add_parts b p ps =
    Builder-eq
      (rw (length-append b.pool (part_pool p))
        (append_assoc b.ops (part_code (length b.pool) p ∷ []) _))
      (append_assoc b.pool (part_pool p) (parts_pool ps)) refl refl

compile_parts-print :
    (ps : List Part) (b : Builder) (n : ℕ)
    → All PrintablePart ps
    → compile_parts (map print_part ps) b n ≡ (add_parts b ps, n + length ps)
unfolding compile_parts
compile_parts-print [] b n h =
    ap₂ (λ (x : Builder) (k : ℕ). (x, k))
      (Builder-eq (sym (append-nil b.ops)) (sym (append-nil b.pool)) refl refl) (sym (add-zero n))
compile_parts-print (p ∷ ps) b n (h, hs) =
    ap (λ (x : Builder). compile_parts (map print_part ps) x (n + 1)) (compile_part-print p b h)
    ∙ compile_parts-print ps (add_part b p) (n + 1) hs
    ∙ ap₂ (λ (x : Builder) (k : ℕ). (x, k)) (add_part-add_parts b p ps) (omega arith)

-- The text between the braces is read as a name and parts.
split-content :
    (v : Str) (ps : List Part) → Lacks b'=' v → split_variable (content v ps) ≡ (v, print_parts ps)
split-content v ps h = rw (
  find-append b'=' v (print_parts ps) h,
  split_variable,
  take-length v (b'=' ∷ print_parts ps),
  drop-length-suc v b'=' (print_parts ps),
)

split-print_parts :
    (p : Part) (ps : List Part)
    → All PrintablePart (p ∷ ps)
    → split b'/' (print_parts (p ∷ ps)) ≡ map print_part (p ∷ ps)
split-print_parts p ps h = split-join b'/' (print_part p) (map print_part ps) (slashes (p ∷ ps) h)
  where
    slashes : (qs : List Part) → All PrintablePart qs → All (Lacks b'/') (map print_part qs)
    slashes [] k = tt
    slashes (q ∷ qs) (k, ks) = ((print_part-IsPlain q k).0, slashes qs ks)

split-field : (v : Str) → Lacks b'=' v → split_variable v ≡ (v, lit "*")
split-field v h = rw (find-Lacks b'=' v h, split_variable)

-- What `push_capture` appends.
push_capture_lem :
    (v : Str) (n : ℕ) (b : Builder)
    → push_capture v n b ≡ record {
      ops = b.ops ++ (join_code n ++ capture_code (length b.vars));
      pool = b.pool;
      vars = b.vars ++ (v ∷ []);
      stack_size = b.stack_size + n;
    }
push_capture_lem v n b = elim (Bool-cases (ltb 1 n)) [
  | inl many ↦ rw many (Builder-eq (append_assoc b.ops _ _) refl refl refl)
  | inr one ↦ rw one
]

compile_variable-print :
    (v : Str) (p : Part) (ps : List Part) (b : Builder)
    → IsName v
    → All PrintablePart (p ∷ ps)
    → compile_variable (content v (p ∷ ps)) b ≡ add_segment b (variable v p ps)
unfolding compile_variable
compile_variable-print v p ps b (_, name) h =
    let count : 0 + length (p ∷ ps) ≡ length (p ∷ ps) = omega arith in
    rw
      (
        split-content v (p ∷ ps) name,
        split-print_parts p ps h,
        compile_parts-print (p ∷ ps) b 0 h,
        push_capture_lem v (0 + length (p ∷ ps)) (add_parts b (p ∷ ps)),
        count,
      )
      (Builder-eq (append_assoc b.ops (parts_code (length b.pool) (p ∷ ps)) _) refl refl refl)

compile_variable-field :
    (v : Str) (b : Builder) → IsName v → compile_variable v b ≡ add_segment b (field v)
unfolding compile_variable str_eq split
compile_variable-field v b (_, name) =
    rw (split-field v name, push_capture_lem v (0 + 1) (push_op push 0 b))
      (Builder-eq (append_assoc b.ops _ _) (sym (append-nil b.pool)) refl refl)

is_variable_braced : (s : Str) → is_variable (b'{' ∷ (s ++ lit "}")) ≡ true
unfolding starts_with ends_with
is_variable_braced s = rw (reverse-append (b'{' ∷ s) (lit "}"))

inner_text : (s : Str) → take (length (b'{' ∷ (s ++ lit "}")) - 2) (s ++ lit "}") ≡ s
inner_text s =
    let e : length (b'{' ∷ (s ++ lit "}")) - 2 ≡ length s =
      omega (arith, length-append s (lit "}")) in
    rw e (take-length s (lit "}"))

is_variable-literal : (l : Str) → Lacks b'{' l → is_variable l ≡ false
unfolding starts_with
is_variable-literal [] h = refl
is_variable-literal (x ∷ l) (n, h) = rw n

-- A segment in braces goes to `compile_variable`.
compile_segment-braced :
    (s : Str) (b : Builder) → compile_segment (b'{' ∷ (s ++ lit "}")) b ≡ compile_variable s b
unfolding compile_segment str_eq
compile_segment-braced s b = rw (is_variable_braced s, inner_text s)

compile_segment-print :
    (s : Segment) (b : Builder)
    → PrintableSegment s
    → compile_segment (print_segment s) b ≡ add_segment b s
compile_segment-print (part (literal l)) b ((_, opened, _, _), _, one_star, two_stars) =
    unfold compile_segment in
    rw
      (
        str_eq_ne l (lit "*") one_star,
        str_eq_ne l (lit "**") two_stars,
        is_variable-literal l opened,
      )
      (Builder-eq refl refl (sym (append-nil b.vars)) refl)
compile_segment-print (part wildcard) b h =
    unfold compile_segment str_eq in
    Builder-eq refl (sym (append-nil b.pool)) (sym (append-nil b.vars)) refl
compile_segment-print (part deep_wildcard) b h =
    unfold compile_segment str_eq in
    Builder-eq refl (sym (append-nil b.pool)) (sym (append-nil b.vars)) refl
compile_segment-print (field v) b h = compile_segment-braced v b ∙ compile_variable-field v b h
compile_segment-print (variable v p ps) b (name, h) =
    compile_segment-braced (content v (p ∷ ps)) b ∙ compile_variable-print v p ps b name h

add_segment-add_segments :
    (b : Builder) (s : Segment) (ss : List Segment)
    → add_segments (add_segment b s) ss ≡ add_segments b (s ∷ ss)
add_segment-add_segments b s ss =
    Builder-eq
      (rw (length-append b.pool (segment_pool s), length-append b.vars (segment_vars s))
        (append_assoc b.ops (segment_code (length b.pool) (length b.vars) s) _))
      (append_assoc b.pool (segment_pool s) (pool_of ss))
      (append_assoc b.vars (segment_vars s) (vars_of ss)) (omega arith)

compile_segments-print :
    (ss : List Segment) (b : Builder)
    → All PrintableSegment ss
    → compile_segments (map print_segment ss) b ≡ add_segments b ss
unfolding compile_segments
compile_segments-print [] b h =
    Builder-eq (sym (append-nil b.ops)) (sym (append-nil b.pool)) (sym (append-nil b.vars))
      (omega arith)
compile_segments-print (s ∷ ss) b (h, hs) =
    ap (λ (x : Builder). compile_segments (map print_segment ss) x) (compile_segment-print s b h)
    ∙ compile_segments-print ss (add_segment b s) hs
    ∙ add_segment-add_segments b s ss

-- Compiling the text of a template in the syntax of google.api.http gives its code: nothing of the
-- template is lost or misread.
pub compile-print : (t : Template) → IsPrintable t → compile (print t) ≡ emit t
unfolding compile strip_prefix
compile-print t h =
    let body = join b'/' (map print_segment t.segments) in
    let colon =
      Lacks-join b':' (map print_segment t.segments) refl (colon_segments t.segments h.segments) in
    let count : 0 + pushes_of t.segments ≡ pushes_of t.segments = omega arith in
    rw (
      split_verb-print body t.verb colon h.verb,
      merge_segments-print t.segments h.segments,
      compile_segments-print t.segments no_code h.segments,
      count,
    )
