-- ===== src/Matching/Routing.antt =====
-- A template, its text, its pattern and the paths that it accepts.
use mathlib.Core.List.{append-nil}
use mathlib.Core.Path.{subst₂}
use grpc_gateway_rust.Prelude.{
  ◌<◌, ◌≡◌, ◌≢◌, refl, sym, ap, ◌∙◌, ◌↔◌, Option, none, some, List, [], ◌∷◌, ◌++◌, Str, Map, All,
  Lacks, length, is_empty, split, str_eq, str_eq_iff, str_eq_refl, if◌then◌else◌, Bool-cases, inl,
  inr, >>=-eq-some, i32_sign, arith,
}
use grpc_gateway_rust.Pattern.{
  route_matcher, path_components, current_verb, strip_verb, map_last, execute, start,
}
use grpc_gateway_rust.Grammar.{Segment, Template, Matches, DeepLast}
use grpc_gateway_rust.Grammar.Consume.{consume, consume_sound, consume_complete}
use grpc_gateway_rust.Grammar.Print.{print, PrintableVerb, IsPrintable}
use grpc_gateway_rust.Compiler.{compile}
use grpc_gateway_rust.Compiler.Emit.{emit, pool_of, vars_of}
use grpc_gateway_rust.Matching.Segments.{Fits, answer, code-run}
use grpc_gateway_rust.Matching.Compiling.{compile-print}
use grpc_gateway_rust.Matching.Hanging.{
  hang, unhang, map_last-inverse, current_verb-hang, hang_of_current_verb, path_components-cons,
  current_verb_empty, strip_verb_some,
}

-- The indices that the compiler casts to `i32` keep their value.
pub record IsSmall (t : Template) : Type 0 where
  pub pool : length (pool_of t.segments) < i32_sign
  pub vars : length (vars_of t.segments) < i32_sign
  pub parts : All Fits t.segments

pub execute-emit :
    (t : Template) (cs : List Str)
    → IsSmall t
    → execute (emit t) cs ≡ answer (consume t.segments cs [])
unfolding execute
execute-emit t cs small =
    code-run (emit t) cs refl small.pool small.vars t.segments 0 0 start cs [] [] small.parts
      (record { left = refl; total = omega arith }) (sym (append-nil _)) (sym (append-nil _))

whole :
    {ss : List Segment} {front cs : List Str} {k m : Map Str} (rest : List Str)
    → cs ≡ front ++ rest
    → (if is_empty rest then some k else none) ≡ some m
    → Matches ss front [] k
    → Matches ss cs [] m
whole {ss} {front} {cs} {k} [] split e h =
    let same : front ≡ cs = sym (append-nil front) ∙ sym split in
    subst₂ (λ c n. Matches ss c [] n) same (cc e) h
whole (c ∷ rest) split e h = absurd (ground (arith, e))

-- The machine, run on the code of a template over a list of components, accepts exactly what the
-- specification matches, with the same variables: for `**` at the end only and indices that fit an
-- `i32`.
pub execute-Matches_iff :
    (t : Template) (cs : List Str) (m : Map Str)
    → IsSmall t
    → DeepLast t.segments
    → (execute (emit t) cs ≡ some m) ↔ Matches t.segments cs [] m
execute-Matches_iff t cs m small deep =
    (to, λ h. execute-emit t cs small ∙ ap answer (consume_complete h deep))
  where
    to : execute (emit t) cs ≡ some m → Matches t.segments cs [] m
    to h =
        let ((k, rest), found, final) =
          >>=-eq-some (consume t.segments cs []) _ (sym (execute-emit t cs small) ∙ h) in
        let (front, split, matched) = consume_sound t.segments cs [] k rest found in
        whole rest split final matched

-- The components of a path with a verb: the verb hangs on the last one.
abbrev pub with_verb : Option Str → List Str → List Str
with_verb none cs = cs
with_verb (some v) cs = map_last (λ c. c ++ (b':' ∷ v)) cs

-- What it means that a path matches a template.
pub record Accepts (t : Template) (path : Str) (m : Map Str) : Type 0 where
  pub components : List Str
  pub spelled : path_components path ≡ with_verb t.verb components
  pub matched : Matches t.segments components [] m

abbrev template : List Segment → Option Str → Template
template ss verb = record { segments = ss; verb = verb }

route_matcher-none :
    (ss : List Segment) (path : Str)
    → route_matcher (emit (template ss none)) path
      ≡ execute (emit (template ss none)) (path_components path)
unfolding route_matcher str_eq
route_matcher-none ss path = rw (current_verb_empty (path_components path))

module _ (ss : List Segment) (v path : Str) where
  -- What `route_matcher` does for a verb, on the components `ds`.
  abbrev routed : List Str → Option (Map Str)
  routed ds =
      if str_eq v (current_verb v (path_components path))
      then execute (emit (template ss (some v))) ds
      else none

  route_matcher-some :
      v ≢ []
      → route_matcher (emit (template ss (some v))) path
        ≡ routed (map_last (unhang v) (path_components path))
  route_matcher-some ne = shape ∙ ap routed (strip_verb_some v (path_components path) ne)
    where
      shape :
          route_matcher (emit (template ss (some v))) path
          ≡ routed (strip_verb v (path_components path))
      shape = unfold route_matcher in refl

  routed-hang :
      (d : Str) (ds : List Str)
      → Lacks b':' v
      → path_components path ≡ map_last (hang v) (d ∷ ds)
      → routed (map_last (unhang v) (path_components path))
        ≡ execute (emit (template ss (some v))) (d ∷ ds)
  routed-hang d ds colon e =
      rw (e, current_verb-hang v colon d ds, str_eq_refl v)
        (ap (execute (emit (template ss (some v)))) (map_last-inverse v colon (d ∷ ds)))

route_matcher-Accepts :
    (ss : List Segment) (verb : Option Str) (path : Str) (m : Map Str)
    → PrintableVerb verb
    → IsSmall (template ss verb)
    → DeepLast ss
    → (route_matcher (emit (template ss verb)) path ≡ some m) ↔ Accepts (template ss verb) path m
route_matcher-Accepts ss none path m h small deep =
    let both = execute-Matches_iff (template ss none) (path_components path) m small deep in
    (
      λ e. record {
        components = path_components path;
        spelled = refl;
        matched = both.0 (sym (route_matcher-none ss path) ∙ e);
      },
      λ a. route_matcher-none ss path ∙ both.1 (rw (a.spelled) a.matched),
    )
route_matcher-Accepts ss (some v) path m (colon, _, ne) small deep = (to, from)
  where
    to :
        route_matcher (emit (template ss (some v))) path ≡ some m
        → Accepts (template ss (some v)) path m
    to e =
        let cs = path_components path in
        let taken = sym (route_matcher-some ss v path ne) ∙ e in
        elim (Bool-cases (str_eq v (current_verb v cs))) [
          | inl same ↦ record {
            components = map_last (unhang v) cs;
            spelled = hang_of_current_verb v colon cs ne ((str_eq_iff v _).0 same);
            matched =
                (execute-Matches_iff (template ss (some v)) _ m small deep).0 (rw same at taken);
          }
          | inr other ↦ absurd (ground (arith, other, taken))
        ]

    from :
        Accepts (template ss (some v)) path m
        → route_matcher (emit (template ss (some v))) path ≡ some m
    from a = along a.components a.spelled a.matched
      where
        along :
            (ds : List Str)
            → path_components path ≡ map_last (hang v) ds
            → Matches ss ds [] m
            → route_matcher (emit (template ss (some v))) path ≡ some m
        along [] e matched = let (c, cs, f) = path_components-cons path in absurd (cc (sym f ∙ e))
        along (d ∷ ds) e matched =
            route_matcher-some ss v path ne
            ∙ routed-hang ss v path d ds colon e
            ∙ (execute-Matches_iff (template ss (some v)) (d ∷ ds) m small deep).1 matched

-- A template that is written out, compiled and used to route accepts exactly the paths that match
-- it, and captures the values that the specification gives its variables: for a template in the
-- syntax of google.api.http, with `**` at the end only, whose indices fit an `i32`.
pub compile-route_matcher_iff :
    (t : Template) (path : Str) (m : Map Str)
    → IsPrintable t
    → IsSmall t
    → DeepLast t.segments
    → (route_matcher (compile (print t)) path ≡ some m) ↔ Accepts t path m
compile-route_matcher_iff t path m h small deep =
    rw (compile-print t h) (route_matcher-Accepts t.segments t.verb path m h.verb small deep)
