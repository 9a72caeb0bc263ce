-- ===== src/Matching/Examples.antt =====
-- The theorems on templates at concrete templates and paths, after those of the repository's tests.
use grpc_gateway_rust.Matching.Stack.{run-compile_Within}
use grpc_gateway_rust.Template.{Op}
use grpc_gateway_rust.Prelude.{
  ap, refl, take, drop, length, ◌≤◌, str_eq, join, ◌≡◌, ◌↔◌, none, some, List, [], ◌∷◌, Str, Map,
  lit, arith,
}
use grpc_gateway_rust.Pattern.{Machine, route_matcher, execute, run, step}
use grpc_gateway_rust.Grammar.{literal, deep_wildcard, Segment, part, variable, Template}
use grpc_gateway_rust.Grammar.Print.{print, IsPrintable}
use grpc_gateway_rust.Compiler.{compile}
use grpc_gateway_rust.Compiler.Emit.{emit}
use grpc_gateway_rust.Matching.Compiling.{compile-print}
use grpc_gateway_rust.Matching.Routing.{IsSmall, Accepts, compile-route_matcher_iff}
use grpc_gateway_rust.Matching.Deep.{deep_template, execute-compile_deep}

-- /v1/{name=projects/**}:read
abbrev pub read : Template
read = record {
  segments =
      part (literal (lit "v1"))
      ∷ variable (lit "name") (literal (lit "projects")) (deep_wildcard ∷ [])
      ∷ [];
  verb = some (lit "read");
}

pub read-IsPrintable : IsPrintable read
read-IsPrintable = record { segments = ground arith; verb = ground arith }

pub read-IsSmall : IsSmall read
read-IsSmall = record { pool = omega arith; vars = omega arith; parts = (tt, (omega arith, tt)) }

abbrev pub read_path : Str
read_path = lit "/v1/projects/p/items:read"

abbrev pub read_vars : Map Str
read_vars = (lit "name", lit "projects/p/items") ∷ []

compile-print_example : compile (print read) ≡ emit read
compile-print_example = compile-print read read-IsPrintable

compile-route_matcher_iff_example :
    (route_matcher (compile (print read)) read_path ≡ some read_vars)
    ↔ Accepts read read_path read_vars
compile-route_matcher_iff_example =
    compile-route_matcher_iff read read_path read_vars read-IsPrintable read-IsSmall (tt, (tt, tt))

-- /v1/**/tail
abbrev tail_segment : Segment
tail_segment = part (literal (lit "tail"))

abbrev v1_segment : List Segment
v1_segment = part (literal (lit "v1")) ∷ []

execute-compile_deep_example :
    execute
      (compile (print (deep_template v1_segment tail_segment [] none)))
      (lit "v1" ∷ lit "a" ∷ lit "tail" ∷ [])
    ≡ none
execute-compile_deep_example =
    execute-compile_deep v1_segment tail_segment [] none (lit "v1" ∷ lit "a" ∷ lit "tail" ∷ [])
      (record { segments = ground arith; verb = tt })
      (record { pool = omega arith; vars = omega arith; parts = (tt, (tt, (tt, tt))) }) tt

-- The operations of `read` up to its variable.
abbrev read_front : List Op
read_front = take 3 (emit read).ops

abbrev at_variable : Machine
at_variable = record { stack = lit "p" ∷ lit "projects" ∷ lit "v1" ∷ []; captured = []; pos = 3 }

run-compile_Within_example :
    (length at_variable.stack ≤ (compile (print read)).stack_size)
    × (at_variable.pos ≤ length (lit "v1" ∷ lit "projects" ∷ lit "p" ∷ []))
run-compile_Within_example =
    run-compile_Within read (lit "v1" ∷ lit "projects" ∷ lit "p" ∷ []) read_front
      (drop 3 (emit read).ops) at_variable read-IsPrintable read-IsSmall
      (ap (λ p. p.ops) (compile-print read read-IsPrintable))
      (rw (compile-print read read-IsPrintable) (unfold run step str_eq join in refl))
