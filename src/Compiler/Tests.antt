-- ===== src/Compiler/Tests.antt =====
-- Templates of the repository's examples, compiled and matched.
use grpc_gateway_rust.Prelude.{
  ◌≡◌, refl, none, some, [], ◌∷◌, lit, str_eq, split, join, strip_prefix,
}
use grpc_gateway_rust.Prelude.{rfind, find, insert, byte_count, ends_with}
use grpc_gateway_rust.Pattern.{route_matcher, step}
use grpc_gateway_rust.Compiler.{compile}

compile_and_match :
    route_matcher
      (compile (lit "/v1/{name=projects/*/items/**}:read"))
      (lit "/v1/projects/p/items/a/b:read")
    ≡ some ((lit "name", lit "projects/p/items/a/b") ∷ [])
unfolding route_matcher step str_eq split join strip_prefix rfind find insert byte_count ends_with
    compile
compile_and_match = refl

-- A deep wildcard before other segments takes them too, and nothing is left for them.
deep_first_misses : route_matcher (compile (lit "/v1/**/tail")) (lit "/v1/a/tail") ≡ none
unfolding route_matcher step str_eq split join strip_prefix rfind find insert byte_count ends_with
    compile
deep_first_misses = refl
