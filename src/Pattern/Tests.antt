-- ===== src/Pattern/Tests.antt =====
-- Runs of `route_matcher`, after the tests of gateway-runtime/src/pattern.rs.
use grpc_gateway_rust.Prelude.{
  ◌≡◌, refl, none, some, [], ◌∷◌, lit, str_eq, split, join, strip_prefix,
}
use grpc_gateway_rust.Prelude.{rfind, insert}
use grpc_gateway_rust.Template.{Pattern, lit_push, push_m, concat_n, capture}
use grpc_gateway_rust.Pattern.{route_matcher, step}

abbrev object : Pattern
object = record {
  ops =
      record { code = lit_push; operand = 0 }
      ∷ record { code = lit_push; operand = 1 }
      ∷ record { code = push_m; operand = 0 }
      ∷ record { code = concat_n; operand = 2 }
      ∷ record { code = capture; operand = 0 }
      ∷ [];
  pool = lit "v1" ∷ lit "o" ∷ [];
  vars = lit "name" ∷ [];
  stack_size = 2;
  tail_len = 0;
  verb = some (lit "get");
}

match_capture_complex :
    route_matcher object (lit "/v1/o/bucket/dir:get") ≡ some ((lit "name", lit "o/bucket/dir") ∷ [])
unfolding route_matcher step str_eq split join strip_prefix rfind insert
match_capture_complex = refl

match_no_verb : route_matcher object (lit "/v1/o/bucket/dir") ≡ none
unfolding route_matcher step str_eq split join strip_prefix rfind insert
match_no_verb = refl
