-- ===== src/Router/Examples.antt =====
-- The theorem on registrations at two routes of one method.
use grpc_gateway_rust.Prelude.{◌≡◌, ◌↔◌, ℕ, List, some, [], ◌∷◌, lit}
use grpc_gateway_rust.Compiler.{compile}
use grpc_gateway_rust.Router.{new, no_metadata, match_request}
use grpc_gateway_rust.Router.Registering.{
  Registration, register_all, IsFirst, match_request-IsFirst_iff,
}

abbrev two_calls : List (Registration ℕ)
two_calls =
    record {
      method = lit "GET";
      pattern = compile (lit "/foo");
      service = 1;
      metadata = no_metadata;
    }
    ∷ record {
      method = lit "GET";
      pattern = compile (lit "/{v}");
      service = 2;
      metadata = no_metadata;
    }
    ∷ []

match_request-IsFirst_iff_example :
    (match_request (register_all two_calls new) (lit "GET") (lit "/bar")
      ≡ some (2, (lit "v", lit "bar") ∷ [], no_metadata))
    ↔ IsFirst (lit "GET") (lit "/bar") two_calls (2, (lit "v", lit "bar") ∷ [], no_metadata)
match_request-IsFirst_iff_example =
    match_request-IsFirst_iff (lit "GET") (lit "/bar") two_calls
      (2, (lit "v", lit "bar") ∷ [], no_metadata)
