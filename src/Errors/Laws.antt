-- ===== src/Errors/Laws.antt =====
-- The status codes of errors.
use grpc_gateway_rust.Prelude.{◌≤◌, ◌≡◌, ◌≢◌, ◌⊎◌, inl, inr, refl, arith}
use grpc_gateway_rust.Http.{Code, ok}
use grpc_gateway_rust.Errors.{map_code_to_status}

-- Every gRPC code but OK becomes a client or server error, which is at least 400 and at most 504, and
-- OK alone becomes 200.
pub map_code_to_status_range :
    (c : Code)
    → ((c ≡ ok) × (map_code_to_status c ≡ 200))
      ⊎ ((c ≢ ok) × (400 ≤ map_code_to_status c) × (map_code_to_status c ≤ 504))
unfolding map_code_to_status
map_code_to_status_range ok = inl (refl, refl)
map_code_to_status_range _ = inr (λ e. cc e, omega arith, omega arith)
