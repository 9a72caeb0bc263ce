-- ===== src/Layers/Body/Boxing.antt =====
-- What the adapters keep of a request and of a response body.
use grpc_gateway_rust.Prelude.{ℕ, ◌+◌, ◌≤◌, ◌≡◌, refl, ap, [], ◌∷◌, Str, All, arith}
use grpc_gateway_rust.Http.Message.{
  Request, Service, Poll, pending, frame, failed, data_frame, trailers, Body,
}
use grpc_gateway_rust.Errors.{GatewayError, custom}
use grpc_gateway_rust.Layers.Governance.{limited}
use grpc_gateway_rust.Layers.Governance.Limits.{bytes_of, limited-eq_iff}
use grpc_gateway_rust.Layers.Body.{vec_poll_frame, wrap_request, vec_body_call, box_body}

-- A request that is wrapped for tower-http and unwrapped again is the same request, but if a layer
-- in between has polled the body, the inner service gets an empty one.
pub vec_body_call-wrap_request :
    {H M W : Type 0} (inner : Service H M W) (req : Request H M) (w : W)
    → (vec_body_call inner (wrap_request req) w ≡ inner req w)
      × (vec_body_call inner ((wrap_request req).0, (vec_poll_frame (wrap_request req).1).1) w
          ≡ inner (record req { body = [] }) w)
unfolding vec_body_call vec_poll_frame
vec_body_call-wrap_request inner req w = (refl, refl)

-- The error of a poll, if it has one, has status 500.
abbrev pub IsInternal : Poll → Type 0
IsInternal (failed (custom s m)) = s ≡ 500
IsInternal (failed e) = ⊥
IsInternal (frame f) = Unit
IsInternal pending = Unit

box_body-IsInternal :
    (to_string : GatewayError → Str) (b : Body) → All IsInternal (box_body to_string b)
unfolding box_body
box_body-IsInternal to_string [] = tt
box_body-IsInternal to_string (failed e ∷ ps) = (refl, box_body-IsInternal to_string ps)
box_body-IsInternal to_string (pending ∷ ps) = (tt, box_body-IsInternal to_string ps)
box_body-IsInternal to_string (frame f ∷ ps) = (tt, box_body-IsInternal to_string ps)

bytes_of-box_body :
    (to_string : GatewayError → Str) (b : Body) → bytes_of (box_body to_string b) ≡ bytes_of b
unfolding box_body
bytes_of-box_body to_string [] = refl
bytes_of-box_body to_string (failed e ∷ ps) = ap (λ n. 0 + n) (bytes_of-box_body to_string ps)
bytes_of-box_body to_string (pending ∷ ps) = ap (λ n. 0 + n) (bytes_of-box_body to_string ps)
bytes_of-box_body to_string (frame (data_frame bytes) ∷ ps) =
    omega (arith, bytes_of-box_body to_string ps)
bytes_of-box_body to_string (frame trailers ∷ ps) = ap (λ n. 0 + n) (bytes_of-box_body to_string ps)

-- A limited body that is boxed for the outer stack has still no more bytes than the limit, and every
-- error that it reports has status 500, also that of an exceeded limit.
pub box_body-limited :
    (to_string : GatewayError → Str) (limit : ℕ) (b : Body)
    → (bytes_of (box_body to_string (limited limit b)) ≤ limit)
      × All IsInternal (box_body to_string (limited limit b))
box_body-limited to_string limit b = (
  omega (arith, bytes_of-box_body to_string (limited limit b), (limited-eq_iff limit b).0),
  box_body-IsInternal to_string (limited limit b),
)
