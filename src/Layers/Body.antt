-- ===== src/Layers/Body.antt =====
-- gateway-runtime/src/layers/body.rs: the adapters of bodies between the layers of tower-http and
-- those of the gateway.
pub mod Boxing
use grpc_gateway_rust.Prelude.{Option, none, some, List, [], ◌∷◌, Str}
use grpc_gateway_rust.Http.Message.{
  Request, Response, Outcome, Service, Poll, pending, frame, failed, Frame, data_frame, Body,
}
use grpc_gateway_rust.Errors.{GatewayError, custom}

pub record VecBody : Type 0 where
  pub data_left : Option Str

-- `none` is the end of the body; the data is taken by the first poll.
unfoldable pub vec_poll_frame : VecBody → Option Poll × VecBody
vec_poll_frame body = elim body.data_left [
  | some bytes ↦ (some (frame (data_frame bytes)), record { data_left = none })
  | none ↦ (none, body)
]

-- The body of a borrowed `VecBody`, which has no frame.
abbrev pub ref_poll_frame : VecBody → Option Poll × VecBody
ref_poll_frame body = (none, body)

-- `body.0.unwrap_or_default()`
abbrev pub take_vec : VecBody → Str
take_vec body = elim body.data_left [ none ↦ [] | some bytes ↦ bytes ]

-- `http::Request<VecBody>`: the parts of a request, and the adapted body in place of its own.
abbrev pub VecRequest : Type 0 → Type 0 → Type 0
VecRequest H M = Request H M × VecBody

-- `req.map(|v| VecBody(Some(v)))`
abbrev pub wrap_request : {H M : Type 0} → Request H M → VecRequest H M
wrap_request req = (record req { body = [] }, record { data_left = some req.body })

unfoldable pub vec_body_call : {H M W : Type 0} → Service H M W → VecRequest H M → W → Outcome H × W
vec_body_call inner (parts, body) w = inner (record parts { body = take_vec body }) w

-- `b.map_err(..)`, where `to_string` writes an error.
unfoldable pub box_body : (GatewayError → Str) → Body → Body
box_body to_string [] = []
box_body to_string (failed e ∷ ps) = failed (custom 500 (to_string e)) ∷ box_body to_string ps
box_body to_string (pending ∷ ps) = pending ∷ box_body to_string ps
box_body to_string (frame f ∷ ps) = frame f ∷ box_body to_string ps

unfoldable pub box_response_body : {H : Type 0} → (GatewayError → Str) → Response H → Response H
unfolding box_body
box_response_body to_string resp = record resp { body = box_body to_string resp.body }
