-- ===== src/Layers/Response.antt =====
-- gateway-runtime/src/layers/response.rs: the layer that runs the response modifiers.
use grpc_gateway_rust.Prelude.{List, [], ◌∷◌, is_empty, if◌then◌else◌}
use grpc_gateway_rust.Http.Message.{
  Request, Response, Outcome, success, failure, Service, partial_request,
}

abbrev pub ResponseModifier : Type 0 → Type 0 → Type 0
ResponseModifier H M = Request H M → Response H → Response H

pub record ResponseLayer (H M W : Type 0) : Type 0 where
  pub inner : Service H M W
  pub modifiers : List (ResponseModifier H M)

-- The loop over the modifiers.
abbrev pub modify :
    {H M : Type 0} → List (ResponseModifier H M) → Request H M → Response H → Response H
modify [] req resp = resp
modify (modifier ∷ rest) req resp = modify rest req (modifier req resp)

abbrev pub modify_outcome :
    {H M : Type 0} → List (ResponseModifier H M) → Request H M → Outcome H → Outcome H
modify_outcome modifiers req (failure e) = failure e
modify_outcome modifiers req (success resp) =
    success (if is_empty modifiers then resp else modify modifiers req resp)

unfoldable pub response_call : {H M W : Type 0} → ResponseLayer H M W → Service H M W
response_call layer req w =
    let out = layer.inner req w in
    (modify_outcome layer.modifiers (partial_request req) out.0, out.1)
