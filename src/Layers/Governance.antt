-- ===== src/Layers/Governance.antt =====
-- gateway-runtime/src/layers/governance.rs: the retry policy and the limits on bodies.
pub mod Retrying
pub mod Ending
pub mod Limits
use grpc_gateway_rust.Prelude.{
  ℕ, ◌-◌, Bool, true, false, ◌||◌, Option, none, some, List, [], ◌∷◌, Str, lit, length, ltb, ◌==◌,
  if◌then◌else◌,
}
use grpc_gateway_rust.Http.{HeaderApi}
use grpc_gateway_rust.Http.Message.{
  Request, Response, Outcome, success, failure, Frame, data_frame, trailers, Poll, pending, frame,
  failed, Body, no_extensions, Service,
}
use grpc_gateway_rust.Errors.{
  GatewayError, encoding, upstream, http, custom, method_not_allowed, no_route,
}

-- Durations are in nanoseconds.
pub record GovernanceConfig : Type 0 where
  pub connection_limit : Option ℕ
  pub request_timeout : Option ℕ
  pub max_request_body_size : Option ℕ
  pub max_response_body_size : Option ℕ
  pub rate_limit_per_second : Option ℕ
  pub enable_load_shedding : Bool
  pub retry_count : Option ℕ

-- `GovernanceConfig::default()`
abbrev pub no_governance : GovernanceConfig
no_governance = record {
  connection_limit = none;
  request_timeout = none;
  max_request_body_size = none;
  max_response_body_size = none;
  rate_limit_per_second = none;
  enable_load_shedding = false;
  retry_count = none;
}

pub record GatewayRetryPolicy : Type 0 where
  pub remaining_attempts : ℕ

abbrev pub new_policy : ℕ → GatewayRetryPolicy
new_policy attempts = record { remaining_attempts = attempts }

-- `Some(ready(()))`, with one attempt less, or `None`.
abbrev pub spend : GatewayRetryPolicy → Option GatewayRetryPolicy
spend policy = some (record { remaining_attempts = policy.remaining_attempts - 1 })

-- The match on the result of an attempt.
abbrev pub retry_result : {H : Type 0} → GatewayRetryPolicy → Outcome H → Option GatewayRetryPolicy
retry_result policy (success resp) =
    if (resp.status == 503) || (resp.status == 502) then spend policy else none
retry_result policy (failure (upstream status)) = spend policy
retry_result policy (failure (encoding e)) = none
retry_result policy (failure (http e)) = none
retry_result policy (failure (custom s m)) = none
retry_result policy (failure method_not_allowed) = none
retry_result policy (failure no_route) = none

-- The policy after a granted retry; `none` where the code returns `None` and changes nothing.
unfoldable pub retry : {H : Type 0} → GatewayRetryPolicy → Outcome H → Option GatewayRetryPolicy
retry policy result = if policy.remaining_attempts == 0 then none else retry_result policy result

module _ (api : HeaderApi) where
  -- The loop over the headers of a request that is cloned.
  unfoldable pub copy_headers : List (Str × Str) → api.Headers → api.Headers
  copy_headers [] h = h
  copy_headers ((k, v) ∷ es) h = copy_headers es (api.insert_header k v h)

  unfoldable pub clone_request : {M : Type 0} → Request api.Headers M → Request api.Headers M
  unfolding copy_headers
  clone_request req = record req {
    headers = copy_headers (api.entries req.headers) api.no_headers;
    extensions = no_extensions;
  }

pub record LimitedBody : Type 0 where
  pub inner : Body
  pub remaining : ℕ

-- What a poll of the inner body becomes, and the number of bytes that remain.
unfoldable pub limit_poll : Poll → ℕ → Poll × ℕ
limit_poll (frame (data_frame bytes)) remaining =
    if ltb remaining (length bytes)
    then (failed (custom 413 (lit "Response body limit exceeded")), remaining)
    else (frame (data_frame bytes), remaining - length bytes)
limit_poll (frame trailers) remaining = (frame trailers, remaining)
limit_poll pending remaining = (pending, remaining)
limit_poll (failed e) remaining = (failed e, remaining)

-- `none` is the end of the body.
unfoldable pub poll_frame : LimitedBody → Option Poll × LimitedBody
unfolding limit_poll
poll_frame body = elim body.inner [
  | [] ↦ (none, body)
  | p ∷ rest ↦
      let out = limit_poll p body.remaining in
      (some out.0, record { inner = rest; remaining = out.1 })
]

-- All polls of a limited body, for a reader that goes on to the end.
unfoldable pub limited : ℕ → Body → Body
unfolding limit_poll
limited remaining [] = []
limited remaining (p ∷ rest) = (limit_poll p remaining).0 ∷ limited (limit_poll p remaining).1 rest

pub record BodyLimitLayer (H M W : Type 0) : Type 0 where
  pub inner : Service H M W
  pub max_req : Option ℕ
  pub max_resp : Option ℕ

-- `req.body().len() > limit`
abbrev pub too_large : Option ℕ → Str → Bool
too_large none body = false
too_large (some limit) body = ltb limit (length body)

unfoldable pub limit_response : {H : Type 0} → Option ℕ → Outcome H → Outcome H
unfolding limited
limit_response max_resp (failure e) = failure e
limit_response none (success resp) = success resp
limit_response (some limit) (success resp) =
    success (record resp { body = limited limit resp.body })

unfoldable pub limit_call : {H M W : Type 0} → BodyLimitLayer H M W → Service H M W
unfolding limit_response
limit_call layer req w =
    if too_large layer.max_req req.body
    then (failure (custom 413 (lit "Request body too large")), w)
    else (let out = layer.inner req w in (limit_response layer.max_resp out.0, out.1))
