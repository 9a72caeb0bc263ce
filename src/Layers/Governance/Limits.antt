-- ===== src/Layers/Governance/Limits.antt =====
-- The limits on request and response bodies.
use grpc_gateway_rust.Prelude.{
  ℕ, zero, suc, ◌+◌, ◌-◌, ◌≤◌, ◌≡◌, refl, ap, ◌↔◌, Bool-cases, inl, inr, none, some, [], ◌∷◌,
  length, ltb, arith, ltb-false,
}
use grpc_gateway_rust.Http.Message.{
  Request, Response, Outcome, success, failure, data_frame, trailers, Poll, pending, frame, failed,
  Body,
}
use grpc_gateway_rust.Layers.Governance.{
  LimitedBody, limit_poll, poll_frame, limited, BodyLimitLayer, limit_response, limit_call,
}

-- The bytes of one poll, of all polls.
abbrev pub bytes_of_poll : Poll → ℕ
bytes_of_poll (frame (data_frame bytes)) = length bytes
bytes_of_poll (frame trailers) = 0
bytes_of_poll pending = 0
bytes_of_poll (failed e) = 0

abbrev pub bytes_of : Body → ℕ
bytes_of [] = 0
bytes_of (p ∷ ps) = bytes_of_poll p + bytes_of ps

limit_poll_budget : (p : Poll) (r : ℕ) → bytes_of_poll (limit_poll p r).0 + (limit_poll p r).1 ≤ r
unfolding limit_poll
limit_poll_budget (frame (data_frame bytes)) r = ground arith
limit_poll_budget (frame trailers) r = omega arith
limit_poll_budget pending r = omega arith
limit_poll_budget (failed e) r = omega arith

sub_zero : (r : ℕ) → r ≡ r - 0
sub_zero r = omega arith

limit_poll_within :
    (p : Poll) (r : ℕ) → bytes_of_poll p ≤ r → limit_poll p r ≡ (p, r - bytes_of_poll p)
unfolding limit_poll
limit_poll_within (frame (data_frame bytes)) r h = rw (ltb-false r (length bytes) h)
limit_poll_within (frame trailers) r h = ap (λ k. (frame trailers, k)) (sub_zero r)
limit_poll_within pending r h = ap (λ k. (pending, k)) (sub_zero r)
limit_poll_within (failed e) r h = ap (λ k. (failed e, k)) (sub_zero r)

limited_bound : (r : ℕ) (b : Body) → bytes_of (limited r b) ≤ r
unfolding limited
limited_bound r [] = omega arith
limited_bound r (p ∷ ps) = omega (arith, limit_poll_budget p r, limited_bound (limit_poll p r).1 ps)

limited_within : (r : ℕ) (b : Body) → bytes_of b ≤ r → limited r b ≡ b
unfolding limited
limited_within r [] h = refl
limited_within r (p ∷ ps) h =
    rw (limit_poll_within p r (omega arith))
      (ap (λ rest. p ∷ rest) (limited_within (r - bytes_of_poll p) ps (omega arith)))

-- A limited body never yields more bytes than the limit, even to a reader that goes on after an
-- error, and it is the inner body unchanged exactly if that has no more bytes than the limit.
pub limited-eq_iff :
    (r : ℕ) (b : Body) → (bytes_of (limited r b) ≤ r) × ((limited r b ≡ b) ↔ (bytes_of b ≤ r))
limited-eq_iff r b =
    (limited_bound r b, (λ e. omega (arith, limited_bound r b, ap bytes_of e), limited_within r b))

-- What the first `n` polls of a limited body return.
unfoldable pub read : ℕ → LimitedBody → Body
unfolding poll_frame
read zero body = []
read (suc n) body =
    let rest = read n (poll_frame body).1 in
    elim (poll_frame body).0 [ none ↦ rest | some p ↦ p ∷ rest ]

-- Polling a limited body as often as the inner body has polls, or more often, returns what `limited`
-- lists, and then only the end.
pub read-limited :
    (n : ℕ) (inner : Body) (remaining : ℕ)
    → length inner ≤ n
    → read n (record { inner = inner; remaining = remaining }) ≡ limited remaining inner
unfolding read limited poll_frame
read-limited zero [] remaining h = refl
read-limited (suc n) [] remaining h = read-limited n [] remaining (omega arith)
read-limited zero (p ∷ ps) remaining h = absurd (omega (arith, h))
read-limited (suc n) (p ∷ ps) remaining h =
    ap (λ rest. (limit_poll p remaining).0 ∷ rest)
      (read-limited n ps (limit_poll p remaining).1 (omega (arith, h)))

limit_response_bound :
    {H : Type 0} (limit : ℕ) (o : Outcome H) (resp : Response H)
    → limit_response (some limit) o ≡ success resp
    → bytes_of resp.body ≤ limit
unfolding limit_response
limit_response_bound limit (failure e) resp h = cc
limit_response_bound limit (success inner) resp h =
    let same : limited limit inner.body ≡ resp.body = cc h in
    omega (arith, limited_bound limit inner.body, ap bytes_of same)

-- Where the layer answers with a response, neither the request body nor the response body has more
-- bytes than its limit.
pub limit_call-bytes_of :
    {H M W : Type 0} (layer : BodyLimitLayer H M W) (max_req max_resp : ℕ) (req : Request H M)
    (w w' : W) (resp : Response H)
    → layer.max_req ≡ some max_req
    → layer.max_resp ≡ some max_resp
    → limit_call layer req w ≡ (success resp, w')
    → (length req.body ≤ max_req) × (bytes_of resp.body ≤ max_resp)
unfolding limit_call
limit_call-bytes_of layer max_req max_resp req w w' resp e f h =
    elim (Bool-cases (ltb max_req (length req.body))) [
      | inl big ↦ absurd (cc (rw (e, big) at h))
      | inr small ↦
          let answered = ap (λ o. o.0) (rw (e, small, f) at h) in
          (ground (arith, small), limit_response_bound max_resp (layer.inner req w).0 resp answered)
    ]
