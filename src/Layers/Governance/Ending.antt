-- ===== src/Layers/Governance/Ending.antt =====
-- The retries of a request come to an end.
use grpc_gateway_rust.Prelude.{
  ℕ, zero, suc, ◌+◌, ◌≤◌, ◌≡◌, ◌∙◌, inl, inr, none, some, Bool-cases, arith,
}
use grpc_gateway_rust.Http.Message.{Outcome}
use grpc_gateway_rust.Layers.Governance.{GatewayRetryPolicy, new_policy, retry}
use grpc_gateway_rust.Layers.Governance.Retrying.{is_transient, retry_lem}

-- The loop of the retry layer, from attempt `i` on and with the policy of that attempt: it makes a
-- number of attempts, of which the policy refuses to repeat the last.
pub data Ends {H : Type 0} (results : ℕ → Outcome H) : GatewayRetryPolicy → ℕ → ℕ → Type 0 where
  stops :
      {policy : GatewayRetryPolicy} {i : ℕ}
      → retry policy (results i) ≡ none
      → Ends results policy i 1
  repeats :
      {policy next : GatewayRetryPolicy} {i n : ℕ}
      → retry policy (results i) ≡ some next
      → Ends results next (suc i) n
      → Ends results policy i (suc n)

module _ {H : Type 0} (results : ℕ → Outcome H) where
  Ends-from : (n i : ℕ) → (calls : ℕ) × Ends results (new_policy n) i calls × (calls ≤ n + 1)
  Ends-from zero i = (1, stops (retry_lem 0 (results i)), omega arith)
  Ends-from (suc n) i = elim (Bool-cases (is_transient (results i))) [
    | inl again ↦
        let (calls, ends, few) = Ends-from n (suc i) in
        (
          suc calls,
          repeats (retry_lem (suc n) (results i) ∙ rw again (ground arith)) ends,
          omega (arith, few),
        )
    | inr final ↦ (1, stops (retry_lem (suc n) (results i) ∙ rw final (ground arith)), omega arith)
  ]

  -- Whatever the results of the attempts are, also if all of them are transient, a policy of `n`
  -- retries ends the loop, after `n + 1` attempts at most.
  pub new_policy-Ends :
      (n : ℕ) → (calls : ℕ) × Ends results (new_policy n) 0 calls × (calls ≤ n + 1)
  new_policy-Ends n = Ends-from n 0
