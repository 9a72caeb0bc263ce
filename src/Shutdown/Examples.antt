-- ===== src/Shutdown/Examples.antt =====
-- The theorem on the shutdown at a SIGTERM at the third poll.
use grpc_gateway_rust.Prelude.{ℕ, ◌≡◌, ◌≢◌, ◌↔◌, true, if◌then◌else◌, ◌==◌, Bool-cases, inl, inr}
use grpc_gateway_rust.Shutdown.{
  SignalPoll, quiet, arrived, not_installed, resolved, wait_for_signal,
}
use grpc_gateway_rust.Shutdown.Laws.{Arrives, wait_for_signal-Arrives_iff}

abbrev third : ℕ → SignalPoll
third i = if i == 2 then arrived else quiet

abbrev never : ℕ → SignalPoll
never i = quiet

third_installed : (i : ℕ) → third i ≢ not_installed
third_installed i = elim (Bool-cases (i == 2)) [
  | inl same ↦ rw same (λ e. cc e)
  | inr other ↦ rw other (λ e. cc e)
]

never_installed : (i : ℕ) → never i ≢ not_installed
never_installed i e = cc e

wait_for_signal-Arrives_iff_example :
    (wait_for_signal (λ i. true) never third 0 4 ≡ resolved)
    ↔ Arrives (λ i. true) never third never_installed third_installed 0 4
wait_for_signal-Arrives_iff_example =
    wait_for_signal-Arrives_iff (λ i. true) never third never_installed third_installed 4
