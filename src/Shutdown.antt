-- ===== src/Shutdown.antt =====
-- gateway-runtime/src/shutdown.rs: the future that resolves when a signal of shutdown arrives. The
-- signals are those of tokio: what the poll of each returns.
pub mod Laws
mod Examples
use grpc_gateway_rust.Prelude.{ℕ, zero, suc, Bool, true, false}

-- A poll of one signal: an error in the installation of its handler is a panic (`expect`).
pub data SignalPoll : Type 0 where
  quiet arrived not_installed : SignalPoll

pub data ShutdownPoll : Type 0 where
  unresolved resolved panicked : ShutdownPoll

-- The branch of `select!` that is polled second.
abbrev pub second_branch : SignalPoll → ShutdownPoll
second_branch quiet = unresolved
second_branch arrived = resolved
second_branch not_installed = panicked

abbrev pub both_branches : SignalPoll → SignalPoll → ShutdownPoll
both_branches quiet other = second_branch other
both_branches arrived other = resolved
both_branches not_installed other = panicked

-- `ShutdownSignal::poll`, with the order in which `select!` polls its branches.
unfoldable pub poll_shutdown : Bool → SignalPoll → SignalPoll → ShutdownPoll
poll_shutdown true ctrl_c terminate = both_branches ctrl_c terminate
poll_shutdown false ctrl_c terminate = both_branches terminate ctrl_c

-- Without the standard library the future never resolves.
abbrev pub poll_shutdown_no_std : ShutdownPoll
poll_shutdown_no_std = unresolved

-- `wait_for_signal`: the result of a number of polls, from poll `i` on. The signals return what they
-- return at each poll, and a future that has resolved is not polled again.
module _ (order : ℕ → Bool) (ctrl_c terminate : ℕ → SignalPoll) where
  unfoldable pub wait_for_signal : ℕ → ℕ → ShutdownPoll
  unfolding poll_shutdown
  wait_for_signal i zero = unresolved
  wait_for_signal i (suc polls) =
      let later = wait_for_signal (suc i) polls in
      elim (poll_shutdown (order i) (ctrl_c i) (terminate i)) [
        | unresolved ↦ later
        | resolved ↦ resolved
        | panicked ↦ panicked
      ]
