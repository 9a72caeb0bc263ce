-- ===== src/Shutdown/Laws.antt =====
-- When the future of a shutdown resolves.
use grpc_gateway_rust.Prelude.{
  ℕ, zero, suc, ◌+◌, ◌<◌, ◌≤◌, ◌≡◌, ◌≢◌, refl, subst, sym, ◌∙◌, ◌↔◌, ◌⊎◌, inl, inr, Bool, true,
  false, arith, Bool-cases, ◌==◌, ==→eq,
}
use grpc_gateway_rust.Shutdown.{
  SignalPoll, quiet, arrived, not_installed, unresolved, resolved, poll_shutdown, wait_for_signal,
}

poll_shutdown-cases :
    (b : Bool) (c t : SignalPoll)
    → c ≢ not_installed
    → t ≢ not_installed
    → ((poll_shutdown b c t ≡ resolved) × ((c ≡ arrived) ⊎ (t ≡ arrived)))
      ⊎ ((poll_shutdown b c t ≡ unresolved) × (c ≡ quiet) × (t ≡ quiet))
unfolding poll_shutdown
poll_shutdown-cases b not_installed t hc ht = absurd (hc refl)
poll_shutdown-cases b c not_installed hc ht = absurd (ht refl)
poll_shutdown-cases true quiet quiet hc ht = inr (refl, refl, refl)
poll_shutdown-cases false quiet quiet hc ht = inr (refl, refl, refl)
poll_shutdown-cases true quiet arrived hc ht = inl (refl, inr refl)
poll_shutdown-cases false quiet arrived hc ht = inl (refl, inr refl)
poll_shutdown-cases true arrived quiet hc ht = inl (refl, inl refl)
poll_shutdown-cases false arrived quiet hc ht = inl (refl, inl refl)
poll_shutdown-cases true arrived arrived hc ht = inl (refl, inl refl)
poll_shutdown-cases false arrived arrived hc ht = inl (refl, inl refl)

module _ (order : ℕ → Bool) (ctrl_c terminate : ℕ → SignalPoll)
    (c_installed : (i : ℕ) → ctrl_c i ≢ not_installed)
    (t_installed : (i : ℕ) → terminate i ≢ not_installed) where
  -- A signal arrives at one of a number of polls, from poll `i` on.
  abbrev pub Arrives : ℕ → ℕ → Type 0
  Arrives i polls =
      (k : ℕ) × (i ≤ k) × (k < i + polls) × ((ctrl_c k ≡ arrived) ⊎ (terminate k ≡ arrived))

  -- What is quiet from the next poll on is quiet from this one on, if this one is.
  step :
      (i polls k : ℕ)
      → i ≤ k
      → k < i + suc polls
      → ctrl_c i ≡ quiet
      → terminate i ≡ quiet
      → ((j : ℕ) → suc i ≤ j → j < suc i + polls → (ctrl_c j ≡ quiet) × (terminate j ≡ quiet))
      → (ctrl_c k ≡ quiet) × (terminate k ≡ quiet)
  step i polls k low high c t still = elim (Bool-cases (k == i)) [
    | inl same ↦
        subst (λ j. (ctrl_c j ≡ quiet) × (terminate j ≡ quiet)) (sym (==→eq k i same)) (c, t)
    | inr other ↦ still k (ground (arith, other, low)) (omega (arith, high))
  ]

  wait_lem :
      (i polls : ℕ)
      → ((wait_for_signal order ctrl_c terminate i polls ≡ resolved) × Arrives i polls)
        ⊎ ((wait_for_signal order ctrl_c terminate i polls ≡ unresolved)
            × ((k : ℕ) → i ≤ k → k < i + polls → (ctrl_c k ≡ quiet) × (terminate k ≡ quiet)))
  unfolding wait_for_signal
  wait_lem i zero = inr (refl, λ k low high. absurd (omega (arith, low, high)))
  wait_lem i (suc polls) =
      elim (poll_shutdown-cases (order i) (ctrl_c i) (terminate i) (c_installed i)
        (t_installed i)) [
          | inl (now, which) ↦ inl (rw (now, wait_for_signal), (i, omega arith, omega arith, which))
          | inr (later, c, t) ↦ elim (wait_lem (suc i) polls) [
            | inl (r, (k, low, high, which)) ↦
                inl (
                  rw (later, wait_for_signal) r,
                  (k, omega (arith, low), omega (arith, high), which),
                )
            | inr (r, still) ↦
                inr (rw (later, wait_for_signal) r, λ k low high. step i polls k low high c t still)
          ]
        ]

  -- The future resolves within a number of polls exactly if a signal arrives at one of them, in
  -- whatever order it polls the two signals: where the handlers could be installed.
  pub wait_for_signal-Arrives_iff :
      (polls : ℕ) → (wait_for_signal order ctrl_c terminate 0 polls ≡ resolved) ↔ Arrives 0 polls
  wait_for_signal-Arrives_iff polls = elim (wait_lem 0 polls) [
    | inl (r, a) ↦ (λ e. a, λ a. r)
    | inr (r, still) ↦ (
      λ e. absurd (cc (sym r ∙ e)),
      λ (k, low, high, which).
          let (c, t) = still k low high in
          elim which [ inl now ↦ absurd (cc (sym c ∙ now)) | inr now ↦ absurd (cc (sym t ∙ now)) ],
    )
  ]
