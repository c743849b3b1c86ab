-- ===== src/KeeperHub/Polling/Settles.antt =====
-- `waitForExecution` of packages/keeperhub/src/client.ts ends.
use mathlib.Core.Option
use kp.Common.{
  ℕ, zero, suc, ◌+◌, ◌*◌, ◌≤◌, ◌≡◌, refl, subst, ap, ◌⊎◌, inl, inr, true, false, some, [], leb,
  leb→le, leb_false→lt, length, Bool-cases, arith,
}
use kp.Resilience.Breaker.{Settled, returned, threw}
use kp.KeeperHub.Http.{KeeperHubError}
use kp.KeeperHub.Outcomes.{ExecutionStatus}
use kp.KeeperHub.Polling.{
  WaitOptions, Waited, is_terminal, timed_out, after_sleep, poll_from, wait_for_execution,
}

settled_cases :
    (x : Settled ExecutionStatus KeeperHubError)
    → ((s : ExecutionStatus) × (x ≡ returned s)) ⊎ ((e : KeeperHubError) × (x ≡ threw e))
settled_cases (returned s) = inl (s, refl)
settled_cases (threw e) = inr (e, refl)

-- A sleep between two polls takes its time at least.
module _ (poll : ℕ → Settled ExecutionStatus KeeperHubError) (clock : ℕ → ℕ) (options : WaitOptions)
    (ticks : (i : ℕ) → clock i + options.interval_ms ≤ clock (suc i)) where
  -- How the loop ends at a poll: with a terminal status, with the timeout past the deadline, or with
  -- the poll's own error.
  abbrev pub IsEnd : ℕ → ℕ → Settled ExecutionStatus KeeperHubError → Type 0
  IsEnd deadline i outcome =
      ((s : ExecutionStatus) × (poll i ≡ returned s)
        × (is_terminal s ≡ true)
        × (outcome ≡ returned s))
      ⊎ ((s : ExecutionStatus) × (poll i ≡ returned s)
          × (is_terminal s ≡ false)
          × (deadline ≤ clock i)
          × (outcome ≡ threw timed_out))
      ⊎ ((e : KeeperHubError) × (poll i ≡ threw e) × (outcome ≡ threw e))

  -- The loop with some fuel ends, with at most so many sleeps.
  abbrev IsWaited : ℕ → ℕ → ℕ → Type 0
  IsWaited fuel i deadline =
      (w : Waited) × (poll_from poll clock options (suc fuel) i deadline ≡ some w)
      × IsEnd deadline (i + length w.sleeps) w.outcome
      × (length w.sleeps ≤ fuel)

  ends_now :
      (fuel i deadline : ℕ) (outcome : Settled ExecutionStatus KeeperHubError)
      → poll_from poll clock options (suc fuel) i deadline
        ≡ some (record { outcome = outcome; sleeps = [] })
      → IsEnd deadline i outcome
      → IsWaited fuel i deadline
  ends_now fuel i deadline outcome e is = (
    record { outcome = outcome; sleeps = [] },
    e,
    subst (λ n. IsEnd deadline n outcome) (omega arith) is,
    omega arith,
  )

  budget :
      (fuel i deadline : ℕ)
      → deadline ≤ clock i + suc fuel * options.interval_ms
      → deadline ≤ clock (suc i) + fuel * options.interval_ms
  budget fuel i deadline h = let tick = ticks i in omega (arith, tick)

  -- One poll, given what follows a poll that is neither terminal nor late.
  poll_once-IsWaited :
      (fuel i deadline : ℕ)
      → ((s : ExecutionStatus)
          → poll i ≡ returned s
          → is_terminal s ≡ false
          → leb deadline (clock i) ≡ false
          → IsWaited fuel i deadline)
      → IsWaited fuel i deadline
  unfolding poll_from
  poll_once-IsWaited fuel i deadline again = elim (settled_cases (poll i)) [
    | inr (e, failed) ↦
        ends_now fuel i deadline (threw e) (rw (poll_from, failed) refl)
          (inr (inr (e, failed, refl)))
    | inl (s, answered) ↦ elim (Bool-cases (is_terminal s)) [
      | inl over ↦
          ends_now fuel i deadline (returned s) (rw (poll_from, answered) (rw over refl))
            (inl (s, answered, over, refl))
      | inr pending ↦ elim (Bool-cases (leb deadline (clock i))) [
        | inl late ↦
            ends_now fuel i deadline (threw timed_out)
              (rw (poll_from, answered) (rw pending (rw late refl)))
              (inr (inl (s, answered, pending, leb→le deadline (clock i) late, refl)))
        | inr early ↦ again s answered pending early
      ]
    ]
  ]

  poll_next :
      (fuel i deadline : ℕ) (s : ExecutionStatus) (w : Waited)
      → poll i ≡ returned s
      → is_terminal s ≡ false
      → leb deadline (clock i) ≡ false
      → poll_from poll clock options (suc fuel) (suc i) deadline ≡ some w
      → poll_from poll clock options (suc (suc fuel)) i deadline
        ≡ some (after_sleep options.interval_ms w)
  unfolding poll_from
  poll_next fuel i deadline s w answered pending early later =
      rw (poll_from, answered)
        (rw pending (rw early (ap (Option.map (after_sleep options.interval_ms)) later)))

  poll_from-IsWaited :
      (fuel i deadline : ℕ)
      → deadline ≤ clock i + fuel * options.interval_ms
      → IsWaited fuel i deadline
  poll_from-IsWaited zero i deadline enough =
      poll_once-IsWaited zero i deadline (λ s answered pending early.
        let before = leb_false→lt deadline (clock i) early in
        absurd (omega (arith, enough, before)))
  poll_from-IsWaited (suc fuel) i deadline enough =
      poll_once-IsWaited (suc fuel) i deadline (λ s answered pending early.
        let (w, runs, ends, few) =
          poll_from-IsWaited fuel (suc i) deadline (budget fuel i deadline enough) in
        (
          after_sleep options.interval_ms w,
          poll_next fuel i deadline s w answered pending early runs,
          subst (λ n. IsEnd deadline n w.outcome) (omega arith) ends,
          omega (arith, few),
        ))

  -- If every sleep takes its time at least, waiting for an execution ends: with enough fuel for one
  -- poll per interval of the budget, and one more, it returns the terminal status that its last poll
  -- answered, or throws the timeout after a last poll past the deadline that found no terminal
  -- status, or throws the error of the last poll. It sleeps once between two polls.
  pub wait_for_execution-IsEnd :
      (start fuel : ℕ)
      → start ≤ clock 0
      → options.timeout_ms ≤ fuel * options.interval_ms
      → (w : Waited) × (wait_for_execution poll clock options (suc fuel) start ≡ some w)
        × IsEnd (start + options.timeout_ms) (length w.sleeps) w.outcome
        × (length w.sleeps ≤ fuel)
  unfolding wait_for_execution
  wait_for_execution-IsEnd start fuel from budgeted =
      let deadline = start + options.timeout_ms in
      let (w, runs, ends, few) =
        poll_from-IsWaited fuel 0 deadline (omega (arith, from, budgeted)) in
      (w, runs, subst (λ n. IsEnd deadline n w.outcome) (omega arith) ends, few)
