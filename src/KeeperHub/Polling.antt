-- ===== src/KeeperHub/Polling.antt =====
-- `waitForExecution` of packages/keeperhub/src/client.ts: polling an execution until it is settled. What
-- a poll answers and what the clock reads after it are functions of the number of the poll; a sleep is
-- an act of the result's list. The loop runs on fuel, and `none` means that the fuel ran out.
pub mod Settles
mod Tests
use mathlib.Core.Option
use kp.Common.{
  ℕ, zero, suc, ◌+◌, Bool, false, Option, none, some, List, [], ◌∷◌, Text, lit, leb, mem_text,
  if◌then◌else◌,
}
use kp.Resilience.Breaker.{Settled, returned, threw}
use kp.KeeperHub.Http.{KeeperHubError, ErrorKind}
use kp.KeeperHub.Outcomes.{ExecutionStatus}

unfoldable pub is_terminal : ExecutionStatus → Bool
is_terminal s =
    mem_text s.status (lit "completed" ∷ lit "failed" ∷ lit "cancelled" ∷ lit "reverted" ∷ [])

-- The error of a wait whose budget is spent.
abbrev pub timed_out : KeeperHubError
timed_out = record {
  kind = ErrorKind.timeout;
  status = none;
  retryable = false;
  code = none;
  retry_after_ms = none;
}

pub record WaitOptions : Type 0 where
  pub timeout_ms : ℕ
  pub interval_ms : ℕ

abbrev pub wait_options : Option ℕ → Option ℕ → WaitOptions
wait_options timeout_ms interval_ms = record {
  timeout_ms = Option.get_or timeout_ms 180_000;
  interval_ms = Option.get_or interval_ms 2_000;
}

-- The outcome, and the sleeps before it.
pub record Waited : Type 0 where
  pub outcome : Settled ExecutionStatus KeeperHubError
  pub sleeps : List ℕ

abbrev pub after_sleep : ℕ → Waited → Waited
after_sleep ms waited = record waited { sleeps = ms ∷ waited.sleeps }

module _ (poll : ℕ → Settled ExecutionStatus KeeperHubError) (clock : ℕ → ℕ)
    (options : WaitOptions) where
  -- The loop from a poll on.
  unfoldable pub poll_from : ℕ → ℕ → ℕ → Option Waited
  unfolding is_terminal
  poll_from zero i deadline = none
  poll_from (suc fuel) i deadline =
      let later = poll_from fuel (suc i) deadline in
      elim (poll i) [
        | threw e ↦ some (record { outcome = threw e; sleeps = [] })
        | returned s ↦
            if is_terminal s
            then some (record { outcome = returned s; sleeps = [] })
            else if leb deadline (clock i)
            then some (record { outcome = threw timed_out; sleeps = [] })
            else Option.map (after_sleep options.interval_ms) later
      ]

  -- The clock is read first at `start`.
  unfoldable pub wait_for_execution : ℕ → ℕ → Option Waited
  unfolding poll_from
  wait_for_execution fuel start = poll_from fuel 0 (start + options.timeout_ms)
