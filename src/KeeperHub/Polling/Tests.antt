-- ===== src/KeeperHub/Polling/Tests.antt =====
-- An execution that completes at the third poll, and the theorem at it.
use kp.Common.{if◌then◌else◌, ◌==◌, ℕ, suc, ◌+◌, ◌*◌, ◌≤◌, ◌≡◌, none, some, [], length, lit, arith}
use kp.Resilience.Breaker.{Settled, returned}
use kp.KeeperHub.Json.{null}
use kp.KeeperHub.Http.{KeeperHubError}
use kp.KeeperHub.Outcomes.{ExecutionStatus}
use kp.KeeperHub.Polling.{WaitOptions, wait_options, Waited, wait_for_execution}
use kp.KeeperHub.Polling.Settles.{IsEnd, wait_for_execution-IsEnd}

abbrev poll : ℕ → Settled ExecutionStatus KeeperHubError
poll i = returned (record {
  execution_id = lit "ex_1";
  status = if i == 2 then lit "completed" else lit "pending";
  kind = none;
  transaction_hash = none;
  receipts = [];
  error = none;
  raw = null;
})

abbrev clock : ℕ → ℕ
clock i = 1000 + i * 2_000

abbrev options : WaitOptions
options = wait_options none none

ticks : (i : ℕ) → clock i + 2_000 ≤ clock (suc i)
ticks i = omega arith

wait_for_execution-IsEnd_example :
    (w : Waited) × (wait_for_execution poll clock options 91 1000 ≡ some w)
    × IsEnd poll clock options ticks 181_000 (length w.sleeps) w.outcome
    × (length w.sleeps ≤ 90)
wait_for_execution-IsEnd_example =
    wait_for_execution-IsEnd poll clock options ticks 1000 90 (omega arith) (omega arith)
