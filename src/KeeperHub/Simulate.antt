-- ===== src/KeeperHub/Simulate.antt =====
-- `simulateContractCall` of packages/keeperhub/src/client.ts, under a circuit that is closed.
pub mod Answered
use kp.Common.{ℕ}
use kp.Resilience.Breaker.{Settled, returned, threw}
use kp.KeeperHub.Http.{KeeperHubError, RetryPolicy, envelope}
use kp.KeeperHub.Outcomes.{SimulationOutcome, to_simulation}
use kp.KeeperHub.Client.{HttpRequest, Sent, send_with_retries}

unfoldable pub simulate_contract_call :
    RetryPolicy
    → (ℕ → Sent)
    → (ℕ → ℕ)
    → (ℕ → ℕ)
    → HttpRequest
    → Settled SimulationOutcome KeeperHubError
unfolding send_with_retries to_simulation
simulate_contract_call retry transport clock random request =
    elim (send_with_retries retry transport clock random request).1 [
      | returned r ↦ returned (to_simulation (envelope r))
      | threw e ↦ threw e
    ]
