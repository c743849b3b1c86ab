-- ===== src/Dashboard/Execute/Follows.antt =====
-- The steps of the pipeline of apps/dashboard/lib/execute.ts, branch by branch.
use kp.Common.{◌≡◌, refl, Bool, true, false, none, some, List, [], ◌∷◌, map}
use kp.KeeperHub.Json.{Json}
use kp.Policy.Types.{Verdict, Intent, Policy, Decision}
use kp.Policy.Rules.Holds.{all_rules}
use kp.Policy.Evaluate.{evaluate}
use kp.Receipts.Receipt.{ReceiptReason}
use kp.Gateway.Authorize.{reason_of_rule}
use kp.Dashboard.Ledger.{Holds}
use kp.Dashboard.Requests.{SimulationReply, simulation_body, may_revert}
use kp.Dashboard.Execute.{
  Env, simulated, failed, hold_it, refuse, broadcast_or_answer, simulate_then, follow, context_at,
  decide_under, run_intent, payload,
}

module _ (env : Env) (broadcasts : Bool) (intent : Intent) (holds : Holds) where
  pub run_unread : env.policy ≡ none → run_intent env broadcasts intent holds ≡ (holds, [], failed)
  unfolding run_intent
  run_unread h = rw (run_intent, h) refl

  module _ (policy : Policy) (document : Json) where
    pub run_decided :
        (d : Decision)
        → env.policy ≡ some (policy, document)
        → evaluate intent policy (context_at env.now) all_rules ≡ some d
        → run_intent env broadcasts intent holds ≡ follow env intent document broadcasts d holds
    unfolding run_intent decide_under
    run_decided d p h = rw (run_intent, p) (rw (decide_under, h) refl)

    pub run_undecided :
        env.policy ≡ some (policy, document)
        → evaluate intent policy (context_at env.now) all_rules ≡ none
        → run_intent env broadcasts intent holds ≡ (holds, [], failed)
    unfolding run_intent decide_under
    run_undecided p h = rw (run_intent, p) (rw (decide_under, h) refl)

  module _ (document : Json) where
    pub follow_allow :
        (d : Decision)
        → d.verdict ≡ Verdict.allow
        → follow env intent document broadcasts d holds ≡ (
          holds,
          (simulate_then env intent document broadcasts (map reason_of_rule d.reasons)).0,
          (simulate_then env intent document broadcasts (map reason_of_rule d.reasons)).1,
        )
    unfolding follow
    follow_allow d v = rw (follow, v) refl

    pub follow_hold :
        (d : Decision)
        → d.verdict ≡ Verdict.hold
        → follow env intent document broadcasts d holds ≡ (
          (hold_it env intent document (map reason_of_rule d.reasons) holds).0,
          [],
          (hold_it env intent document (map reason_of_rule d.reasons) holds).1,
        )
    unfolding follow
    follow_hold d v = rw (follow, v) refl

    pub follow_deny :
        (d : Decision)
        → d.verdict ≡ Verdict.deny
        → follow env intent document broadcasts d holds ≡ (
          holds,
          [],
          payload env intent document Verdict.deny
              (map reason_of_rule d.reasons)
              none
              none
              none
              none,
        )
    unfolding follow
    follow_deny d v = rw (follow, v) refl

    module _ (reasons : List ReceiptReason) where
      pub simulate_unanswered :
          env.simulate (simulation_body env.guard intent) ≡ none
          → simulate_then env intent document broadcasts reasons
            ≡ (simulated (simulation_body env.guard intent) ∷ [], failed)
      unfolding simulate_then
      simulate_unanswered h = rw (simulate_then, h) refl

      pub simulate_reverting :
          (reply : SimulationReply)
          → env.simulate (simulation_body env.guard intent) ≡ some reply
          → may_revert reply.would_revert ≡ true
          → simulate_then env intent document broadcasts reasons ≡ (
            simulated (simulation_body env.guard intent) ∷ [],
            refuse env intent document reasons reply,
          )
      unfolding simulate_then
      simulate_reverting reply h r = rw (simulate_then, h) (rw r refl)

      pub simulate_passing :
          (reply : SimulationReply)
          → env.simulate (simulation_body env.guard intent) ≡ some reply
          → may_revert reply.would_revert ≡ false
          → simulate_then env intent document broadcasts reasons ≡ (
            simulated (simulation_body env.guard intent)
                ∷ (broadcast_or_answer env intent document broadcasts reasons reply).0,
            (broadcast_or_answer env intent document broadcasts reasons reply).1,
          )
      unfolding simulate_then
      simulate_passing reply h r = rw (simulate_then, h) (rw r refl)
