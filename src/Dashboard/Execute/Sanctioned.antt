-- ===== src/Dashboard/Execute/Sanctioned.antt =====
-- What the pipeline of apps/dashboard/lib/execute.ts sends.
use kp.Common.{
  ◌≡◌, refl, sym, ◌∙◌, inl, inr, Bool, true, false, Option, none, some, List, map, All, Bool-cases,
  Option-cases,
}
use kp.KeeperHub.Json.{Json}
use kp.Policy.Types.{Intent, Policy}
use kp.Policy.Rules.Holds.{all_rules}
use kp.Policy.Evaluate.{evaluate}
use kp.Policy.Permits.{Permits}
use kp.Policy.Permits.Allowed.{evaluate-Permits}
use kp.Receipts.Receipt.{ReceiptReason}
use kp.Gateway.Authorize.{reason_of_rule}
use kp.Gateway.Authorize.Allows.{verdict_cases}
use kp.Dashboard.Ledger.{Holds}
use kp.Dashboard.Requests.{SimulationReply, simulation_body, broadcast_body, may_revert}
use kp.Dashboard.Execute.{
  Env, Effect, simulated, broadcasted, dapp_key, broadcast_or_answer, simulate_then, context_at,
  run_intent,
}
use kp.Dashboard.Execute.Follows.{
  run_unread, run_decided, run_undecided, follow_allow, follow_hold, follow_deny,
  simulate_unanswered, simulate_reverting, simulate_passing,
}

module _ (env : Env) (broadcasts : Bool) (intent : Intent) (holds : Holds) where
  -- The policy in force permits the intent.
  abbrev pub IsPermitted : Type 0
  IsPermitted =
      (policy : Policy) × (document : Json) × (env.policy ≡ some (policy, document))
      × Permits intent policy (context_at env.now)

  -- The simulator was asked about the guarded composite of the intent, and says that it would not
  -- revert.
  abbrev pub IsSimulated : Type 0
  IsSimulated =
      (reply : SimulationReply) × (env.simulate (simulation_body env.guard intent) ≡ some reply)
      × (reply.would_revert ≡ some false)

  abbrev pub IsSanctioned : Effect → Type 0
  IsSanctioned (simulated body) = IsPermitted × (body ≡ simulation_body env.guard intent)
  IsSanctioned (broadcasted body key) =
      (broadcasts ≡ true)
      × IsPermitted
      × IsSimulated
      × (body ≡ broadcast_body env.guard intent.chain_id intent.calls intent.invariants)
      × (key ≡ dapp_key intent)

  passes : (o : Option Bool) → may_revert o ≡ false → o ≡ some false
  passes none h = cc
  passes (some true) h = cc
  passes (some false) h = refl

  module _ (document : Json) (permitted : IsPermitted) (reasons : List ReceiptReason) where
    broadcast_or_answer-IsSanctioned :
        (b : Bool) (reply : SimulationReply)
        → b ≡ broadcasts
        → IsSimulated
        → All IsSanctioned (broadcast_or_answer env intent document b reasons reply).0
    unfolding broadcast_or_answer
    broadcast_or_answer-IsSanctioned false reply e is = tt
    broadcast_or_answer-IsSanctioned true reply e is =
        elim (Option-cases (
          env.broadcast (broadcast_body env.guard intent.chain_id intent.calls intent.invariants)
            (dapp_key intent))) [
              | inl lost ↦ rw (broadcast_or_answer, lost) ((sym e, permitted, is, refl, refl), tt)
              | inr (answer, h) ↦
                  rw (broadcast_or_answer, h) ((sym e, permitted, is, refl, refl), tt)
            ]

    simulate_then-IsSanctioned :
        All IsSanctioned (simulate_then env intent document broadcasts reasons).0
    simulate_then-IsSanctioned =
        elim (Option-cases (env.simulate (simulation_body env.guard intent))) [
          | inl lost ↦
              rw (simulate_unanswered env broadcasts intent holds document reasons lost)
                ((permitted, refl), tt)
          | inr (reply, h) ↦ elim (Bool-cases (may_revert reply.would_revert)) [
            | inl r ↦
                rw (simulate_reverting env broadcasts intent holds document reasons reply h r)
                  ((permitted, refl), tt)
            | inr r ↦ rw (simulate_passing env broadcasts intent holds document reasons reply h r) (
              (permitted, refl),
              broadcast_or_answer-IsSanctioned broadcasts reply refl
                  (reply, h, passes reply.would_revert r),
            )
          ]
        ]

  -- The dashboard simulates the guarded composite of an intent only if its policy permits the intent,
  -- and broadcasts it only if moreover it is asked to and the simulator says that the composite would
  -- not revert: it sends that composite, under the intent's own key.
  pub run_intent-IsSanctioned : All IsSanctioned (run_intent env broadcasts intent holds).1
  run_intent-IsSanctioned = elim (Option-cases env.policy) [
    | inl unread ↦ rw (run_unread env broadcasts intent holds unread) tt
    | inr ((policy, document), p) ↦
        elim (Option-cases (evaluate intent policy (context_at env.now) all_rules)) [
          | inl thrown ↦ rw (run_undecided env broadcasts intent holds policy document p thrown) tt
          | inr (d, e) ↦ elim (verdict_cases d.verdict) [
            | inl a ↦
                rw
                  (run_decided env broadcasts intent holds policy document d p e
                    ∙ follow_allow env broadcasts intent holds document d a)
                  (simulate_then-IsSanctioned document
                    (policy, document, p, evaluate-Permits intent policy (context_at env.now) e a)
                    (map reason_of_rule d.reasons))
            | inr (inl h) ↦
                rw
                  (run_decided env broadcasts intent holds policy document d p e
                    ∙ follow_hold env broadcasts intent holds document d h)
                  tt
            | inr (inr n) ↦
                rw
                  (run_decided env broadcasts intent holds policy document d p e
                    ∙ follow_deny env broadcasts intent holds document d n)
                  tt
          ]
        ]
  ]
