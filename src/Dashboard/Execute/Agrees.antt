-- ===== src/Dashboard/Execute/Agrees.antt =====
-- The pipeline of apps/dashboard/lib/execute.ts against that of apps/gateway/src/authorize.ts.
use kp.Common.{
  ◌≡◌, refl, sym, ap, ◌∙◌, ◌⊎◌, inl, inr, Bool, false, Option, none, some, List, map, Text,
  Bool-cases, Option-cases, if◌then◌else◌,
}
use kp.Resilience.Breaker.{Settled, returned, threw}
use kp.KeeperHub.Json.{Json}
use kp.KeeperHub.Http.{KeeperHubError}
use kp.KeeperHub.Outcomes.{ContractCallRequest, SimulationOutcome}
use kp.Policy.Types.{Verdict, Intent, Decision}
use kp.Policy.Rules.Holds.{all_rules}
use kp.Policy.Evaluate.{evaluate}
use kp.Receipts.Receipt.{ReceiptReason}
use kp.Gateway.Authorize.{
  AuthorizeOptions, AuthorizeResult, AuthorizeFault, reason_of_rule, to_guard_call, authorize,
  judge_simulation, finish,
}
use kp.Gateway.Authorize
use kp.Gateway.Authorize.Allows.{verdict_cases}
use kp.Dashboard.Ledger.{Holds}
use kp.Dashboard.Requests.{SimulationReply, simulation_body, may_revert}
use kp.Dashboard.Execute.{
  Env, ExecutePayload, failed, live, payload, refuse, simulate_then, follow, hold_it,
  broadcast_or_answer, context_at, run_intent,
}
use kp.Dashboard.Execute.Follows.{
  run_decided, run_undecided, follow_allow, follow_hold, follow_deny, simulate_unanswered,
  simulate_reverting, simulate_passing,
}

abbrev pub verdict_of_payload : ExecutePayload → Option Verdict
verdict_of_payload failed = none
verdict_of_payload (live p) = some p.verdict

abbrev pub verdict_of_result : Settled AuthorizeResult AuthorizeFault → Option Verdict
verdict_of_result (returned result) = some result.verdict
verdict_of_result (threw e) = none

-- Two simulators that answer alike: neither can be asked, or both are and the one says that the
-- composite may revert where the other says that it would.
abbrev pub AnswerAlike : Option SimulationReply → Settled SimulationOutcome KeeperHubError → Type 0
AnswerAlike none (threw e) = Unit
AnswerAlike none (returned s) = ⊥
AnswerAlike (some reply) (threw e) = ⊥
AnswerAlike (some reply) (returned s) = may_revert reply.would_revert ≡ s.would_revert

module _ (env : Env) (intent : Intent) (holds : Holds) (document : Json)
    (simulate : ContractCallRequest → Settled SimulationOutcome KeeperHubError)
    (options : AuthorizeOptions) (at : Text)
    (same_policy : env.policy ≡ some (options.policy, document)) where
  pub gateway_allow :
      (d : Decision)
      → evaluate intent options.policy (context_at env.now) all_rules ≡ some d
      → d.verdict ≡ Verdict.allow
      → authorize env.keccak simulate intent (context_at env.now) options at
        ≡ Authorize.simulate_then env.keccak simulate intent options at
            (map reason_of_rule d.reasons)
  unfolding authorize
  gateway_allow d e v = rw (authorize, e) (rw v refl)

  gateway_other :
      (d : Decision) (v : Verdict)
      → evaluate intent options.policy (context_at env.now) all_rules ≡ some d
      → d.verdict ≡ v
      → (v ≡ Verdict.hold) ⊎ (v ≡ Verdict.deny)
      → verdict_of_result (authorize env.keccak simulate intent (context_at env.now) options at)
        ≡ some v
  unfolding authorize finish
  gateway_other d v e same (inl h) = rw (authorize, e) (rw (same, h) refl)
  gateway_other d v e same (inr h) = rw (authorize, e) (rw (same, h) refl)

  gateway_thrown :
      evaluate intent options.policy (context_at env.now) all_rules ≡ none
      → verdict_of_result (authorize env.keccak simulate intent (context_at env.now) options at)
        ≡ none
  unfolding authorize
  gateway_thrown e = rw (authorize, e) refl

  settled_cases :
      (x : Settled SimulationOutcome KeeperHubError)
      → ((s : SimulationOutcome) × (x ≡ returned s)) ⊎ ((e : KeeperHubError) × (x ≡ threw e))
  settled_cases (returned s) = inl (s, refl)
  settled_cases (threw e) = inr (e, refl)

  pub gateway_simulated :
      (reasons : List ReceiptReason) (s : SimulationOutcome)
      → simulate (to_guard_call intent options.guard options.guard_abi) ≡ returned s
      → verdict_of_result (Authorize.simulate_then env.keccak simulate intent options at reasons)
        ≡ some (if s.would_revert then Verdict.deny else Verdict.allow)
  unfolding Authorize.simulate_then judge_simulation finish
  gateway_simulated reasons s h = elim (Bool-cases s.would_revert) [
    | inl r ↦ rw (Authorize.simulate_then, h) (rw r refl)
    | inr r ↦ rw (Authorize.simulate_then, h) (rw r refl)
  ]

  pub gateway_unanswered :
      (reasons : List ReceiptReason) (e : KeeperHubError)
      → simulate (to_guard_call intent options.guard options.guard_abi) ≡ threw e
      → verdict_of_result (Authorize.simulate_then env.keccak simulate intent options at reasons)
        ≡ none
  unfolding Authorize.simulate_then
  gateway_unanswered reasons e h = rw (Authorize.simulate_then, h) refl

  pub dashboard_simulated :
      (reasons : List ReceiptReason) (reply : SimulationReply)
      → env.simulate (simulation_body env.guard intent) ≡ some reply
      → verdict_of_payload (simulate_then env intent document false reasons).1
        ≡ some (if may_revert reply.would_revert then Verdict.deny else Verdict.allow)
  unfolding refuse broadcast_or_answer payload
  dashboard_simulated reasons reply h = elim (Bool-cases (may_revert reply.would_revert)) [
    | inl r ↦ rw (simulate_reverting env false intent holds document reasons reply h r) (rw r refl)
    | inr r ↦ rw (simulate_passing env false intent holds document reasons reply h r) (rw r refl)
  ]

  simulations_agree :
      (reasons : List ReceiptReason)
      → AnswerAlike
          (env.simulate (simulation_body env.guard intent))
          (simulate (to_guard_call intent options.guard options.guard_abi))
      → verdict_of_payload (simulate_then env intent document false reasons).1
        ≡ verdict_of_result (Authorize.simulate_then env.keccak simulate intent options at reasons)
  simulations_agree reasons alike =
      elim (Option-cases (env.simulate (simulation_body env.guard intent))) [
        | inl lost ↦
            elim (settled_cases (simulate (to_guard_call intent options.guard options.guard_abi))) [
              | inl (s, k) ↦ absurd (rw (lost, k) at alike)
              | inr (e, k) ↦
                  ap (λ x. verdict_of_payload x.1)
                    (simulate_unanswered env false intent holds document reasons lost)
                  ∙ sym (gateway_unanswered reasons e k)
            ]
        | inr (reply, h) ↦
            elim (settled_cases (simulate (to_guard_call intent options.guard options.guard_abi))) [
              | inl (s, k) ↦
                  dashboard_simulated reasons reply h
                  ∙ ap (λ (r : Bool). some (if r then Verdict.deny else Verdict.allow))
                      (rw (h, k) at alike)
                  ∙ sym (gateway_simulated reasons s k)
              | inr (e, k) ↦ absurd (rw (h, k) at alike)
            ]
      ]

  dashboard_hold :
      (d : Decision)
      → d.verdict ≡ Verdict.hold
      → verdict_of_payload (follow env intent document false d holds).2 ≡ some Verdict.hold
  unfolding hold_it payload
  dashboard_hold d v = rw (follow_hold env false intent holds document d v) refl

  dashboard_deny :
      (d : Decision)
      → d.verdict ≡ Verdict.deny
      → verdict_of_payload (follow env intent document false d holds).2 ≡ some Verdict.deny
  unfolding payload
  dashboard_deny d v = rw (follow_deny env false intent holds document d v) refl

  -- Asked for a verdict alone, the dashboard and the gateway agree: with one policy, one time and
  -- simulators that answer alike, they give the same verdict or both give none.
  pub run_intent-authorize :
      AnswerAlike
        (env.simulate (simulation_body env.guard intent))
        (simulate (to_guard_call intent options.guard options.guard_abi))
      → verdict_of_payload (run_intent env false intent holds).2
        ≡ verdict_of_result (authorize env.keccak simulate intent (context_at env.now) options at)
  run_intent-authorize alike =
      elim (Option-cases (evaluate intent options.policy (context_at env.now) all_rules)) [
        | inl thrown ↦
            ap (λ x. verdict_of_payload x.2)
              (run_undecided env false intent holds options.policy document same_policy thrown)
            ∙ sym (gateway_thrown thrown)
        | inr (d, e) ↦
            ap (λ x. verdict_of_payload x.2)
              (run_decided env false intent holds options.policy document d same_policy e)
            ∙ elim (verdict_cases d.verdict) [
              | inl a ↦
                  ap (λ x. verdict_of_payload x.2)
                    (follow_allow env false intent holds document d a)
                  ∙ simulations_agree (map reason_of_rule d.reasons) alike
                  ∙ sym (ap (λ x. verdict_of_result x) (gateway_allow d e a))
              | inr (inl h) ↦ dashboard_hold d h ∙ sym (gateway_other d Verdict.hold e h (inl refl))
              | inr (inr n) ↦ dashboard_deny d n ∙ sym (gateway_other d Verdict.deny e n (inr refl))
            ]
      ]
