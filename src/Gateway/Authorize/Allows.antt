-- ===== src/Gateway/Authorize/Allows.antt =====
-- What a verdict of apps/gateway/src/authorize.ts rests on, and the receipt that comes with it.
use kp.Common.{
  ◌≡◌, ◌≢◌, ◌↔◌, ◌⊎◌, inl, inr, refl, sym, ◌∙◌, true, false, none, some, List, [], ◌∷◌, ◌++◌, map,
  Text, Bool-cases, Option-cases,
}
use kp.Resilience.Breaker.{Settled, returned, threw}
use kp.KeeperHub.Http.{KeeperHubError}
use kp.KeeperHub.Outcomes.{ContractCallRequest, SimulationOutcome}
use kp.Policy.Types.{Verdict, Intent, EvalContext, Decision}
use kp.Policy.Rules.Holds.{all_rules}
use kp.Policy.Evaluate.{evaluate}
use kp.Policy.Permits.{Permits}
use kp.Policy.Permits.Allowed.{evaluate-Permits_iff, evaluate-Permits}
use kp.Receipts.Hash.{Bytes}
use kp.Receipts.Receipt.{ReceiptReason}
use kp.Gateway.Authorize.{
  AuthorizeOptions, AuthorizeResult, AuthorizeFault, rule_failed, simulator_failed, to_guard_call,
  reason_of_rule, finish, simulation_reason, judge_simulation, simulate_then, authorize,
}

pub settled_cases :
    {A E : Type 0} (s : Settled A E) → ((a : A) × (s ≡ returned a)) ⊎ ((e : E) × (s ≡ threw e))
settled_cases (returned a) = inl (a, refl)
settled_cases (threw e) = inr (e, refl)

pub verdict_cases : (v : Verdict) → (v ≡ Verdict.allow) ⊎ (v ≡ Verdict.hold) ⊎ (v ≡ Verdict.deny)
verdict_cases Verdict.allow = inl refl
verdict_cases Verdict.hold = inr (inl refl)
verdict_cases Verdict.deny = inr (inr refl)

same_verdict :
    (a b : AuthorizeResult) (s : Settled AuthorizeResult AuthorizeFault)
    → s ≡ returned a
    → s ≡ returned b
    → a.verdict ≡ b.verdict
same_verdict a b s h k = cc

same_result :
    (a b : AuthorizeResult) (s : Settled AuthorizeResult AuthorizeFault)
    → s ≡ returned a
    → s ≡ returned b
    → a ≡ b
same_result a b s h k = cc

module _ (keccak : Bytes → Bytes)
    (simulate : ContractCallRequest → Settled SimulationOutcome KeeperHubError) (intent : Intent)
    (context : EvalContext) (options : AuthorizeOptions) (at : Text) where
  authorize_thrown :
      evaluate intent options.policy context all_rules ≡ none
      → authorize keccak simulate intent context options at ≡ threw rule_failed
  unfolding authorize
  authorize_thrown h = rw (authorize, h) refl

  authorize_allow :
      (d : Decision)
      → evaluate intent options.policy context all_rules ≡ some d
      → d.verdict ≡ Verdict.allow
      → authorize keccak simulate intent context options at
        ≡ simulate_then keccak simulate intent options at (map reason_of_rule d.reasons)
  unfolding authorize
  authorize_allow d h v = rw (authorize, h, v) refl

  authorize_hold :
      (d : Decision)
      → evaluate intent options.policy context all_rules ≡ some d
      → d.verdict ≡ Verdict.hold
      → authorize keccak simulate intent context options at
        ≡ returned
            (finish keccak intent options at Verdict.hold (map reason_of_rule d.reasons) none)
  unfolding authorize
  authorize_hold d h v = rw (authorize, h, v) refl

  authorize_deny :
      (d : Decision)
      → evaluate intent options.policy context all_rules ≡ some d
      → d.verdict ≡ Verdict.deny
      → authorize keccak simulate intent context options at
        ≡ returned
            (finish keccak intent options at Verdict.deny (map reason_of_rule d.reasons) none)
  unfolding authorize
  authorize_deny d h v = rw (authorize, h, v) refl

  -- The three ways in which the simulator's answer ends the pipeline.
  simulate_then_threw :
      (e : KeeperHubError) (reasons : List ReceiptReason)
      → simulate (to_guard_call intent options.guard options.guard_abi) ≡ threw e
      → simulate_then keccak simulate intent options at reasons ≡ threw (simulator_failed e)
  unfolding simulate_then
  simulate_then_threw e reasons h = rw (simulate_then, h) refl

  simulate_then_reverting :
      (s : SimulationOutcome) (reasons : List ReceiptReason)
      → simulate (to_guard_call intent options.guard options.guard_abi) ≡ returned s
      → s.would_revert ≡ true
      → simulate_then keccak simulate intent options at reasons
        ≡ returned (
            finish keccak intent options at Verdict.deny
              (reasons ++ simulation_reason s ∷ [])
              (some s))
  unfolding simulate_then judge_simulation
  simulate_then_reverting s reasons h w = rw (simulate_then, h, w) refl

  simulate_then_passing :
      (s : SimulationOutcome) (reasons : List ReceiptReason)
      → simulate (to_guard_call intent options.guard options.guard_abi) ≡ returned s
      → s.would_revert ≡ false
      → simulate_then keccak simulate intent options at reasons
        ≡ returned (finish keccak intent options at Verdict.allow reasons (some s))
  unfolding simulate_then judge_simulation
  simulate_then_passing s reasons h w = rw (simulate_then, h, w) refl

  -- The simulator answered the guarded call of the intent with no revert.
  abbrev pub IsSimulated : Type 0
  IsSimulated =
      (s : SimulationOutcome) × (simulate (to_guard_call intent options.guard options.guard_abi)
        ≡ returned s)
      × (s.would_revert ≡ false)

  abbrev pub IsAllowed : Type 0
  IsAllowed =
      (result : AuthorizeResult) × (authorize keccak simulate intent context options at
        ≡ returned result)
      × (result.verdict ≡ Verdict.allow)

  simulated :
      (reasons : List ReceiptReason) (result : AuthorizeResult)
      → simulate_then keccak simulate intent options at reasons ≡ returned result
      → result.verdict ≡ Verdict.allow
      → IsSimulated
  unfolding finish
  simulated reasons result h v =
      elim (settled_cases (simulate (to_guard_call intent options.guard options.guard_abi))) [
        | inr (e, failed) ↦ absurd (cc (h, simulate_then_threw e reasons failed))
        | inl (s, answer) ↦ elim (Bool-cases s.would_revert) [
          | inl w ↦
              absurd (cc (v, same_verdict _ _ _ h (simulate_then_reverting s reasons answer w)))
          | inr w ↦ (s, answer, w)
        ]
      ]

  allowed_rests :
      (result : AuthorizeResult)
      → authorize keccak simulate intent context options at ≡ returned result
      → result.verdict ≡ Verdict.allow
      → Permits intent options.policy context × IsSimulated
  unfolding finish
  allowed_rests result h v =
      elim (Option-cases (evaluate intent options.policy context all_rules)) [
        | inl failed ↦ absurd (cc (h, authorize_thrown failed))
        | inr (d, e) ↦ elim (verdict_cases d.verdict) [
          | inl allowed ↦ (
            evaluate-Permits intent options.policy context e allowed,
            simulated (map reason_of_rule d.reasons) result (sym (authorize_allow d e allowed) ∙ h)
                v,
          )
          | inr (inl held) ↦ absurd (cc (v, same_verdict _ _ _ h (authorize_hold d e held)))
          | inr (inr denied) ↦ absurd (cc (v, same_verdict _ _ _ h (authorize_deny d e denied)))
        ]
      ]

  -- The pipeline answers ALLOW exactly if the policy permits the intent and the simulator says that
  -- the intent, wrapped in the guard, would not revert.
  pub authorize-allow_iff : IsAllowed ↔ (Permits intent options.policy context × IsSimulated)
  unfolding finish
  authorize-allow_iff = (
    λ (result, h, v). allowed_rests result h v,
    λ (permitted, (s, answer, w)). (
      finish keccak intent options at Verdict.allow [] (some s),
      authorize_allow (record { verdict = Verdict.allow; reasons = [] })
            ((evaluate-Permits_iff intent options.policy context).1 permitted) refl
          ∙ simulate_then_passing s [] answer w,
      refl,
    ),
  )

  -- With another verdict of the policy the simulator is not asked: the outcome is the same whatever
  -- it would have answered.
  pub authorize_unsimulated :
      (other : ContractCallRequest → Settled SimulationOutcome KeeperHubError) (d : Decision)
      → evaluate intent options.policy context all_rules ≡ some d
      → d.verdict ≢ Verdict.allow
      → authorize keccak simulate intent context options at
        ≡ authorize keccak other intent context options at
  unfolding authorize
  authorize_unsimulated other d e v = elim (verdict_cases d.verdict) [
    | inl allowed ↦ absurd (v allowed)
    | inr (inl held) ↦ rw (authorize, e, held) refl
    | inr (inr denied) ↦ rw (authorize, e, denied) refl
  ]
