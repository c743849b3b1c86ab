-- ===== src/Policy/Permits/Allowed.antt =====
-- `evaluate` of packages/policy against the specification of what a policy permits.
use kp.Common.{◌≡◌, refl, ◌↔◌, some, [], All}
use kp.Policy.Types.{Verdict, Intent, EvalContext, Policy, Decision}
use kp.Policy.Rules.Holds.{all_rules}
use kp.Policy.Evaluate.{evaluate}
use kp.Policy.Evaluate.Verdicts.{Passes, evaluate-allow_iff, collect_of_Passes}
use kp.Policy.Permits.{Permits}
use kp.Policy.Permits.Rules.{chain_iff, targets_iff, value_iff, hours_iff, gas_iff, invariants_iff}
use kp.Policy.Permits.Limits.{selectors_iff, approvals_iff, window_iff, large_iff, known_iff}

module _ (i : Intent) (p : Policy) (c : EvalContext) where
  Permits-Passes : All (Passes i p c) all_rules → Permits i p c
  Permits-Passes (h1, (h2, (h3, (h4, (h5, (h6, (h7, (h8, (h9, (h10, (h11, _))))))))))) =
      let (few, fits) = (window_iff i p c).0 h5 in
      record {
        chain = (chain_iff i p c).0 h1;
        targets = (targets_iff i p c).0 h2;
        selectors = (selectors_iff i p c).0 h3;
        value = (value_iff i p c).0 h4;
        rate = few;
        spend = fits;
        hours = (hours_iff i p c).0 h6;
        approvals = (approvals_iff i p c).0 h7;
        gas = (gas_iff i p c).0 h8;
        invariants = (invariants_iff i p c).0 h9;
        below_review = (large_iff i p c).0 h10;
        known = (known_iff i p c).0 h11;
      }

  Passes-Permits : Permits i p c → All (Passes i p c) all_rules
  Passes-Permits h = (
    (chain_iff i p c).1 h.chain,
    (
      (targets_iff i p c).1 h.targets,
      (
        (selectors_iff i p c).1 h.selectors,
        (
          (value_iff i p c).1 h.value,
          (
            (window_iff i p c).1 (h.rate, h.spend),
            (
              (hours_iff i p c).1 h.hours,
              (
                (approvals_iff i p c).1 h.approvals,
                (
                  (gas_iff i p c).1 h.gas,
                  (
                    (invariants_iff i p c).1 h.invariants,
                    ((large_iff i p c).1 h.below_review, ((known_iff i p c).1 h.known, tt)),
                  ),
                ),
              ),
            ),
          ),
        ),
      ),
    ),
  )

  allowed_of_Passes :
      All (Passes i p c) all_rules
      → evaluate i p c all_rules ≡ some (record { verdict = Verdict.allow; reasons = [] })
  unfolding evaluate
  allowed_of_Passes h = rw (collect_of_Passes i p c all_rules h)

  -- The policy VM decides ALLOW, with no reason, exactly for what the policy permits: a listed
  -- chain, listed targets, selectors that the entry of a target lists, where the lookup of the entry
  -- does not throw, a total within the cap, a window with room for the intent
  -- and its value, a permitted hour, bounded approvals and gas, enough invariants, a total below
  -- the review threshold and, where the policy asks for it, known counterparties only.
  pub evaluate-Permits_iff :
      (evaluate i p c all_rules ≡ some (record { verdict = Verdict.allow; reasons = [] }))
      ↔ Permits i p c
  evaluate-Permits_iff = (
    λ e. Permits-Passes (((evaluate-allow_iff i p c all_rules e).0 refl).0),
    λ h. allowed_of_Passes (Passes-Permits h),
  )

  -- The verdict ALLOW alone tells that the policy permits the intent.
  pub evaluate-Permits :
      {d : Decision} → evaluate i p c all_rules ≡ some d → d.verdict ≡ Verdict.allow → Permits i p c
  evaluate-Permits e v = Permits-Passes (((evaluate-allow_iff i p c all_rules e).0 v).0)
