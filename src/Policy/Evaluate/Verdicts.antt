-- ===== src/Policy/Evaluate/Verdicts.antt =====
-- What the verdict of `evaluate` of packages/policy says of the rules, and what it depends on.
use kp.Common.{
  Text, some-eq-some, ap, append_assoc, >>=-eq-some, append-eq-nil, ℕ, ◌≤◌, ◌≡◌, ◌↔◌, refl, sym,
  ◌∙◌, Option, some, List, [], ◌∷◌, ◌++◌, arith, All, any-append, length,
}
use kp.Policy.Types.{Verdict, Reason, Intent, Invariant, EvalContext, Policy, Decision}
use kp.Policy.Rules.Calls.{Rule}
use kp.Policy.Rules.Static.{chain_allowed, target_allowlist, selector_allowlist, value_cap}
use kp.Policy.Rules.Limits.{
  windowed_limits, schedule_window, approval_bound, gas_ceiling, invariants_required,
}
use kp.Policy.Rules.Holds.{all_rules, hold_on_large_value, hold_on_unknown_counterparty}
use kp.Policy.Evaluate.{is_deny, is_hold, collect, verdict_of, decide, evaluate}

-- How strict a verdict is.
abbrev pub rank : Verdict → ℕ
rank Verdict.allow = 0
rank Verdict.hold = 1
rank Verdict.deny = 2

verdict_of-allow : (reasons : List Reason) → verdict_of reasons ≡ Verdict.allow → reasons ≡ []
unfolding verdict_of
verdict_of-allow [] h = refl
verdict_of-allow (r ∷ rs) h = ground arith

module _ (intent : Intent) (policy : Policy) (ctx : EvalContext) where
  abbrev pub Passes : Rule → Type 0
  Passes rule = rule intent policy ctx ≡ some []

  collect-cons_inv :
      (rule : Rule) (rules : List Rule) {xs : List Reason}
      → collect (rule ∷ rules) intent policy ctx ≡ some xs
      → (raised rest : List Reason) × (rule intent policy ctx ≡ some raised)
        × (collect rules intent policy ctx ≡ some rest)
        × (raised ++ rest ≡ xs)
  unfolding collect
  collect-cons_inv rule rules h =
      let (raised, p, k) = >>=-eq-some (rule intent policy ctx) _ h in
      let (rest, q, e) = >>=-eq-some (collect rules intent policy ctx) _ k in
      (raised, rest, p, q, some-eq-some e)

  collect-nil : (rules : List Rule) → collect rules intent policy ctx ≡ some [] → All Passes rules
  collect-nil [] h = tt
  collect-nil (rule ∷ rules) h =
      let (raised, rest, p, q, e) = collect-cons_inv rule rules h in
      let (none_raised, none_left) = append-eq-nil raised rest e in
      (p ∙ ap some none_raised, collect-nil rules (q ∙ ap some none_left))

  pub collect_of_Passes :
      (rules : List Rule) → All Passes rules → collect rules intent policy ctx ≡ some []
  unfolding collect
  collect_of_Passes [] h = refl
  collect_of_Passes (rule ∷ rules) (p, h) = rw (p, collect_of_Passes rules h)

  evaluate_inv :
      (rules : List Rule) {d : Decision}
      → evaluate intent policy ctx rules ≡ some d
      → (reasons : List Reason) × (collect rules intent policy ctx ≡ some reasons)
        × (decide reasons ≡ d)
  unfolding evaluate
  evaluate_inv rules e =
      let (reasons, p, q) = >>=-eq-some (collect rules intent policy ctx) _ e in
      (reasons, p, some-eq-some q)

  decide-allow :
      (reasons : List Reason) {d : Decision}
      → decide reasons ≡ d
      → d.verdict ≡ Verdict.allow
      → reasons ≡ []
  unfolding decide
  decide-allow reasons e v = verdict_of-allow reasons (ap (λ (x : Decision). x.verdict) e ∙ v)

  decide-nil : {d : Decision} → decide [] ≡ d → (d.verdict ≡ Verdict.allow) × (d.reasons ≡ [])
  unfolding decide
  decide-nil e = rw (← e) (refl, refl)

  -- An intent is allowed exactly when every rule passes it, and then no reason is given.
  pub evaluate-allow_iff :
      (rules : List Rule) {d : Decision}
      → evaluate intent policy ctx rules ≡ some d
      → (d.verdict ≡ Verdict.allow) ↔ (All Passes rules × (d.reasons ≡ []))
  evaluate-allow_iff rules {d} e =
      let (reasons, p, q) = evaluate_inv rules e in
      (
        λ v.
            let nothing = decide-allow reasons q v in
            (collect-nil rules (p ∙ ap some nothing), (decide-nil (rw nothing at q)).1),
        λ h. (decide-nil (rw (some-eq-some (sym p ∙ collect_of_Passes rules h.0)) at q)).0,
      )

  collect-append :
      (rules more : List Rule) {zs : List Reason}
      → collect (rules ++ more) intent policy ctx ≡ some zs
      → (xs ys : List Reason) × (collect rules intent policy ctx ≡ some xs) × (xs ++ ys ≡ zs)
  unfolding collect
  collect-append [] more {zs} h = ([], zs, refl, refl)
  collect-append (rule ∷ rules) more {zs} h =
      let (raised, rest, p, q, e) = collect-cons_inv rule (rules ++ more) h in
      let (xs, ys, k, f) = collect-append rules more q in
      (raised ++ xs, ys, rw (p, k), append_assoc raised xs ys ∙ rw f e)

  verdict_of-append : (xs ys : List Reason) → rank (verdict_of xs) ≤ rank (verdict_of (xs ++ ys))
  unfolding verdict_of
  verdict_of-append xs ys = ground (
    arith,
    any-append (λ (r : Reason). is_deny r.severity) xs ys,
    any-append (λ (r : Reason). is_hold r.severity) xs ys,
  )

  decide-verdict :
      (reasons : List Reason) {d : Decision} → decide reasons ≡ d → verdict_of reasons ≡ d.verdict
  unfolding decide
  decide-verdict reasons e = ap (λ (x : Decision). x.verdict) e

  -- Rules that are added never make a decision less strict: where the longer list of rules decides
  -- at all, so does the shorter one, with a verdict that is no stricter.
  pub evaluate_monotone :
      (rules more : List Rule) {d : Decision}
      → evaluate intent policy ctx (rules ++ more) ≡ some d
      → (c : Decision) × (evaluate intent policy ctx rules ≡ some c)
        × (rank c.verdict ≤ rank d.verdict)
  unfolding evaluate
  evaluate_monotone rules more {d} e =
      let (zs, p, q) = evaluate_inv (rules ++ more) e in
      let (xs, ys, k, f) = collect-append rules more p in
      (decide xs, rw k, rw (← decide-verdict zs q, ← f) (verdict_of-append xs ys))

module _ (i j : Intent) (policy : Policy) (ctx : EvalContext) where
  collect_congr :
      (rules : List Rule)
      → All (λ (rule : Rule). rule i policy ctx ≡ rule j policy ctx) rules
      → collect rules i policy ctx ≡ collect rules j policy ctx
  unfolding collect
  collect_congr [] h = refl
  collect_congr (rule ∷ rules) (p, h) = rw (p, collect_congr rules h)

  evaluate_congr_collect :
      (rules : List Rule)
      → collect rules i policy ctx ≡ collect rules j policy ctx
      → evaluate i policy ctx rules ≡ evaluate j policy ctx rules
  unfolding evaluate
  evaluate_congr_collect rules h = rw h

  invariants_required_congr :
      length i.invariants ≡ length j.invariants
      → invariants_required i policy ctx ≡ invariants_required j policy ctx
  unfolding invariants_required
  invariants_required_congr h = rw h

-- Intents that agree on the chain and the calls are told apart by no rule but the one that counts
-- their invariants.
rules_congr :
    (j : Intent) (id : Text) (invariants : List Invariant) (rationale : Option Text)
    (submitted_at : Text) (policy : Policy) (ctx : EvalContext)
    → length invariants ≡ length j.invariants
    → All
        (λ (rule : Rule).
          rule
            (record {
              id = id;
              chain_id = j.chain_id;
              calls = j.calls;
              invariants = invariants;
              rationale = rationale;
              submitted_at = submitted_at;
            })
            policy
            ctx
          ≡ rule j policy ctx)
        all_rules
unfolding chain_allowed target_allowlist selector_allowlist value_cap windowed_limits
    schedule_window approval_bound gas_ceiling hold_on_large_value hold_on_unknown_counterparty
rules_congr j id invariants rationale submitted_at policy ctx r = (
  refl,
  (
    refl,
    (
      refl,
      (
        refl,
        (
          refl,
          (refl, (refl, (refl, (invariants_required_congr _ j policy ctx r, (refl, (refl, tt)))))),
        ),
      ),
    ),
  ),
)

-- The decision of the policy VM depends on an intent's chain, calls and number of invariants only:
-- not on its id, its rationale, its time, nor on what the invariants say.
pub evaluate_congr :
    (i j : Intent) (policy : Policy) (ctx : EvalContext)
    → i.chain_id ≡ j.chain_id
    → i.calls ≡ j.calls
    → length i.invariants ≡ length j.invariants
    → evaluate i policy ctx all_rules ≡ evaluate j policy ctx all_rules
evaluate_congr i j policy ctx p q r =
    ap (λ n. evaluate (record i { chain_id = n }) policy ctx all_rules) p
    ∙ ap (λ cs. evaluate (record i { chain_id = j.chain_id; calls = cs }) policy ctx all_rules) q
    ∙ evaluate_congr_collect _ j policy ctx all_rules (
        collect_congr _ j policy ctx all_rules
          (rules_congr j i.id i.invariants i.rationale i.submitted_at policy ctx r))
