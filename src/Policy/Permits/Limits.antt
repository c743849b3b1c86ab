-- ===== src/Policy/Permits/Limits.antt =====
-- The rules on selectors, approvals, the window and the review of packages/policy/src/rules.ts,
-- against their parts of `Permits`.
use kp.Common.{
  >>=-eq-some, some-eq-some, append-eq-nil, ◌+◌, ◌≤◌, ◌≡◌, ◌↔◌, refl, inl, inr, Bool, true, false,
  some, [], ◌∷◌, map, lower, arith, All, OneOf, Bool-cases, ltb, if◌then◌else◌, length,
}
use kp.Common.Int.{ℤ, pos, ltb_ℤ, ◌+ℤ◌, ◌≤ℤ◌}
use kp.Common.Numbers.{big}
use kp.Policy.Types.{Call, Reason, Intent, EvalContext, Policy}
use kp.Policy.Rules.Calls.{sum_values, approval_amount}
use kp.Policy.Rules.Static.{selector_allowlist, check_selector}
use kp.Policy.Rules.Limits.{spent_from, windowed_limits, approval_bound, check_approval}
use kp.Policy.Rules.Holds.{hold_on_large_value, hold_on_unknown_counterparty}
use kp.Policy.Permits.{MayCall, MayApprove, recent}
use kp.Policy.Permits.Calls.{
  All-flat_map, flat_map_of_All, passed, selector_pass, selector_gives, approval_pass,
  approval_passes, known_of_none, none_of_known,
}

unless : (b : Bool) (r : Reason) → (if b then r ∷ [] else []) ≡ [] → b ≡ false
unless true r h = cc
unless false r h = refl

module _ (i : Intent) (p : Policy) (c : EvalContext) where
  pub selectors_iff :
      (selector_allowlist i p c ≡ some [])
      ↔ All (λ (call : Call). MayCall p.targets.selectors call) i.calls
  unfolding selector_allowlist
  selectors_iff =
      let selectors = p.targets.selectors in
      (
        All-flat_map _ (check_selector selectors) (selector_pass selectors) 0 i.calls,
        flat_map_of_All _ (check_selector selectors) (selector_gives selectors) 0 i.calls,
      )

  pub approvals_iff :
      (approval_bound i p c ≡ some [])
      ↔ All (λ (call : Call). MayApprove p.max_approval (approval_amount call.calldata)) i.calls
  unfolding approval_bound
  approvals_iff =
      let cap = p.max_approval in
      (
        All-flat_map _ (check_approval cap) (approval_pass cap) 0 i.calls,
        flat_map_of_All _ (check_approval cap) (approval_passes cap) 0 i.calls,
      )

  abbrev Fits : Type 0
  Fits =
      (spent total cap : ℤ) × (spent_from (pos 0) (recent p c) ≡ some spent)
      × (sum_values i.calls ≡ some total)
      × (big p.limits.max_native_value_per_window ≡ some cap)
      × (spent +ℤ total ≤ℤ cap)

  window_pass :
      windowed_limits i p c ≡ some []
      → (length (recent p c) + 1 ≤ p.limits.max_intents_per_window) × Fits
  unfolding windowed_limits
  window_pass h =
      let (spent, a, k) = >>=-eq-some (spent_from (pos 0) (recent p c)) _ h in
      let (total, b, l) = >>=-eq-some (sum_values i.calls) _ k in
      let (cap, d, m) = >>=-eq-some (big p.limits.max_native_value_per_window) _ l in
      let (rate, spend) = append-eq-nil _ _ (some-eq-some m) in
      let few = unless (ltb p.limits.max_intents_per_window (length (recent p c) + 1)) _ rate in
      let fits = unless (ltb_ℤ cap (spent +ℤ total)) _ spend in
      (ground arith, (spent, total, cap, a, b, d, ground arith))

  window_passes :
      length (recent p c) + 1 ≤ p.limits.max_intents_per_window
      → Fits
      → windowed_limits i p c ≡ some []
  unfolding windowed_limits
  window_passes few (spent, total, cap, a, b, d, fits) =
      let rate : ltb p.limits.max_intents_per_window (length (recent p c) + 1) ≡ false =
        ground arith in
      let spend : ltb_ℤ cap (spent +ℤ total) ≡ false = ground arith in
      rw (a, b, d) (rw (rate, spend))

  pub window_iff : (windowed_limits i p c ≡ some []) ↔ (
      (length (recent p c) + 1 ≤ p.limits.max_intents_per_window)
      × ((spent total cap : ℤ) × (spent_from (pos 0) (recent p c) ≡ some spent)
          × (sum_values i.calls ≡ some total)
          × (big p.limits.max_native_value_per_window ≡ some cap)
          × (spent +ℤ total ≤ℤ cap)))
  window_iff = (window_pass, λ h. window_passes h.0 h.1)

  large_pass :
      hold_on_large_value i p c ≡ some []
      → (total threshold : ℤ) × (sum_values i.calls ≡ some total)
        × (big p.hold_above.native_value ≡ some threshold)
        × (ltb_ℤ total threshold ≡ true)
  unfolding hold_on_large_value
  large_pass h =
      let (total, a, k) = >>=-eq-some (sum_values i.calls) _ h in
      let (threshold, b, l) = >>=-eq-some (big p.hold_above.native_value) _ k in
      (total, threshold, a, b, passed _ _ _ l)

  pub large_iff : (hold_on_large_value i p c ≡ some []) ↔ (
      (total threshold : ℤ) × (sum_values i.calls ≡ some total)
      × (big p.hold_above.native_value ≡ some threshold)
      × (ltb_ℤ total threshold ≡ true))
  unfolding hold_on_large_value
  large_iff = (large_pass, λ (total, threshold, a, b, h). rw (a, b) (rw h))

  pub known_iff : (hold_on_unknown_counterparty i p c ≡ some []) ↔ (
      p.hold_above.unknown_counterparty ≡ true
      → All (λ (call : Call). OneOf (lower call.target) (map lower c.known_counterparties)) i.calls)
  unfolding hold_on_unknown_counterparty
  known_iff = (
    λ h on. known_of_none (map lower c.known_counterparties) 0 i.calls (some-eq-some (rw on at h)),
    λ h. elim (Bool-cases p.hold_above.unknown_counterparty) [
      | inl on ↦ rw on (rw (none_of_known (map lower c.known_counterparties) [] 0 i.calls (h on)))
      | inr off ↦ rw off
    ],
  )
