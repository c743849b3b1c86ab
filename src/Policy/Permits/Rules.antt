-- ===== src/Policy/Permits/Rules.antt =====
-- The rules of packages/policy/src/rules.ts one by one, against their parts of `Permits`.
use mathlib.Core.Bool.{or-true}
use kp.Common.{
  ◌>>=◌, >>=-eq-some, some-eq-some, ℕ, ◌≤◌, ◌≡◌, ◌↔◌, refl, ap, inl, inr, true, Option, none, some,
  List, [], ◌∷◌, map, Text, lower, arith, All, OneOf, Bool-cases, if◌then◌else◌, length, ◌==◌,
}
use kp.Common.Int.{ℤ, leb_ℤ, leb_ℤ→le, le→leb_ℤ}
use kp.Common.Numbers.{big}
use kp.Policy.Types.{Call, Reason, Intent, EvalContext, Policy}
use kp.Policy.Rules.Calls.{sum_values}
use kp.Policy.Rules.Static.{mem_number, chain_allowed, target_allowlist, check_target, value_cap}
use kp.Policy.Rules.Limits.{
  check_schedule, utc_hour, schedule_window, check_gas, gas_ceiling, invariants_required,
}
use kp.Policy.Permits.{AtMost, IsWithin}
use kp.Policy.Permits.Calls.{All-flat_map, flat_map_of_All, passed, target_pass, target_passes}

mem_number→OneOf : (n : ℕ) (ns : List ℕ) → mem_number n ns ≡ true → OneOf n ns
unfolding mem_number
mem_number→OneOf n [] h = cc
mem_number→OneOf n (m ∷ ms) h = elim (Bool-cases (n == m)) [
  | inl same ↦ inl (ground arith)
  | inr other ↦ inr (mem_number→OneOf n ms (rw other at h))
]

OneOf→mem_number : (n : ℕ) (ns : List ℕ) → OneOf n ns → mem_number n ns ≡ true
unfolding mem_number
OneOf→mem_number n [] h = absurd h
OneOf→mem_number n (m ∷ ms) (inl e) = ground arith
OneOf→mem_number n (m ∷ ms) (inr h) = rw (OneOf→mem_number n ms h) (or-true (n == m))

at_most :
    (m n : Option ℤ) (r : ℤ → ℤ → Reason)
    → (m >>= λ a. n >>= λ b. if leb_ℤ a b then some [] else some (r a b ∷ [])) ≡ some []
    → AtMost m n
at_most m n r h =
    let (a, p, k) = >>=-eq-some m _ h in
    let (b, q, l) = >>=-eq-some n _ k in (a, b, p, q, leb_ℤ→le a b (passed _ _ _ l))

of_AtMost :
    (m n : Option ℤ) (r : ℤ → ℤ → Reason)
    → AtMost m n
    → (m >>= λ a. n >>= λ b. if leb_ℤ a b then some [] else some (r a b ∷ [])) ≡ some []
of_AtMost m n r (a, b, p, q, h) = rw (p, q) (rw (le→leb_ℤ a b h))

hours-IsWithin :
    (schedule : Option (ℕ × ℕ)) (hour : ℕ)
    → check_schedule schedule hour ≡ []
    → (start end : ℕ) → schedule ≡ some (start, end)
    → IsWithin start end hour
unfolding check_schedule
hours-IsWithin schedule hour h start end e = within (rw e at h)
  where
    within : check_schedule (some (start, end)) hour ≡ [] → IsWithin start end hour
    within k = ground arith

within_hours :
    (schedule : Option (ℕ × ℕ)) (hour : ℕ)
    → ((start end : ℕ) → schedule ≡ some (start, end) → IsWithin start end hour)
    → check_schedule schedule hour ≡ []
unfolding check_schedule
within_hours none hour h = refl
within_hours (some (start, end)) hour h = ground (arith, h start end refl)

gas-AtMost :
    (gas : Option Text) (ceiling : Text)
    → check_gas gas ceiling ≡ some []
    → (g : Text) → gas ≡ some g
    → AtMost (big g) (big ceiling)
unfolding check_gas
gas-AtMost gas ceiling h g e = at_most (big g) (big ceiling) _ (rw e at h)

AtMost-gas :
    (gas : Option Text) (ceiling : Text)
    → ((g : Text) → gas ≡ some g → AtMost (big g) (big ceiling))
    → check_gas gas ceiling ≡ some []
unfolding check_gas
AtMost-gas none ceiling h = refl
AtMost-gas (some g) ceiling h = of_AtMost (big g) (big ceiling) _ (h g refl)

module _ (i : Intent) (p : Policy) (c : EvalContext) where
  pub chain_iff : (chain_allowed i p c ≡ some []) ↔ OneOf i.chain_id p.chains
  unfolding chain_allowed
  chain_iff = (
    λ h. mem_number→OneOf i.chain_id p.chains (passed _ _ _ h),
    λ h. rw (OneOf→mem_number i.chain_id p.chains h),
  )

  pub targets_iff :
      (target_allowlist i p c ≡ some [])
      ↔ All (λ (call : Call). OneOf (lower call.target) (map lower p.targets.allow)) i.calls
  unfolding target_allowlist
  targets_iff =
      let allowed : List Text = map lower p.targets.allow in
      (
        All-flat_map _ (check_target allowed) (target_pass allowed) 0 i.calls,
        flat_map_of_All _ (check_target allowed) (target_passes allowed) 0 i.calls,
      )

  pub value_iff :
      (value_cap i p c ≡ some [])
      ↔ AtMost (sum_values i.calls) (big p.limits.max_native_value_per_intent)
  unfolding value_cap
  value_iff = (at_most _ _ _, of_AtMost _ _ _)

  pub hours_iff :
      (schedule_window i p c ≡ some [])
      ↔ ((start end : ℕ) → p.schedule ≡ some (start, end) → IsWithin start end (utc_hour c.now))
  unfolding schedule_window
  hours_iff = (
    λ h. hours-IsWithin p.schedule (utc_hour c.now) (some-eq-some h),
    λ h. ap some (within_hours p.schedule (utc_hour c.now) h),
  )

  pub gas_iff :
      (gas_ceiling i p c ≡ some [])
      ↔ ((g : Text) → c.gas_estimate ≡ some g → AtMost (big g) (big p.limits.max_gas))
  unfolding gas_ceiling
  gas_iff = (gas-AtMost c.gas_estimate p.limits.max_gas, AtMost-gas c.gas_estimate p.limits.max_gas)

  pub invariants_iff :
      (invariants_required i p c ≡ some []) ↔ (p.min_invariants ≤ length i.invariants)
  unfolding invariants_required
  invariants_iff = (λ h. ground arith, λ h. ground arith)
