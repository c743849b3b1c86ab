-- ===== src/Policy/Permits/Tests.antt =====
-- A policy at work, and each theorem on the policy VM at an input.
use kp.Common.{◌≡◌, ◌↔◌, refl, some, List, [], ◌∷◌, ◌++◌, lit}
use kp.Common.Int.{◌+ℤ◌}
use kp.Common.Numbers.{is_space, digit, big}
use kp.Policy.Types.{Severity, Intent, Decision, Reason}
use kp.Policy.Samples.{policy, safe, context, allowed, large}
use kp.Policy.Rules.Calls.{Rule, sum_values}
use kp.Policy.Rules.Static.{chain_allowed, value_cap}
use kp.Policy.Rules.Holds.{all_rules, hold_on_large_value}
use kp.Policy.Evaluate.{evaluate}
use kp.Policy.Negative.{value_cap-offset}
use kp.Policy.Permits.{Permits}
use kp.Policy.Permits.Allowed.{evaluate-Permits_iff}

evaluate-Permits_iff_example :
    (evaluate safe policy context all_rules ≡ some allowed) ↔ Permits safe policy context
evaluate-Permits_iff_example = evaluate-Permits_iff safe policy context

abbrev base_rules : List Rule
base_rules = chain_allowed ∷ value_cap ∷ []

abbrev rank_rules : List Rule
rank_rules = hold_on_large_value ∷ []

large_held : (d : Decision) × (evaluate large policy context (base_rules ++ rank_rules) ≡ some d)
unfolding evaluate chain_allowed value_cap hold_on_large_value sum_values lit big ◌+ℤ◌ is_space
    digit
large_held = (_, refl)

abbrev held_reason : Reason
held_reason = record { code = lit "H"; severity = Severity.hold; message = []; detail = [] }

abbrev denied_reason : Reason
denied_reason = record { code = lit "D"; severity = Severity.deny; message = []; detail = [] }

abbrev mixed : List Reason
mixed = held_reason ∷ denied_reason ∷ held_reason ∷ []

-- 150 wei and -50 wei under a cap of 100 wei.
abbrev offset : Intent
offset = record safe {
  calls =
      record { target = lit "0xab"; value = lit "150"; calldata = [] }
      ∷ record { target = lit "0xab"; value = lit "-50"; calldata = [] }
      ∷ [];
}

value_cap-offset_example : value_cap offset policy context ≡ some []
unfolding big lit is_space digit
value_cap-offset_example = value_cap-offset offset policy context 100 50 _ _ refl refl refl refl
