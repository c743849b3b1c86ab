-- ===== src/Policy/Samples.antt =====
-- A policy, an intent that it permits and one that it holds.
use kp.Common.{◌≡◌, refl, false, none, some, [], ◌∷◌, lit, text_eq, lower, mem_text}
use kp.Common.Int.{◌+ℤ◌}
use kp.Common.Numbers.{is_space, digit, big}
use kp.Policy.Types.{Verdict, Invariant, InvariantOp, Intent, EvalContext, Policy, Decision}
use kp.Policy.Rules.Calls.{sum_values, approval_amount, flat_map_calls, selector_of}
use kp.Policy.Rules.Static.{
  selector_entry, chain_allowed, target_allowlist, selector_allowlist, value_cap,
}
use kp.Policy.Rules.Limits.{
  windowed_limits, schedule_window, approval_bound, gas_ceiling, invariants_required,
}
use kp.Policy.Rules.Holds.{all_rules, hold_on_large_value, hold_on_unknown_counterparty}
use kp.Policy.Evaluate.{evaluate}

abbrev pub policy : Policy
policy = record {
  name = lit "demo";
  chains = 11155111 ∷ [];
  targets = record {
    allow = lit "0xAB" ∷ [];
    selectors = (lit "0xab", lit "0x9d0bf2e9" ∷ []) ∷ [];
  };
  limits = record {
    max_native_value_per_intent = lit "100";
    max_native_value_per_window = lit "300";
    window_seconds = 3600;
    max_intents_per_window = 5;
    max_gas = lit "1500000";
  };
  hold_above = record { native_value = lit "50"; unknown_counterparty = false };
  schedule = some (8, 20);
  max_approval = lit "1000";
  min_invariants = 1;
}

abbrev pub floor : Invariant
floor = record {
  target = lit "0xAb";
  probe = lit "0xbf92857c";
  word = 5;
  op = InvariantOp.gte;
  threshold = lit "7";
}

abbrev pub safe : Intent
safe = record {
  id = lit "int_1";
  chain_id = 11155111;
  calls = record { target = lit "0xaB"; value = lit "40"; calldata = lit "0x9D0BF2E9" } ∷ [];
  invariants = floor ∷ [];
  rationale = none;
  submitted_at = lit "2026-01-01T09:00:00Z";
}

-- Nine in the morning.
abbrev pub context : EvalContext
context = record { now = 32_400_000; history = []; gas_estimate = none; known_counterparties = [] }

abbrev pub allowed : Decision
allowed = record { verdict = Verdict.allow; reasons = [] }

-- The same intent for a larger value is held.
abbrev pub large : Intent
large = record safe {
  calls = record { target = lit "0xaB"; value = lit "60"; calldata = lit "0x9D0BF2E9" } ∷ [];
}

pub evaluate-safe : evaluate safe policy context all_rules ≡ some allowed
unfolding evaluate chain_allowed target_allowlist selector_allowlist value_cap windowed_limits
    schedule_window approval_bound gas_ceiling invariants_required hold_on_large_value
    hold_on_unknown_counterparty sum_values approval_amount flat_map_calls selector_of lit text_eq
    lower mem_text big selector_entry ◌+ℤ◌ is_space digit
evaluate-safe = refl

pub evaluate-large :
    (d : Decision) × (evaluate large policy context all_rules ≡ some d) × (d.verdict ≡ Verdict.hold)
unfolding evaluate chain_allowed target_allowlist selector_allowlist value_cap windowed_limits
    schedule_window approval_bound gas_ceiling invariants_required hold_on_large_value
    hold_on_unknown_counterparty sum_values approval_amount flat_map_calls selector_of lit text_eq
    lower mem_text big selector_entry ◌+ℤ◌ is_space digit
evaluate-large = (_, refl, refl)
