-- ===== src/Policy/Rules/Holds.antt =====
-- packages/policy/src/rules.ts: the rules that hold an intent for a human, and `ALL_RULES`.
use kp.Common.{
  ◌>>=◌, ℕ, ◌+◌, ◌||◌, some, List, [], ◌∷◌, ◌++◌, map, Text, lit, lower, mem_text, if◌then◌else◌,
}
use kp.Common.Int.{ℤ, ltb_ℤ}
use kp.Common.Numbers.{big, show_ℤ}
use kp.Policy.Types.{Severity, text, num, Reason, Call}
use kp.Policy.Rules.Calls.{Rule, sum_values}
use kp.Policy.Rules.Static.{chain_allowed, target_allowlist, selector_allowlist, value_cap}
use kp.Policy.Rules.Limits.{
  windowed_limits, schedule_window, approval_bound, gas_ceiling, invariants_required,
}

unfoldable pub large_reason : ℤ → ℤ → Reason
large_reason total threshold = record {
  code = lit "HOLD_LARGE_VALUE";
  severity = Severity.hold;
  message =
      lit "Moving "
      ++ show_ℤ total
      ++ lit " wei is at or above the review threshold of "
      ++ show_ℤ threshold
      ++ lit ".";
  detail = (lit "value", text (show_ℤ total)) ∷ (lit "threshold", text (show_ℤ threshold)) ∷ [];
}

unfoldable pub hold_on_large_value : Rule
unfolding large_reason
hold_on_large_value intent policy ctx = do
  total ← sum_values intent.calls
  threshold ← big policy.hold_above.native_value
  if ltb_ℤ total threshold then some [] else some (large_reason total threshold ∷ [])

unfoldable pub unknown_reason : ℕ → Call → Reason
unknown_reason index call = record {
  code = lit "HOLD_UNKNOWN_COUNTERPARTY";
  severity = Severity.hold;
  message = lit "First interaction with " ++ call.target ++ lit ".";
  detail = (lit "index", num index) ∷ (lit "target", text call.target) ∷ [];
}

-- The `flatMap` that adds to `seen` as it goes.
unfoldable pub unknown_from : List Text → List Text → ℕ → List Call → List Reason
unfolding unknown_reason
unknown_from known seen index [] = []
unknown_from known seen index (c ∷ cs) =
    let skipped = unknown_from known seen (index + 1) cs in
    let added =
      unknown_reason index c ∷ unknown_from known (lower c.target ∷ seen) (index + 1) cs in
    if mem_text (lower c.target) known || mem_text (lower c.target) seen then skipped else added

unfoldable pub hold_on_unknown_counterparty : Rule
unfolding unknown_from
hold_on_unknown_counterparty intent policy ctx =
    if policy.hold_above.unknown_counterparty
    then some (unknown_from (map lower ctx.known_counterparties) [] 0 intent.calls)
    else some []

abbrev pub all_rules : List Rule
all_rules =
    chain_allowed ∷ target_allowlist ∷ selector_allowlist ∷ value_cap ∷ windowed_limits
    ∷ schedule_window ∷ approval_bound ∷ gas_ceiling ∷ invariants_required ∷ hold_on_large_value
    ∷ hold_on_unknown_counterparty ∷ []
