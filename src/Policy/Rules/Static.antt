-- ===== src/Policy/Rules/Static.antt =====
-- packages/policy/src/rules.ts: the rules on the chain, the targets, the selectors and the value.
use kp.Common.{
  ◌>>=◌, ℕ, Bool, true, false, ◌||◌, Option, none, some, List, [], ◌∷◌, ◌++◌, map, Text, lit, lower,
  mem_text, ◌==◌, if◌then◌else◌,
}
use kp.Common.Int.{ℤ, leb_ℤ}
use kp.Common.Numbers.{big, show_ℕ, show_ℤ}
use kp.Policy.Types.{Severity, text, num, Reason, Call}
use kp.Policy.Rules.Calls.{Rule, selector_of, sum_values, flat_map_calls, join_comma, lookup}

unfoldable pub mem_number : ℕ → List ℕ → Bool
mem_number n [] = false
mem_number n (m ∷ ms) = n == m || mem_number n ms

unfoldable pub chain_allowed : Rule
unfolding mem_number
chain_allowed intent policy ctx =
    if mem_number intent.chain_id policy.chains
    then some []
    else some (
        record {
          code = lit "CHAIN_NOT_ALLOWED";
          severity = Severity.deny;
          message = lit "Chain " ++ show_ℕ intent.chain_id ++ lit " is not in this policy.";
          detail =
              (lit "chainId", num intent.chain_id)
              ∷ (lit "allowed", text (join_comma (map show_ℕ policy.chains)))
              ∷ [];
        }
        ∷ [])

unfoldable pub target_reason : ℕ → Call → Reason
target_reason index call = record {
  code = lit "TARGET_NOT_ALLOWED";
  severity = Severity.deny;
  message =
      lit "Call "
      ++ show_ℕ index
      ++ lit " targets "
      ++ call.target
      ++ lit ", which is not allowlisted.";
  detail = (lit "index", num index) ∷ (lit "target", text call.target) ∷ [];
}

unfoldable pub check_target : List Text → ℕ → Call → Option (List Reason)
unfolding target_reason
check_target allowed index call =
    if mem_text (lower call.target) allowed then some [] else some (target_reason index call ∷ [])

unfoldable pub target_allowlist : Rule
unfolding check_target
target_allowlist intent policy ctx =
    flat_map_calls (check_target (map lower policy.targets.allow)) 0 intent.calls

-- `selectors[lower(target)] ?? selectors[target]`
unfoldable pub selector_entry : List (Text × List Text) → Text → Option (List Text)
unfolding lookup
selector_entry selectors target = elim (lookup (lower target) selectors) [
  | some entry ↦ some entry
  | none ↦ lookup target selectors
]

-- What every object inherits from `Object.prototype`.
abbrev inherited : List Text
inherited =
    lit "constructor"
    ∷ lit "toString"
    ∷ lit "toLocaleString"
    ∷ lit "valueOf"
    ∷ lit "hasOwnProperty"
    ∷ lit "isPrototypeOf"
    ∷ lit "propertyIsEnumerable"
    ∷ lit "__proto__"
    ∷ lit "__defineGetter__"
    ∷ lit "__defineSetter__"
    ∷ lit "__lookupGetter__"
    ∷ lit "__lookupSetter__"
    ∷ []

-- Whether the lookup finds a member that is inherited: it has no `includes`, so that the rule throws.
unfoldable pub selector_throws : List (Text × List Text) → Text → Bool
unfolding lookup mem_text
selector_throws selectors target = elim (lookup (lower target) selectors) [
  | some entry ↦ false
  | none ↦
      mem_text (lower target) inherited
      || (elim (lookup target selectors) [ some entry ↦ false | none ↦ mem_text target inherited ])
]

unfoldable pub selector_reason : ℕ → Call → Reason
selector_reason index call = record {
  code = lit "SELECTOR_NOT_ALLOWED";
  severity = Severity.deny;
  message =
      lit "Call "
      ++ show_ℕ index
      ++ lit " uses selector "
      ++ selector_of call.calldata
      ++ lit ", which is not permitted on "
      ++ call.target
      ++ lit ".";
  detail =
      (lit "index", num index)
      ∷ (lit "selector", text (selector_of call.calldata))
      ∷ (lit "target", text call.target)
      ∷ [];
}

-- The test that a target's entry puts a call to.
unfoldable pub selector_passes : Option (List Text) → Call → Bool
selector_passes none call = true
selector_passes (some entry) call =
    mem_text (lit "*") entry || mem_text (selector_of call.calldata) (map lower entry)

unfoldable pub check_selector : List (Text × List Text) → ℕ → Call → Option (List Reason)
unfolding selector_reason selector_passes selector_throws
check_selector selectors index call =
    if selector_throws selectors call.target
    then none
    else if selector_passes (selector_entry selectors call.target) call
    then some []
    else some (selector_reason index call ∷ [])

unfoldable pub selector_allowlist : Rule
unfolding check_selector
selector_allowlist intent policy ctx =
    flat_map_calls (check_selector policy.targets.selectors) 0 intent.calls

unfoldable pub value_reason : ℤ → ℤ → Reason
value_reason total cap = record {
  code = lit "VALUE_CAP_EXCEEDED";
  severity = Severity.deny;
  message =
      lit "Intent moves "
      ++ show_ℤ total
      ++ lit " wei, above the per-intent cap of "
      ++ show_ℤ cap
      ++ lit ".";
  detail = (lit "value", text (show_ℤ total)) ∷ (lit "cap", text (show_ℤ cap)) ∷ [];
}

unfoldable pub value_cap : Rule
unfolding value_reason
value_cap intent policy ctx = do
  total ← sum_values intent.calls
  cap ← big policy.limits.max_native_value_per_intent
  if leb_ℤ total cap then some [] else some (value_reason total cap ∷ [])
