-- ===== src/Policy/Permits.antt =====
-- A specification of what a policy of packages/policy permits, said without the rules.
pub mod Calls
pub mod Rules
pub mod Limits
pub mod Allowed
mod Tests
use kp.Common.{
  ℕ, ◌+◌, ◌≤◌, ◌<◌, ◌≡◌, ◌⊎◌, true, false, Option, none, some, List, map, Text, lit, lower, length,
  select, All, OneOf,
}
use kp.Common.Int.{ℤ, ◌+ℤ◌, ◌≤ℤ◌, ltb_ℤ}
use kp.Common.Numbers.{big}
use kp.Policy.Types.{Call, Intent, HistoryEntry, EvalContext, Policy}
use kp.Policy.Rules.Calls.{selector_of, sum_values, approval_amount}
use kp.Policy.Rules.Static.{selector_entry, selector_throws}
use kp.Policy.Rules.Limits.{counts, spent_from, utc_hour}

-- Both texts are integers, the first at most the second.
abbrev pub AtMost : Option ℤ → Option ℤ → Type 0
AtMost m n = (a b : ℤ) × (m ≡ some a) × (n ≡ some b) × (a ≤ℤ b)

-- A target without an entry may be called with any selector.
abbrev pub MaySelect : Option (List Text) → Call → Type 0
MaySelect none call = Unit
MaySelect (some entry) call =
    OneOf (lit "*") entry ⊎ OneOf (selector_of call.calldata) (map lower entry)

-- The lookup of the target's entry does not throw, and the entry lets the call pass.
abbrev pub MayCall : List (Text × List Text) → Call → Type 0
MayCall selectors call =
    (selector_throws selectors call.target ≡ false)
    × MaySelect (selector_entry selectors call.target) call

-- From `start` up to `end`, over midnight if `end` is the smaller.
abbrev pub IsWithin : ℕ → ℕ → ℕ → Type 0
IsWithin start end hour =
    ((start ≤ end) × (start ≤ hour) × (hour < end))
    ⊎ ((end < start) × ((start ≤ hour) ⊎ (hour < end)))

-- What calldata that may approve an amount needs.
abbrev pub MayApprove : Text → Option (Option ℤ) → Type 0
MayApprove cap none = ⊥
MayApprove cap (some none) = Unit
MayApprove cap (some (some amount)) = (b : ℤ) × (big cap ≡ some b) × (amount ≤ℤ b)

abbrev pub recent : Policy → EvalContext → List HistoryEntry
recent p c = select (counts c.now p.limits.window_seconds) c.history

pub record Permits (i : Intent) (p : Policy) (c : EvalContext) : Type 0 where
  pub chain : OneOf i.chain_id p.chains
  pub targets : All (λ (call : Call). OneOf (lower call.target) (map lower p.targets.allow)) i.calls
  pub selectors : All (λ (call : Call). MayCall p.targets.selectors call) i.calls
  pub value : AtMost (sum_values i.calls) (big p.limits.max_native_value_per_intent)
  pub rate : length (recent p c) + 1 ≤ p.limits.max_intents_per_window
  pub spend :
      (spent total cap : ℤ) × (spent_from (ℤ.pos 0) (recent p c) ≡ some spent)
      × (sum_values i.calls ≡ some total)
      × (big p.limits.max_native_value_per_window ≡ some cap)
      × (spent +ℤ total ≤ℤ cap)
  pub hours : (start end : ℕ) → p.schedule ≡ some (start, end) → IsWithin start end (utc_hour c.now)
  pub approvals :
      All (λ (call : Call). MayApprove p.max_approval (approval_amount call.calldata)) i.calls
  pub gas : (g : Text) → c.gas_estimate ≡ some g → AtMost (big g) (big p.limits.max_gas)
  pub invariants : p.min_invariants ≤ length i.invariants
  pub below_review :
      (total threshold : ℤ) × (sum_values i.calls ≡ some total)
      × (big p.hold_above.native_value ≡ some threshold)
      × (ltb_ℤ total threshold ≡ true)
  pub known :
      p.hold_above.unknown_counterparty ≡ true
      → All (λ (call : Call). OneOf (lower call.target) (map lower c.known_counterparties)) i.calls
