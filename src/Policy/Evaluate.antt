-- ===== src/Policy/Evaluate.antt =====
-- packages/policy/src/evaluate.ts: the decision on an intent, DENY over HOLD over ALLOW.
pub mod Sorting
pub mod Verdicts
use kp.Common.{
  ◌>>=◌, ℕ, Bool, true, false, ◌||◌, Option, none, some, List, [], ◌∷◌, ◌++◌, if◌then◌else◌, any,
}
use kp.Common.Int.{ℤ, pos, negsuc, leb_ℤ}
use kp.Policy.Types.{Verdict, Severity, Reason, Intent, EvalContext, Policy, Decision}
use kp.Policy.Rules.Calls.{Rule}
use kp.Policy.Rules.Holds.{all_rules}

abbrev pub is_deny : Severity → Bool
is_deny Severity.deny = true
is_deny Severity.hold = false

abbrev pub is_hold : Severity → Bool
is_hold Severity.deny = false
is_hold Severity.hold = true

-- `a === b` on severities.
abbrev pub same_severity : Severity → Severity → Bool
same_severity Severity.deny b = is_deny b
same_severity Severity.hold b = is_hold b

-- The loop that collects the reasons of every rule.
unfoldable pub collect : List Rule → Intent → Policy → EvalContext → Option (List Reason)
collect [] intent policy ctx = some []
collect (rule ∷ rules) intent policy ctx = do
  raised ← rule intent policy ctx
  rest ← collect rules intent policy ctx
  some (raised ++ rest)

unfoldable pub verdict_of : List Reason → Verdict
verdict_of reasons =
    if any (λ r. is_deny r.severity) reasons
    then Verdict.deny
    else if any (λ r. is_hold r.severity) reasons
    then Verdict.hold
    else Verdict.allow

-- The comparator that is given to `sort`.
unfoldable pub compare_reasons : Reason → Reason → ℤ
compare_reasons a b =
    if same_severity a.severity b.severity
    then pos 0
    else if is_deny a.severity
    then negsuc 0
    else pos 1

-- `Array.prototype.sort`, which is stable: an element goes in front of the first that does not
-- compare below it.
module _ {ℓ} {A : Type ℓ} (cmp : A → A → ℤ) where
  unfoldable pub insert_stable : A → List A → List A
  insert_stable x [] = x ∷ []
  insert_stable x (y ∷ ys) =
      let later = insert_stable x ys in if leb_ℤ (cmp x y) (pos 0) then x ∷ y ∷ ys else y ∷ later

  unfoldable pub sort_stable : List A → List A
  unfolding insert_stable
  sort_stable [] = []
  sort_stable (x ∷ xs) = insert_stable x (sort_stable xs)

unfoldable pub decide : List Reason → Decision
unfolding verdict_of sort_stable compare_reasons
decide reasons = record {
  verdict = verdict_of reasons;
  reasons = sort_stable compare_reasons reasons;
}

-- `none` is an error thrown by a rule.
unfoldable pub evaluate : Intent → Policy → EvalContext → List Rule → Option Decision
unfolding collect decide
evaluate intent policy ctx rules = do
  reasons ← collect rules intent policy ctx
  some (decide reasons)
