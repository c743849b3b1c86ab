-- ===== src/Policy/Negative.antt =====
-- The sum of values in packages/policy/src/rules.ts where a value has a sign, which `BigInt` reads.
use kp.Common.{ℕ, ◌+◌, ◌≡◌, some, [], ◌∷◌, arith}
use kp.Common.Int.{pos, ◌+ℤ◌, le→leb_ℤ}
use kp.Common.Numbers.{big, negate}
use kp.Policy.Types.{Call, Intent, EvalContext, Policy}
use kp.Policy.Rules.Calls.{sum_values}
use kp.Policy.Rules.Static.{value_cap}

sum_offset :
    (cap excess : ℕ) (a b : Call)
    → big a.value ≡ some (pos (cap + excess))
    → big b.value ≡ some (negate excess)
    → sum_values (a ∷ b ∷ []) ≡ some (pos cap)
unfolding sum_values ◌+ℤ◌
sum_offset cap excess a b p q = rw (p, q) (offset cap excess)
  where
    offset : (c e : ℕ) → some (pos 0 +ℤ pos (c + e) +ℤ negate e) ≡ some (pos c)
    offset c e = ground arith

-- A call that moves more than the per-intent cap passes the value rule beside a call whose value
-- is the excess with a minus sign, whatever the cap and the excess.
pub value_cap-offset :
    (i : Intent) (p : Policy) (c : EvalContext) (cap excess : ℕ) (a b : Call)
    → i.calls ≡ a ∷ b ∷ []
    → big p.limits.max_native_value_per_intent ≡ some (pos cap)
    → big a.value ≡ some (pos (cap + excess))
    → big b.value ≡ some (negate excess)
    → value_cap i p c ≡ some []
unfolding value_cap
value_cap-offset i p c cap excess a b calls limit over under =
    rw (calls, sum_offset cap excess a b over under, limit)
      (rw (le→leb_ℤ (pos cap) (pos cap) (omega arith)))
