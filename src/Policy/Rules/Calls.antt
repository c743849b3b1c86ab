-- ===== src/Policy/Rules/Calls.antt =====
-- packages/policy/src/rules.ts: what the rules share.
-- `BigInt` throws on text that is no integer, so a rule's result is an `Option`: `none` is the
-- throw, which ends `evaluate` too.
use kp.Common.{
  ◌>>=◌, ℕ, ◌+◌, not, Option, none, some, List, [], ◌∷◌, ◌++◌, Text, lit, lower, text_eq, leb, ltb,
  if◌then◌else◌, length, take, drop,
}
use kp.Common.Int.{ℤ, pos, ◌+ℤ◌}
use kp.Common.Numbers.{big}
use kp.Policy.Types.{Reason, Call, Intent, EvalContext, Policy}

abbrev pub Rule : Type 0
Rule = Intent → Policy → EvalContext → Option (List Reason)

abbrev pub erc20_approve : Text
erc20_approve = lit "0x095ea7b3"

unfoldable pub selector_of : Text → Text
selector_of calldata = if leb 10 (length calldata) then lower (take 10 calldata) else lit "0x"

-- `calls.reduce((acc, c) => acc + big(c.value), 0n)`, from any start
unfoldable pub sum_from : ℤ → List Call → Option ℤ
sum_from acc [] = some acc
sum_from acc (c ∷ cs) = do v ← big c.value; sum_from (acc +ℤ v) cs

unfoldable pub sum_values : List Call → Option ℤ
unfolding sum_from
sum_values calls = sum_from (pos 0) calls

-- The outer `none` is a throw, the inner one the source's `null`.
unfoldable pub approval_amount : Text → Option (Option ℤ)
unfolding selector_of
approval_amount calldata =
    if not (text_eq (selector_of calldata) erc20_approve)
    then some none
    else if ltb (length calldata) 138
    then some none
    else do amount ← big (lit "0x" ++ take 64 (drop 74 calldata)); some (some amount)

-- `array.join(",")`
abbrev pub join_comma : List Text → Text
join_comma [] = []
join_comma (t ∷ []) = t
join_comma (t ∷ u ∷ ts) = t ++ b',' ∷ join_comma (u ∷ ts)

-- `calls.flatMap((call, index) => …)`, from any index
unfoldable pub flat_map_calls :
    (ℕ → Call → Option (List Reason)) → ℕ → List Call → Option (List Reason)
flat_map_calls f index [] = some []
flat_map_calls f index (c ∷ cs) = do
  here ← f index c
  rest ← flat_map_calls f (index + 1) cs
  some (here ++ rest)

-- `object[key]`
unfoldable pub lookup {ℓ} : {A : Type ℓ} → Text → List (Text × A) → Option A
lookup key [] = none
lookup key ((k, v) ∷ rest) = if text_eq key k then some v else lookup key rest
