-- ===== src/KeeperHub/Reason.antt =====
-- packages/keeperhub/src/reason.ts: the guard's revert reasons, `NOYEET/1:` and fields between
-- colons.
pub mod Plain
pub mod Printed
mod Tests
use mathlib.Core.Option
use kp.Common.{
  ◌>>=◌, ℕ, ◌^◌, Option, none, some, List, [], ◌∷◌, ◌++◌, Text, lit, text_eq, ltb, ◌==◌,
  if◌then◌else◌, get_elem?,
}
use kp.Common.Numbers.{trim, read_digits, show_ℕ}

pub data GuardDenial : Type 0 where
  invariant : ℕ → ℕ → ℕ → GuardDenial
  probe_failed : ℕ → GuardDenial
  probe_short : ℕ → ℕ → ℕ → GuardDenial
  not_executor not_admin reentrant call_failed : GuardDenial

unfoldable pub reason_prefix : Text
reason_prefix = lit "NOYEET/1:"

-- `text.slice(prefix.length)` where `text.startsWith(prefix)`.
unfoldable pub drop_prefix : Text → Text → Option Text
drop_prefix [] s = some s
drop_prefix (_ ∷ _) [] = none
drop_prefix (a ∷ p) (c ∷ s) = let rest = drop_prefix p s in if a == c then rest else none

-- What follows the first occurrence, by `indexOf` and `slice`.
unfoldable pub after : Text → Text → Option Text
unfolding drop_prefix
after p [] = drop_prefix p []
after p (c ∷ s) =
    let rest = after p s in elim (drop_prefix p (c ∷ s)) [ some found ↦ some found | none ↦ rest ]

-- The text without its last unit, where that is `last`.
unfoldable pub drop_last : ℕ → Text → Option Text
drop_last last [] = none
drop_last last (c ∷ []) = if c == last then some [] else none
drop_last last (c ∷ d ∷ s) = Option.map (λ rest. c ∷ rest) (drop_last last (d ∷ s))

-- The group of `/^Error\((.*)\)$/s`.
unfoldable pub unwrap_error : Text → Option Text
unfolding drop_prefix drop_last
unwrap_error s = do rest ← drop_prefix (lit "Error(") s; drop_last b')' rest

-- The wrapped text, if it is wrapped and starts with the prefix.
wrapped_payload : Text → Option Text
unfolding unwrap_error
wrapped_payload s = do inner ← unwrap_error s; drop_prefix reason_prefix (trim inner)

unfoldable pub extract_payload : Text → Option Text
unfolding wrapped_payload
extract_payload reason = elim (drop_prefix reason_prefix (trim reason)) [
  | some payload ↦ some payload
  | none ↦ elim (wrapped_payload (trim reason)) [
    | some payload ↦ some payload
    | none ↦ after reason_prefix (trim reason)
  ]
]

-- `payload.split(":")`: the first field and the others.
unfoldable pub split_colons : Text → Text × List Text
split_colons [] = ([], [])
split_colons (c ∷ s) =
    let (first, others) = split_colons s in
    if c == b':' then ([], first ∷ others) else (c ∷ first, others)

unfoldable pub to_big : Option Text → Option ℕ
to_big none = none
to_big (some s) = read_digits 10 s

unfoldable pub to_index : Option Text → Option ℕ
unfolding to_big
to_index s = do n ← to_big s; if ltb n (2 ^ 53) then some n else none

unfoldable pub read_invariant : List Text → Option GuardDenial
unfolding to_index to_big
read_invariant fields = do
  index ← to_index (get_elem? fields 0)
  got ← to_big (get_elem? fields 1)
  want ← to_big (get_elem? fields 2)
  some (invariant index got want)

unfoldable pub read_probe_short : List Text → Option GuardDenial
unfolding to_index
read_probe_short fields = do
  index ← to_index (get_elem? fields 0)
  length ← to_index (get_elem? fields 1)
  needed ← to_index (get_elem? fields 2)
  some (probe_short index length needed)

unfoldable pub read_payload : Text × List Text → Option GuardDenial
unfolding read_invariant read_probe_short
read_payload (kind, fields) =
    if text_eq kind (lit "INV")
    then read_invariant fields
    else if text_eq kind (lit "PROBE_FAILED")
    then Option.map probe_failed (to_index (get_elem? fields 0))
    else if text_eq kind (lit "PROBE_SHORT")
    then read_probe_short fields
    else if text_eq kind (lit "NOT_EXECUTOR")
    then some not_executor
    else if text_eq kind (lit "NOT_ADMIN")
    then some not_admin
    else if text_eq kind (lit "REENTRANT")
    then some reentrant
    else if text_eq kind (lit "CALL_FAILED")
    then some call_failed
    else none

unfoldable pub parse_guard_denial : Option Text → Option GuardDenial
unfolding extract_payload split_colons read_payload
parse_guard_denial none = none
parse_guard_denial (some reason) = do
  payload ← extract_payload reason
  read_payload (split_colons payload)

unfoldable pub describe_denial : GuardDenial → Text
describe_denial (invariant index got want) =
    lit "Invariant "
    ++ show_ℕ index
    ++ lit " would break: got "
    ++ show_ℕ got
    ++ lit ", required "
    ++ show_ℕ want
    ++ lit "."
describe_denial (probe_failed index) =
    lit "Invariant " ++ show_ℕ index ++ lit " could not be read: the probe call reverted."
describe_denial (probe_short index length needed) =
    lit "Invariant "
    ++ show_ℕ index
    ++ lit " read "
    ++ show_ℕ length
    ++ lit " bytes but needs "
    ++ show_ℕ needed
    ++ lit "; the word index is out of range."
describe_denial not_executor = lit "The sending wallet is not an approved executor on this guard."
describe_denial not_admin = lit "Only the guard admin may rotate executors."
describe_denial reentrant = lit "Re-entrant call into the guard was rejected."
describe_denial call_failed = lit "An inner call failed without returning a reason."
