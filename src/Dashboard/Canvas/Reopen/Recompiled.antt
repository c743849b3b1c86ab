-- ===== src/Dashboard/Canvas/Reopen/Recompiled.antt =====
-- A policy that is opened by policy-to-blocks.ts and compiled again by compile.ts.
use kp.Common.{◌≡◌, refl, ℕ, suc, true, false, Option, none, List, [], ◌∷◌, Text, All, All-append}
use kp.Policy.Types.{Policy}
use kp.Policy.Schema.{PolicyDocument, is_present}
use kp.Dashboard.Canvas.Blocks.{BlockKind, same_kind}
use kp.Dashboard.Canvas.Compile.{Values, first, document}
use kp.Dashboard.Canvas.Reopen.{
  number_from, place_targets, place_functions, place_selectors, placed_of, policy_to_blocks,
}

-- Not a block of the schedule.
abbrev IsOther : BlockKind × Values → Type 0
IsOther placed = same_kind placed.0 BlockKind.schedule ≡ false

place_targets-AreOther : (allow : List Text) → All IsOther (place_targets allow)
unfolding place_targets same_kind
place_targets-AreOther [] = tt
place_targets-AreOther (a ∷ allow) = (refl, place_targets-AreOther allow)

place_functions-AreOther :
    (address : Text) (codes : List Text) → All IsOther (place_functions address codes)
unfolding place_functions same_kind
place_functions-AreOther address [] = tt
place_functions-AreOther address (c ∷ codes) = (refl, place_functions-AreOther address codes)

place_selectors-AreOther :
    (entries : List (Text × List Text)) → All IsOther (place_selectors entries)
unfolding place_selectors
place_selectors-AreOther [] = tt
place_selectors-AreOther ((address, codes) ∷ entries) =
    All-append IsOther (place_functions address codes) (place_selectors entries)
      (place_functions-AreOther address codes) (place_selectors-AreOther entries)

placed_of-AreOther : (policy : Policy) → All IsOther (placed_of policy)
unfolding placed_of same_kind
placed_of-AreOther policy =
    All-append IsOther (place_targets policy.targets.allow) _
      (place_targets-AreOther policy.targets.allow)
      (All-append IsOther (place_selectors policy.targets.selectors) _
        (place_selectors-AreOther policy.targets.selectors) (refl, (refl, (refl, (refl, tt)))))

first-other :
    (counter : ℕ) (placed : List (BlockKind × Values))
    → All IsOther placed
    → first (number_from counter placed) BlockKind.schedule ≡ none
unfolding first number_from
first-other counter [] h = refl
first-other counter ((kind, values) ∷ placed) (o, h) = rw o (first-other (suc counter) placed h)

-- The policy opened in the canvas, and compiled under a name.
abbrev pub recompiled : ℕ → Policy → Option Text → PolicyDocument
recompiled counter policy name =
    document (policy_to_blocks counter policy).blocks
      (record { carry_over = (policy_to_blocks counter policy).carry_over; name = name })

-- A policy with a chain that is opened in the canvas and compiled again keeps its chains, its gas limit,
-- its flag on unknown counterparties and its number of invariants; and whatever its schedule was, the
-- result has none.
pub recompiled_lem :
    (counter : ℕ) (policy : Policy) (name : Option Text)
    → is_present policy.chains ≡ true
    → ((recompiled counter policy name).chains ≡ policy.chains)
      × ((recompiled counter policy name).max_gas ≡ policy.limits.max_gas)
      × ((recompiled counter policy name).unknown_counterparty
          ≡ policy.hold_above.unknown_counterparty)
      × ((recompiled counter policy name).min_invariants ≡ policy.min_invariants)
      × ((recompiled counter policy name).schedule ≡ none)
unfolding policy_to_blocks document
recompiled_lem counter policy name chains =
    let none_placed = first-other counter (placed_of policy) (placed_of-AreOther policy) in
    (rw chains refl, refl, refl, refl, rw none_placed refl)
