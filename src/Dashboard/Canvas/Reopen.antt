-- ===== src/Dashboard/Canvas/Reopen.antt =====
-- apps/dashboard/lib/canvas/policy-to-blocks.ts, on a policy that the schema has accepted. Where a block
-- is drawn is left out, and of the fields that are reported as unmapped the paths are kept.
mod Recompiled
mod Tests
use kp.Common.{ℕ, suc, Option, none, some, List, [], ◌∷◌, ◌++◌, map, Text, lit, if◌then◌else◌}
use kp.Common.Maps.{store}
use kp.Common.Numbers.{show_ℕ}
use kp.Policy.Types.{Policy}
use kp.Policy.Schema.{is_present}
use kp.Dashboard.Canvas.Blocks.{BlockKind, BlockField, spec_for}
use kp.Dashboard.Canvas.Compile.{Values, PlacedBlock, CarryOver}

pub record PolicyToBlocks : Type 0 where
  pub blocks : List PlacedBlock
  pub unmapped : List Text
  pub carry_over : CarryOver

abbrev pub kind_name : BlockKind → Text
kind_name BlockKind.target = lit "target"
kind_name BlockKind.selector = lit "selector"
kind_name BlockKind.value_cap = lit "valueCap"
kind_name BlockKind.approval_bound = lit "approvalBound"
kind_name BlockKind.rate_limit = lit "rateLimit"
kind_name BlockKind.schedule = lit "schedule"
kind_name BlockKind.hold_above = lit "holdAbove"
kind_name BlockKind.invariant_floor = lit "invariantFloor"
kind_name BlockKind.invariant_drop = lit "invariantDrop"

abbrev pub initial_of : List BlockField → Values
initial_of [] = []
initial_of (f ∷ fields) = (f.key, f.initial) ∷ initial_of fields

unfoldable pub initial_values : BlockKind → Values
initial_values kind = initial_of (spec_for kind).fields

-- `{ ...initial, ...values }`
unfoldable pub spread : Values → Values → Values
spread initial [] = initial
spread initial ((k, v) ∷ values) = spread (store k v initial) values

-- `block(kind, values, x, y)`, with the counter after `nextId`.
unfoldable pub block : ℕ → BlockKind → Values → PlacedBlock
unfolding initial_values spread
block counter kind values = record {
  id = kind_name kind ++ (lit "-" ++ show_ℕ counter);
  kind = kind;
  values = spread (initial_values kind) values;
}

-- The blocks to place, in order.
unfoldable pub number_from : ℕ → List (BlockKind × Values) → List PlacedBlock
unfolding block
number_from counter [] = []
number_from counter ((kind, values) ∷ placed) =
    block (suc counter) kind values ∷ number_from (suc counter) placed

unfoldable pub place_targets : List Text → List (BlockKind × Values)
place_targets [] = []
place_targets (address ∷ allow) =
    (BlockKind.target, (lit "address", address) ∷ []) ∷ place_targets allow

unfoldable pub place_functions : Text → List Text → List (BlockKind × Values)
place_functions address [] = []
place_functions address (code ∷ codes) =
    (BlockKind.selector, (lit "address", address) ∷ (lit "selector", code) ∷ [])
    ∷ place_functions address codes

unfoldable pub place_selectors : List (Text × List Text) → List (BlockKind × Values)
unfolding place_functions
place_selectors [] = []
place_selectors ((address, codes) ∷ entries) =
    place_functions address codes ++ place_selectors entries

unfoldable pub placed_of : Policy → List (BlockKind × Values)
unfolding place_targets place_selectors
placed_of policy =
    place_targets policy.targets.allow
    ++ (place_selectors policy.targets.selectors
        ++ ((
          BlockKind.value_cap,
          (lit "maxPerIntent", policy.limits.max_native_value_per_intent) ∷ [],
        )
            ∷ (
              BlockKind.rate_limit,
              (lit "maxValue", policy.limits.max_native_value_per_window)
                  ∷ (lit "windowSeconds", show_ℕ policy.limits.window_seconds)
                  ∷ (lit "maxIntents", show_ℕ policy.limits.max_intents_per_window)
                  ∷ [],
            )
            ∷ (BlockKind.approval_bound, (lit "maxApproval", policy.max_approval) ∷ [])
            ∷ (BlockKind.hold_above, (lit "nativeValue", policy.hold_above.native_value) ∷ [])
            ∷ []))

unfoldable pub policy_to_blocks : ℕ → Policy → PolicyToBlocks
unfolding number_from placed_of
policy_to_blocks counter policy = record {
  blocks = number_from counter (placed_of policy);
  unmapped =
      (if is_present policy.chains then [] else lit "chains" ∷ [])
      ++ (lit "limits.maxGas" ∷ lit "holdAbove.unknownCounterparty" ∷ lit "minInvariants" ∷ []);
  carry_over = record {
    chains = if is_present policy.chains then some policy.chains else none;
    max_gas = some policy.limits.max_gas;
    unknown_counterparty = some policy.hold_above.unknown_counterparty;
    min_invariants = some policy.min_invariants;
  };
}
