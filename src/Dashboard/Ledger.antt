-- ===== src/Dashboard/Ledger.antt =====
-- apps/dashboard/lib/holds-ledger.ts: the holds of one process. `listHolds`, which sorts them for the
-- page, is left out.
use kp.Common.{ℕ, Option, none, some, List, Text, if◌then◌else◌}
use kp.Common.Maps.{lookup, store}
use kp.Policy.Types.{Call, Invariant}
use kp.Receipts.Receipt.{ReceiptReason}
use kp.Gateway.Holds.{HoldStatus, held, released, cancelled, is_held}

pub record HeldIntent : Type 0 where
  pub intent_id : Text
  pub chain_id : ℕ
  pub calls : List Call
  pub invariants : List Invariant

pub record HoldRecord : Type 0 where
  pub hold_id : Text
  pub intent_id : Text
  pub reasons : List ReceiptReason
  pub digest : Text
  pub intent : HeldIntent
  pub status : HoldStatus
  pub at : Text
  pub released_at : Option Text

abbrev pub Holds : Type 0
Holds = List (Text × HoldRecord)

unfoldable pub create_hold :
    Text → Text → List ReceiptReason → Text → HeldIntent → Text → Holds → Holds × HoldRecord
create_hold hold_id intent_id reasons digest intent at holds =
    let full : HoldRecord = record {
      hold_id = hold_id;
      intent_id = intent_id;
      reasons = reasons;
      digest = digest;
      intent = intent;
      status = held;
      at = at;
      released_at = none;
    } in
    (store hold_id full holds, full)

unfoldable pub get_hold : Text → Holds → Option HoldRecord
get_hold hold_id holds = lookup hold_id holds

-- The two ways to resolve a hold, with the new status.
unfoldable pub resolve_hold : HoldStatus → Text → Text → Holds → Holds × Option HoldRecord
resolve_hold status now hold_id holds = elim (lookup hold_id holds) [
  | none ↦ (holds, none)
  | some old ↦
      let updated = record old { status = status; released_at = some now } in
      if is_held old.status then (store hold_id updated holds, some updated) else (holds, none)
]

unfoldable pub release_hold : Text → Text → Holds → Holds × Option HoldRecord
unfolding resolve_hold
release_hold now hold_id holds = resolve_hold released now hold_id holds

unfoldable pub cancel_hold : Text → Text → Holds → Holds × Option HoldRecord
unfolding resolve_hold
cancel_hold now hold_id holds = resolve_hold cancelled now hold_id holds
