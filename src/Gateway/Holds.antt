-- ===== src/Gateway/Holds.antt =====
-- apps/gateway/src/holds.ts: the ledger of decisions that wait for a human. The `Map` is the list
-- of its records in the order of insertion. The id that `newId` gives and the time are arguments.
pub mod Once
use kp.Common.{
  ℕ, Bool, true, false, Option, none, some, List, [], ◌∷◌, Text, text_eq, if◌then◌else◌,
}
use kp.Policy.Types.{Intent}
use kp.Receipts.Receipt.{Receipt}

pub data HoldStatus : Type 0 where
  held released cancelled : HoldStatus

pub data Resolution : Type 0 where
  release cancel : Resolution

abbrev pub status_of : Resolution → HoldStatus
status_of release = released
status_of cancel = cancelled

abbrev pub is_held : HoldStatus → Bool
is_held held = true
is_held _ = false

pub record HoldRecord : Type 0 where
  pub hold_id : Text
  pub intent : Intent
  pub idempotency_key : Text
  pub receipt : Receipt
  pub digest : Text
  pub status : HoldStatus
  pub at : Text
  pub resolved_at : Option Text

abbrev pub Ledger : Type 0
Ledger = List HoldRecord

-- `records.set(record.holdId, record)`
unfoldable pub set : HoldRecord → Ledger → Ledger
set r [] = r ∷ []
set r (s ∷ ledger) =
    let later = set r ledger in if text_eq r.hold_id s.hold_id then r ∷ ledger else s ∷ later

unfoldable pub create : Text → Text → Intent → Text → Receipt → Text → Ledger → Ledger × HoldRecord
unfolding set
create id at intent key receipt digest ledger =
    let r : HoldRecord = record {
      hold_id = id;
      intent = intent;
      idempotency_key = key;
      receipt = receipt;
      digest = digest;
      status = held;
      at = at;
      resolved_at = none;
    } in
    (set r ledger, r)

unfoldable pub get : Text → Ledger → Option HoldRecord
get id [] = none
get id (r ∷ ledger) = let later = get id ledger in if text_eq id r.hold_id then some r else later

-- `none` where the hold does not exist or is resolved.
unfoldable pub resolve : Text → Resolution → Text → Ledger → Ledger × Option HoldRecord
unfolding set get
resolve id resolution at ledger = elim (get id ledger) [
  | none ↦ (ledger, none)
  | some r ↦
      let resolved : HoldRecord = record r {
        status = status_of resolution;
        resolved_at = some at;
      } in
      if is_held r.status then (set resolved ledger, some resolved) else (ledger, none)
]
