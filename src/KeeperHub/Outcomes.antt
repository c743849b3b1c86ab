-- ===== src/KeeperHub/Outcomes.antt =====
-- packages/keeperhub/src/client.ts: what the client reads from the bodies of responses.
use mathlib.Core.Option
use kp.Common.{ℕ, Bool, Option, none, some, List, [], ◌∷◌, Text, lit, mem_text}
use kp.KeeperHub.Json.{Json, arr, Items, nil, cons, get, as_text, as_number, is_true}
use kp.KeeperHub.Reason.{GuardDenial, parse_guard_denial}

pub record ContractCallRequest : Type 0 where
  pub chain_id : ℕ
  pub contract_address : Text
  pub function_name : Text
  pub function_args : Option Text
  pub abi : Option Text
  pub value : Option Text

pub record SimulationOutcome : Type 0 where
  pub would_revert : Bool
  pub failure_kind : Option Text
  pub revert_reason : Option Text
  pub code : Option Text
  pub denial : Option GuardDenial
  pub raw : Json

pub record ExecutionAccepted : Type 0 where
  pub execution_id : Text
  pub status : Text
  pub transaction_hash : Option Text
  pub transaction_link : Option Text
  pub idempotent_replay : Bool
  pub raw : Json

pub record ExecutionReceipt : Type 0 where
  pub hash : Text
  pub verified : Bool
  pub receipt_status : Text
  pub block_number : ℕ
  pub gas_used : Text

pub record ExecutionStatus : Type 0 where
  pub execution_id : Text
  pub status : Text
  pub kind : Option Text
  pub transaction_hash : Option Text
  pub receipts : List ExecutionReceipt
  pub error : Option Text
  pub raw : Json

-- `str(record["revertReason"]) ?? str(record["error"])`
reason_of : Json → Option Text
reason_of raw = elim (as_text (get (lit "revertReason") raw)) [
  | some reason ↦ some reason
  | none ↦ as_text (get (lit "error") raw)
]

unfoldable pub to_simulation : Json → SimulationOutcome
unfolding reason_of
to_simulation raw = record {
  would_revert = is_true (get (lit "wouldRevert") raw);
  failure_kind = as_text (get (lit "failureKind") raw);
  revert_reason = reason_of raw;
  code = as_text (get (lit "code") raw);
  denial = parse_guard_denial (reason_of raw);
  raw = raw;
}

unfoldable pub to_accepted : Json → ExecutionAccepted
to_accepted raw = record {
  execution_id = Option.get_or (as_text (get (lit "executionId") raw)) [];
  status = Option.get_or (as_text (get (lit "status") raw)) (lit "unknown");
  transaction_hash = as_text (get (lit "transactionHash") raw);
  transaction_link = as_text (get (lit "transactionLink") raw);
  idempotent_replay = is_true (get (lit "idempotentReplay") raw);
  raw = raw;
}

to_receipt : Json → ExecutionReceipt
to_receipt item = record {
  hash = Option.get_or (as_text (get (lit "hash") item)) (lit "0x");
  verified = is_true (get (lit "verified") item);
  receipt_status = Option.get_or (as_text (get (lit "receiptStatus") item)) (lit "unknown");
  block_number = Option.get_or (as_number (get (lit "blockNumber") item)) 0;
  gas_used = Option.get_or (as_text (get (lit "gasUsed") item)) (lit "0");
}

to_receipts : Items → List ExecutionReceipt
unfolding to_receipt
to_receipts nil = []
to_receipts (cons item items) = to_receipt item ∷ to_receipts items

-- What is no array has no receipts.
receipts_of : Option Json → List ExecutionReceipt
unfolding to_receipts
receipts_of (some (arr items)) = to_receipts items
receipts_of _ = []

unfoldable pub to_status : Json → ExecutionStatus
unfolding receipts_of
to_status raw = record {
  execution_id = Option.get_or (as_text (get (lit "executionId") raw)) [];
  status = Option.get_or (as_text (get (lit "status") raw)) (lit "unknown");
  kind = as_text (get (lit "type") raw);
  transaction_hash = as_text (get (lit "transactionHash") raw);
  receipts = receipts_of (get (lit "receipts") raw);
  error = as_text (get (lit "error") raw);
  raw = raw;
}

-- `TERMINAL_STATUSES.has(status)`
unfoldable pub is_terminal : Text → Bool
unfolding mem_text
is_terminal status =
    mem_text status (lit "completed" ∷ lit "failed" ∷ lit "cancelled" ∷ lit "reverted" ∷ [])
