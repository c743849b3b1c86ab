-- ===== src/Store.antt =====
-- packages/store/src: the receipts that are kept, in memory. The store in Postgres is SQL.
pub mod Memory
use kp.Common.{ℕ, Option, List, Text}
use kp.Receipts.Receipt.{Receipt}

pub record AnchorInfo : Type 0 where
  pub batch_id : ℕ
  pub root : Text
  pub policy_hash : Text
  pub leaf_index : ℕ
  pub proof : List Text
  pub execution_id : Text
  pub transaction_hash : Option Text

pub record StoredReceipt : Type 0 where
  pub receipt : Receipt
  pub digest : Text
  pub anchor : Option AnchorInfo
