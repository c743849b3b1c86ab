-- ===== src/Anchor/Batch.antt =====
-- `ReceiptBatch` of apps/anchor/src/index.ts: the digests that wait for a root. A method that mutates
-- the batch returns the new one, and the clock is an argument.
use kp.Common.{
  ℕ, ◌+◌, Bool, true, false, ◌||◌, none, some, List, [], ◌∷◌, ◌++◌, Text, leb, if◌then◌else◌,
  length,
}
use kp.Receipts.Hash.{Bytes}
use kp.Receipts.Merkle.{build_tree}

pub record ReceiptBatch : Type 0 where
  pub batch_size : ℕ
  pub max_age_ms : ℕ
  pub leaves : List Text
  pub opened_at : ℕ

unfoldable pub new : ℕ → ℕ → ℕ → ReceiptBatch
new batch_size max_age_ms now = record {
  batch_size = batch_size;
  max_age_ms = max_age_ms;
  leaves = [];
  opened_at = now;
}

unfoldable pub size : ReceiptBatch → ℕ
size b = length b.leaves

abbrev pub is_empty : List Text → Bool
is_empty [] = true
is_empty (leaf ∷ leaves) = false

unfoldable pub add : Text → ℕ → ReceiptBatch → ReceiptBatch
add digest now b = record b {
  leaves = b.leaves ++ digest ∷ [];
  opened_at = if is_empty b.leaves then now else b.opened_at;
}

unfoldable pub should_flush : ℕ → ReceiptBatch → Bool
should_flush now b =
    if is_empty b.leaves
    then false
    else leb b.batch_size (length b.leaves) || leb (b.opened_at + b.max_age_ms) now

-- `null`, the root with its leaves, or what `buildTree` throws.
pub data Sealed : Type 0 where
  nothing : Sealed
  sealed : Text → List Text → Sealed
  unreadable : List Text → Sealed

module _ (keccak : Bytes → Bytes) where
  -- With leaves; these are taken before the tree is built.
  unfoldable pub seal_leaves : ℕ → ReceiptBatch → List Text → ReceiptBatch × Sealed
  seal_leaves now b [] = (b, nothing)
  seal_leaves now b (leaf ∷ rest) =
      let emptied = record b { leaves = []; opened_at = now } in
      elim (build_tree keccak (leaf ∷ rest)) [
        | some tree ↦ (emptied, sealed tree.root (leaf ∷ rest))
        | none ↦ (emptied, unreadable (leaf ∷ rest))
      ]

  unfoldable pub seal : ℕ → ReceiptBatch → ReceiptBatch × Sealed
  unfolding seal_leaves
  seal now b = seal_leaves now b b.leaves
