-- ===== src/Anchor/Batches.antt =====
-- packages/receipts/src/anchor.ts: the tree of a batch of digests, and the proof of each. `Date.parse`,
-- on text that reads as a date since 1970, and `String.prototype.localeCompare` are parameters, and so is keccak256. A thrown error is `none`.
pub mod Entries
pub mod Proved
use kp.Common.{◌>>=◌, ℕ, zero, suc, ◌/◌, Option, none, some, List, [], ◌∷◌, Text, lower}
use kp.Common.Int.{ℤ}
use kp.Common.Maps.{store}
use kp.Policy.Evaluate.{sort_stable}
use kp.Receipts.Hash.{Bytes}
use kp.Receipts.Merkle.{MerkleTree, get_proof, build_tree}

-- The hour of a time, in milliseconds since 1970.
unfoldable pub batch_id_for : (Text → ℕ) → Text → ℕ
batch_id_for parse_date at = parse_date at / 3_600_000

pub record Entry : Type 0 where
  pub leaf_index : ℕ
  pub proof : List Text

pub record AnchorBatch : Type 0 where
  pub batch_id : ℕ
  pub root : Text
  pub entries : List (Text × Entry)

-- The loop over the sorted digests, from an index on.
unfoldable pub fill_entries :
    MerkleTree → ℕ → List Text → List (Text × Entry) → Option (List (Text × Entry))
fill_entries tree index [] entries = some entries
fill_entries tree index (digest ∷ rest) entries = do
  proof ← get_proof tree index
  fill_entries tree (suc index) rest
      (store (lower digest) (record { leaf_index = index; proof = proof }) entries)

module _ (keccak : Bytes → Bytes) (locale_compare : Text → Text → ℤ) where
  -- The comparator of the sort.
  abbrev pub compare_digests : Text → Text → ℤ
  compare_digests a b = locale_compare (lower a) (lower b)

  unfoldable pub batch_of : ℕ → List Text → Option AnchorBatch
  unfolding fill_entries
  batch_of batch_id sorted = do
    tree ← build_tree keccak sorted
    entries ← fill_entries tree 0 sorted []
    some (record { batch_id = batch_id; root = tree.root; entries = entries })

  unfoldable pub build_anchor_batch : ℕ → List Text → Option AnchorBatch
  unfolding batch_of
  build_anchor_batch batch_id [] = none
  build_anchor_batch batch_id (d ∷ digests) =
      batch_of batch_id (sort_stable compare_digests (d ∷ digests))
