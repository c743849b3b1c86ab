-- ===== src/Receipts/Merkle.antt =====
-- packages/receipts/src/merkle.ts: the sorted-pair Merkle tree, over any hash function.
-- An error that is thrown is `none`.
pub mod Levels
pub mod Proofs
mod Tests
use mathlib.Core.Option
use kp.Common.{
  ◌>>=◌, ℕ, zero, suc, ◌+◌, ◌-◌, ◌/◌, ◌%◌, Bool, true, false, Option, none, some, List, [], ◌∷◌,
  ◌++◌, Text, lower, text_eq, ltb, leb, ◌==◌, if◌then◌else◌, length, get_elem?,
}
use kp.Common.Int.{pos, leb_ℤ}
use kp.Receipts.Hash.{Bytes, to_hex, from_hex, compare_bytes}

-- `root` is the text of the last level's first node.
pub record MerkleTree : Type 0 where
  pub root : Text
  pub leaves : List Text
  pub levels : List (List Bytes)

-- `leaves.map(fromHex)`
unfoldable pub decode_all : List Text → Option (List Bytes)
decode_all [] = some []
decode_all (hex ∷ rest) = do bytes ← from_hex hex; more ← decode_all rest; some (bytes ∷ more)

-- `nodes[siblingIndex]` is looked up at this index.
abbrev pub sibling_index : ℕ → ℕ
sibling_index position = if position % 2 == 1 then position - 1 else position + 1

-- A missing sibling is a node that was promoted.
abbrev pub add_sibling : Option Bytes → List Text → List Text
add_sibling none proof = proof
add_sibling (some sibling) proof = to_hex sibling ∷ proof

-- The loop over all levels but the last.
unfoldable pub proof_from : List (List Bytes) → ℕ → List Text
proof_from [] position = []
proof_from (top ∷ []) position = []
proof_from (nodes ∷ next ∷ levels) position =
    add_sibling (get_elem? nodes (sibling_index position))
      (proof_from (next ∷ levels) (position / 2))

unfoldable pub get_proof : MerkleTree → ℕ → Option (List Text)
unfolding proof_from
get_proof tree index =
    if ltb index (length tree.leaves) then some (proof_from tree.levels index) else none

-- The first node of the last level.
unfoldable pub top_node : List (List Bytes) → Option Bytes
top_node [] = none
top_node (level ∷ []) = get_elem? level 0
top_node (level ∷ next ∷ levels) = top_node (next ∷ levels)

module _ (keccak : Bytes → Bytes) where
  unfoldable pub hash_pair : Bytes → Bytes → Bytes
  hash_pair a b = if leb_ℤ (compare_bytes a b) (pos 0) then keccak (a ++ b) else keccak (b ++ a)

  -- One round of the loop that builds the next level; an odd last node is promoted.
  unfoldable pub next_level : List Bytes → List Bytes
  next_level [] = []
  next_level (left ∷ []) = left ∷ []
  next_level (left ∷ right ∷ rest) = hash_pair left right ∷ next_level rest

  -- The `while` loop, on fuel: `none` means that the fuel ran out.
  unfoldable pub build_levels : ℕ → List Bytes → Option (List (List Bytes))
  build_levels zero level = none
  build_levels (suc fuel) level =
      let higher = build_levels fuel (next_level level) in
      if ltb 1 (length level) then Option.map (◌∷◌ level) higher else some (level ∷ [])

  -- A level is at most as long as the leaves, and each round makes it shorter.
  unfoldable pub build_tree : List Text → Option MerkleTree
  build_tree [] = none
  build_tree (leaf ∷ leaves) = do
    bottom ← decode_all (leaf ∷ leaves)
    levels ← build_levels (length bottom) bottom
    top ← top_node levels
    some (record { root = to_hex top; leaves = leaf ∷ leaves; levels = levels })

  -- The loop over the proof.
  unfoldable pub climb : Bytes → List Text → Option Bytes
  climb computed [] = some computed
  climb computed (step ∷ proof) = do
    sibling ← from_hex step
    climb (hash_pair computed sibling) proof

  unfoldable pub process_proof : Text → List Text → Option Text
  process_proof leaf proof = do
    start ← from_hex leaf
    computed ← climb start proof
    some (to_hex computed)

  unfoldable pub verify_proof : Text → List Text → Text → Option Bool
  verify_proof leaf proof root = do
    computed ← process_proof leaf proof
    some (text_eq (lower computed) (lower root))
