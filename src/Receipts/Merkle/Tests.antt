-- ===== src/Receipts/Merkle/Tests.antt =====
-- A tree over a toy hash function, and each theorem at an input.
use kp.Common.{◌++◌, ℕ, ◌+◌, ◌%◌, ◌≡◌, refl, some, List, [], ◌∷◌, arith, Text, lit, length}
use kp.Receipts.Hash.{Bytes, to_hex, from_hex, compare_bytes}
use kp.Receipts.Hash.Hex.{AreBytes, from_hex-to_hex, from_hex_loose}
use kp.Receipts.Merkle.{
  build_levels, next_level, top_node, MerkleTree, decode_all, get_proof, build_tree, process_proof,
  hash_pair,
}
use kp.Receipts.Merkle.Proofs.{process_proof-get_proof}
use kp.Common.Numbers.{digit, is_space}

-- The sum of the bytes, and their number.
abbrev total : Bytes → ℕ
total [] = 0
total (b ∷ bs) = b + total bs

abbrev toy : Bytes → Bytes
toy s = (total s % 256) ∷ (length s % 256) ∷ []

toy-AreBytes : (s : Bytes) → AreBytes (toy s)
toy-AreBytes s = omega arith

abbrev three : List Text
three = lit "0x0102" ∷ lit "0xff" ∷ lit "0x0A" ∷ []

abbrev tree : MerkleTree
tree = record {
  root = lit "0x0f03";
  leaves = three;
  levels =
      ((1 ∷ 2 ∷ []) ∷ (255 ∷ []) ∷ (10 ∷ []) ∷ [])
      ∷ ((2 ∷ 3 ∷ []) ∷ (10 ∷ []) ∷ [])
      ∷ ((15 ∷ 3 ∷ []) ∷ [])
      ∷ [];
}

decode_three : decode_all three ≡ some ((1 ∷ 2 ∷ []) ∷ (255 ∷ []) ∷ (10 ∷ []) ∷ [])
unfolding decode_all from_hex lit digit is_space
decode_three = refl

build_three : build_tree toy three ≡ some tree
unfolding build_tree decode_all from_hex to_hex lit digit is_space hash_pair compare_bytes
    build_levels next_level top_node
build_three = refl

process_proof-get_proof_example :
    (proof : List Text) × (get_proof tree 1 ≡ some proof)
    × (process_proof toy (lit "0xff") proof ≡ some (lit "0x0f03"))
process_proof-get_proof_example =
    process_proof-get_proof toy toy-AreBytes three tree 1 (lit "0xff") build_three refl

from_hex-to_hex_example : from_hex (to_hex (0 ∷ 171 ∷ 255 ∷ [])) ≡ some (0 ∷ 171 ∷ 255 ∷ [])
from_hex-to_hex_example = from_hex-to_hex (0 ∷ 171 ∷ 255 ∷ []) (omega arith)

-- "0x071g" is read as the bytes 7 and 1.
from_hex_loose_example :
    (from_hex (to_hex (7 ∷ []) ++ b'1' ∷ b'g' ∷ []) ≡ some (7 ∷ digit b'1' ∷ []))
    × (from_hex (to_hex (7 ∷ digit b'1' ∷ [])) ≡ from_hex (to_hex (7 ∷ []) ++ b'1' ∷ b'g' ∷ []))
unfolding digit
from_hex_loose_example =
    from_hex_loose (7 ∷ []) b'1' b'g' (omega arith, tt) refl refl (omega arith) (omega arith)
