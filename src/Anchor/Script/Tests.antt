-- ===== src/Anchor/Script/Tests.antt =====
-- A run over three receipts, and the theorems at it.
use kp.Common.{
  ℕ, ◌+◌, ◌*◌, ◌%◌, ◌≡◌, refl, Bool, true, none, some, List, [], ◌∷◌, Text, lit, lower, text_eq,
  mem_text, length, All, inl, inr, arith,
}
use kp.Common.Numbers.{digit, is_space}
use kp.Common.Int.{pos}
use kp.Common.Maps.{lookup, store}
use kp.KeeperHub.Json.{null}
use kp.KeeperHub.Outcomes.{ExecutionAccepted}
use kp.Resilience.Breaker.{returned}
use kp.Policy.Types.{Verdict}
use kp.Policy.Evaluate.{sort_stable}
use kp.Receipts.Hash.{Bytes, from_hex, to_hex, compare_bytes}
use kp.Receipts.Hash.Hex.{AreBytes}
use kp.Receipts.Merkle.{
  process_proof, build_levels, build_tree, decode_all, get_proof, hash_pair, next_level, top_node,
}
use kp.Store.{StoredReceipt}
use kp.Anchor.Batches.{Entry, AnchorBatch, build_anchor_batch}
use kp.Anchor.Batches.Proved.{build_anchor_batch_proves}
use kp.Anchor.Script.{
  Env, anchor_all, anchor_groups, anchor_group, anchor_batch, put_members, group_by_batch,
}
use kp.Anchor.Script.Sound.{IsSound, anchor_all-IsSound}

abbrev total : Bytes → ℕ
total [] = 0
total (b ∷ bs) = b + total bs

abbrev toy : Bytes → Bytes
toy s = (total s % 256) ∷ (length s % 256) ∷ []

toy-AreBytes : (s : Bytes) → AreBytes (toy s)
toy-AreBytes s = omega arith

abbrev accepted : ExecutionAccepted
accepted = record {
  execution_id = lit "e-1";
  status = lit "pending";
  transaction_hash = none;
  transaction_link = none;
  idempotent_replay = Bool.false;
  raw = null;
}

abbrev env : Env
env = record {
  keccak = toy;
  locale_compare = λ a b. pos 0;
  parse_date = λ s. length s * 1_800_000;
  stringify = λ j. [];
  abi = [];
  chain_id = 1;
  anchor_address = lit "0x0a";
  execute = λ call key. returned accepted;
  takes = λ r. true;
}

abbrev waiting : Text → Text → Text → StoredReceipt
waiting id digest at = record {
  receipt = record {
    intent_id = id;
    intent_hash = lit "0x01";
    policy_hash = lit "0x02";
    guard = lit "0x03";
    chain_id = 1;
    verdict = Verdict.deny;
    reasons = [];
    simulation = none;
    execution = none;
    at = at;
  };
  digest = digest;
  anchor = none;
}

abbrev receipts : List StoredReceipt
receipts =
    waiting (lit "a") (lit "0x0a") (lit "----")
    ∷ waiting (lit "b") (lit "0x0b") (lit "-")
    ∷ waiting (lit "c") (lit "0x0C") (lit "----")
    ∷ []

anchor_all-IsSound_example : All (IsSound env toy-AreBytes receipts) (anchor_all env receipts).0
anchor_all-IsSound_example = anchor_all-IsSound env toy-AreBytes receipts

abbrev ds : List Text
ds = lit "0x0b" ∷ lit "0x0C" ∷ []

-- Two calls and three puts.
runs_through : (length (anchor_all env receipts).0 ≡ 5) × ((anchor_all env receipts).1 ≡ true)
unfolding anchor_all anchor_groups anchor_group anchor_batch put_members group_by_batch
    build_anchor_batch lookup lit digit is_space from_hex to_hex lower text_eq mem_text build_tree
    sort_stable decode_all build_levels next_level top_node get_proof hash_pair store compare_bytes
runs_through = (refl, refl)

abbrev batch_of_two : AnchorBatch
batch_of_two = record {
  batch_id = 7;
  root = lit "0x1702";
  entries =
      (lit "0x0b", record { leaf_index = 0; proof = lit "0x0c" ∷ [] })
      ∷ (lit "0x0c", record { leaf_index = 1; proof = lit "0x0b" ∷ [] })
      ∷ [];
}

two_leaves : build_anchor_batch toy (λ a b. pos 0) 7 ds ≡ some batch_of_two
unfolding build_anchor_batch lit digit is_space from_hex to_hex lower text_eq mem_text build_tree
    sort_stable decode_all build_levels next_level top_node get_proof hash_pair store compare_bytes
two_leaves = refl

build_anchor_batch_proves_example :
    (e : Entry) × (lookup (lower (lit "0x0C")) batch_of_two.entries ≡ some e)
    × (process_proof toy (lit "0x0C") e.proof ≡ some (lit "0x1702"))
build_anchor_batch_proves_example =
    build_anchor_batch_proves toy toy-AreBytes (λ a b. pos 0) 7 ds batch_of_two (lit "0x0C")
      two_leaves (inr (inl refl))
