-- ===== src/Anchor/Script.antt =====
-- scripts/anchoring.ts: one run over the receipts that the store lists. What KeeperHub answers and
-- whether the store takes a receipt are functions; the calls and puts are a list in order, with
-- whether the run got through. `Date.parse`, `localeCompare`, `JSON.stringify`, keccak256 and the text
-- of the ABI are parameters, and all times read as dates. Environment and console are left out.
pub mod Grouped
pub mod Sound
mod Tests
use mathlib.Core.Option
use kp.Common.{
  ℕ, Bool, true, false, Option, none, some, List, [], ◌∷◌, ◌++◌, map, Text, lit, lower, mem_text,
  select, ◌==◌, if◌then◌else◌,
}
use kp.Common.Int.{ℤ, sub_ℕ}
use kp.Common.Maps.{lookup}
use kp.Common.Numbers.{show_ℕ}
use kp.Resilience.Breaker.{Settled, returned, threw}
use kp.KeeperHub.Json.{Json, num, str, arr, nil, cons}
use kp.KeeperHub.Http.{KeeperHubError}
use kp.KeeperHub.Outcomes.{ContractCallRequest, ExecutionAccepted}
use kp.Policy.Evaluate.{sort_stable}
use kp.Receipts.Hash.{Bytes}
use kp.Store.{AnchorInfo, StoredReceipt}
use kp.Anchor.Batches.{Entry, AnchorBatch, batch_id_for, build_anchor_batch}

pub record Env : Type 0 where
  pub keccak : Bytes → Bytes
  pub locale_compare : Text → Text → ℤ
  pub parse_date : Text → ℕ
  pub stringify : Json → Text
  pub abi : Text
  pub chain_id : ℕ
  pub anchor_address : Text
  pub execute : ContractCallRequest → Text → Settled ExecutionAccepted KeeperHubError
  pub takes : StoredReceipt → Bool

pub data Effect : Type 0 where
  called : ContractCallRequest → Text → Effect
  stored : StoredReceipt → Effect

abbrev pub Groups : Type 0
Groups = List (ℕ × List StoredReceipt)

unfoldable pub add_to_group : ℕ → StoredReceipt → Groups → Groups
add_to_group id r [] = (id, r ∷ []) ∷ []
add_to_group id r ((k, members) ∷ groups) =
    let later = add_to_group id r groups in
    if id == k then (k, members ++ r ∷ []) ∷ groups else (k, members) ∷ later

-- The loop of `groupByBatch` over the receipts that are left.
unfoldable pub group_into : (Text → ℕ) → List StoredReceipt → Groups → Groups
unfolding add_to_group batch_id_for
group_into parse_date [] groups = groups
group_into parse_date (r ∷ rs) groups =
    group_into parse_date rs (add_to_group (batch_id_for parse_date r.receipt.at) r groups)

unfoldable pub group_by_batch : (Text → ℕ) → List StoredReceipt → Groups
unfolding group_into
group_by_batch parse_date receipts = group_into parse_date receipts []

-- The members of a `Set`.
unfoldable pub distinct_hashes : List StoredReceipt → List Text → List Text
distinct_hashes [] seen = seen
distinct_hashes (r ∷ rs) seen =
    let hash = lower r.receipt.policy_hash in
    let old = distinct_hashes rs seen in
    let new = distinct_hashes rs (seen ++ hash ∷ []) in if mem_text hash seen then old else new

abbrev pub only_one : List Text → Option Text
only_one [] = none
only_one (h ∷ []) = some h
only_one (h ∷ k ∷ rest) = none

unfoldable pub policy_hash_of : List StoredReceipt → Option Text
unfolding distinct_hashes
policy_hash_of members = only_one (distinct_hashes members [])

unfoldable pub anchor_key : ℕ → Text
anchor_key id = lit "noyeet-anchor-" ++ show_ℕ id

abbrev pub is_unanchored : StoredReceipt → Bool
is_unanchored r = elim r.anchor [ none ↦ true | some info ↦ false ]

module _ (env : Env) where
  unfoldable pub anchor_call : ℕ → Text → Text → ContractCallRequest
  anchor_call id root policy_hash = record {
    chain_id = env.chain_id;
    contract_address = env.anchor_address;
    function_name = lit "anchor";
    function_args =
        some (env.stringify (arr (cons (num id) (cons (str root) (cons (str policy_hash) nil)))));
    abi = some env.abi;
    value = none;
  }

  unfoldable pub info_for : AnchorBatch → Text → ExecutionAccepted → Entry → AnchorInfo
  info_for batch policy_hash accepted entry = record {
    batch_id = batch.batch_id;
    root = batch.root;
    policy_hash = policy_hash;
    leaf_index = entry.leaf_index;
    proof = entry.proof;
    execution_id = accepted.execution_id;
    transaction_hash = accepted.transaction_hash;
  }

  -- The loop over the members of a batch that was accepted.
  unfoldable pub put_members :
      AnchorBatch → Text → ExecutionAccepted → List StoredReceipt → List Effect × Bool
  unfolding info_for
  put_members batch policy_hash accepted [] = ([], true)
  put_members batch policy_hash accepted (r ∷ rs) =
      let (later, through) = put_members batch policy_hash accepted rs in
      elim (lookup (lower r.digest) batch.entries) [
        | none ↦ ([], false)
        | some entry ↦
            let r' = record r { anchor = some (info_for batch policy_hash accepted entry) } in
            if env.takes r' then (stored r' ∷ later, through) else (stored r' ∷ [], false)
      ]

  -- The call for a batch of one policy, and its puts.
  unfoldable pub anchor_batch : AnchorBatch → Text → List StoredReceipt → List Effect × Bool
  unfolding anchor_call anchor_key put_members
  anchor_batch batch policy_hash members =
      let call = anchor_call batch.batch_id batch.root policy_hash in
      let key = anchor_key batch.batch_id in
      elim (env.execute call key) [
        | threw e ↦ (called call key ∷ [], false)
        | returned accepted ↦
            let (effects, through) = put_members batch policy_hash accepted members in
            (called call key ∷ effects, through)
      ]

  unfoldable pub anchor_group : ℕ → List StoredReceipt → List Effect × Bool
  unfolding policy_hash_of anchor_batch
  anchor_group id members =
      elim (build_anchor_batch env.keccak env.locale_compare id (map (λ r. r.digest) members)) [
        | none ↦ ([], false)
        | some batch ↦ elim (policy_hash_of members) [
          | none ↦ ([], false)
          | some policy_hash ↦ anchor_batch batch policy_hash members
        ]
      ]

  -- An error ends the run.
  unfoldable pub anchor_groups : Groups → List Effect × Bool
  unfolding anchor_group
  anchor_groups [] = ([], true)
  anchor_groups ((id, members) ∷ groups) =
      let (effects, through) = anchor_group id members in
      let (later, done) = anchor_groups groups in
      if through then (effects ++ later, done) else (effects, false)

  unfoldable pub anchor_all : List StoredReceipt → List Effect × Bool
  unfolding anchor_groups group_by_batch
  anchor_all receipts = anchor_groups (
      sort_stable (λ (a b : ℕ × List StoredReceipt). sub_ℕ a.0 b.0)
        (group_by_batch env.parse_date (select is_unanchored receipts)))
