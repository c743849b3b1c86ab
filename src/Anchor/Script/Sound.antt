-- ===== src/Anchor/Script/Sound.antt =====
-- What scripts/anchoring.ts records of the receipts that it anchors.
use kp.Common.{
  ℕ, ◌≡◌, refl, sym, ◌∙◌, inl, inr, ◌⊎◌, some, List, [], ◌∷◌, map, Text, lower, OneOf, All,
  All-append, Bool-cases, Option-cases, select,
}
use kp.Common.Maps.{lookup}
use kp.Resilience.Breaker.{Settled, returned, threw}
use kp.KeeperHub.Outcomes.{ExecutionAccepted}
use kp.Receipts.Hash.{Bytes}
use kp.Receipts.Hash.Hex.{AreBytes}
use kp.Receipts.Merkle.{process_proof}
use kp.Store.{AnchorInfo, StoredReceipt}
use kp.Anchor.Batches.{Entry, AnchorBatch, batch_id_for, build_anchor_batch}
use kp.Anchor.Batches.Proved.{build_anchor_batch_proves, build_anchor_batch_id}
use kp.Anchor.Script.{
  Env, Effect, called, stored, Groups, policy_hash_of, anchor_key, is_unanchored, anchor_call,
  info_for, put_members, anchor_batch, anchor_group, anchor_groups, anchor_all,
}
use kp.Anchor.Script.Grouped.{
  All-sort_stable, IsMember, IsGroup, group_by_batch-IsGroup, policy_hash_of-All,
}

settled_cases :
    {A E : Type 0} (x : Settled A E) → ((a : A) × (x ≡ returned a)) ⊎ ((e : E) × (x ≡ threw e))
settled_cases (returned a) = inl (a, refl)
settled_cases (threw e) = inr (e, refl)

within :
    {A : Type 0} (xs all : List A)
    → ((x : A) → OneOf x xs → OneOf x all)
    → All (λ x. OneOf x all) xs
within [] all h = tt
within (x ∷ xs) all h = (h x (inl refl), within xs all (λ y k. h y (inr k)))

-- What is relied on of the hash function: its digests are bytes.
module _ (env : Env) (digests : (s : Bytes) → AreBytes (env.keccak s))
    (receipts : List StoredReceipt) where
  -- The anchor recorded for a receipt: the receipt was waiting, the batch is its hour's and of its
  -- policy, the proof computes the batch's root from its digest, and KeeperHub accepted a call, under
  -- the batch's key, that anchors this root for this policy.
  abbrev pub IsSound : Effect → Type 0
  IsSound (called call key) = Unit
  IsSound (stored r') =
      (r : StoredReceipt) × (info : AnchorInfo) × (accepted : ExecutionAccepted) × (r'
        ≡ record r { anchor = some info })
      × OneOf r (select is_unanchored receipts)
      × (info.batch_id ≡ batch_id_for env.parse_date r.receipt.at)
      × (info.policy_hash ≡ lower r.receipt.policy_hash)
      × (process_proof env.keccak r.digest info.proof ≡ some info.root)
      × (env.execute (anchor_call env info.batch_id info.root info.policy_hash)
            (anchor_key info.batch_id)
          ≡ returned accepted)
      × (info.execution_id ≡ accepted.execution_id)

  -- What is known of a member when its batch is accepted.
  abbrev IsReady : AnchorBatch → Text → StoredReceipt → Type 0
  IsReady batch policy_hash r =
      OneOf r (select is_unanchored receipts)
      × (batch_id_for env.parse_date r.receipt.at ≡ batch.batch_id)
      × (lower r.receipt.policy_hash ≡ policy_hash)
      × ((e : Entry) × (lookup (lower r.digest) batch.entries ≡ some e)
          × (process_proof env.keccak r.digest e.proof ≡ some batch.root))

  module _ (batch : AnchorBatch) (policy_hash : Text) (accepted : ExecutionAccepted)
      (answer : env.execute
          (anchor_call env batch.batch_id batch.root policy_hash)
          (anchor_key batch.batch_id)
        ≡ returned accepted) where
    put_members-IsSound :
        (rs : List StoredReceipt)
        → All (IsReady batch policy_hash) rs
        → All IsSound (put_members env batch policy_hash accepted rs).0
    unfolding put_members info_for
    put_members-IsSound [] h = tt
    put_members-IsSound (r ∷ rs) ((member, hour, policy, (e, found, proves)), h) =
        let info = info_for env batch policy_hash accepted e in
        let sound : IsSound (stored (record r { anchor = some info })) =
          (r, info, accepted, refl, member, sym hour, sym policy, proves, answer, refl) in
        elim (Bool-cases (env.takes (record r { anchor = some info }))) [
          | inl taken ↦ rw (put_members, found) (rw taken (sound, put_members-IsSound rs h))
          | inr lost ↦ rw (put_members, found) (rw lost (sound, tt))
        ]

  anchor_batch-IsSound :
      (batch : AnchorBatch) (policy_hash : Text) (rs : List StoredReceipt)
      → All (IsReady batch policy_hash) rs
      → All IsSound (anchor_batch env batch policy_hash rs).0
  unfolding anchor_batch
  anchor_batch-IsSound batch policy_hash rs h =
      elim (settled_cases (
        env.execute (anchor_call env batch.batch_id batch.root policy_hash)
          (anchor_key batch.batch_id))) [
            | inl (accepted, answer) ↦
                rw (anchor_batch, answer)
                  (tt, put_members-IsSound batch policy_hash accepted answer rs h)
            | inr (e, failed) ↦ rw (anchor_batch, failed) (tt, tt)
          ]

  -- The members of a group are ready when its batch is built.
  All-IsReady :
      (id : ℕ) (batch : AnchorBatch) (policy_hash : Text) (ds : List Text) (rs : List StoredReceipt)
      → build_anchor_batch env.keccak env.locale_compare id ds ≡ some batch
      → ((d : Text) → OneOf d (map (λ r. r.digest) rs) → OneOf d ds)
      → All (IsMember (λ r. OneOf r (select is_unanchored receipts)) env.parse_date id) rs
      → All (λ r. lower r.receipt.policy_hash ≡ policy_hash) rs
      → All (IsReady batch policy_hash) rs
  All-IsReady id batch policy_hash ds [] b within m p = tt
  All-IsReady id batch policy_hash ds (r ∷ rs) b within ((member, hour), m) (policy, p) = (
    (
      member,
      hour ∙ sym (build_anchor_batch_id env.keccak digests env.locale_compare id ds batch b),
      policy,
      build_anchor_batch_proves env.keccak digests env.locale_compare id ds batch r.digest b
          (within r.digest (inl refl)),
    ),
    All-IsReady id batch policy_hash ds rs b (λ d k. within d (inr k)) m p,
  )

  anchor_group-IsSound :
      (id : ℕ) (members : List StoredReceipt)
      → All (IsMember (λ r. OneOf r (select is_unanchored receipts)) env.parse_date id) members
      → All IsSound (anchor_group env id members).0
  unfolding anchor_group
  anchor_group-IsSound id members m =
      elim (Option-cases
        (build_anchor_batch env.keccak env.locale_compare id (map (λ r. r.digest) members))) [
          | inl no_tree ↦ rw (anchor_group, no_tree) tt
          | inr (batch, built) ↦ elim (Option-cases (policy_hash_of members)) [
            | inl mixed ↦ rw (anchor_group, built) (rw mixed tt)
            | inr (policy_hash, one) ↦
                rw (anchor_group, built)
                  (rw one (
                    anchor_batch-IsSound batch policy_hash members (
                      All-IsReady id batch policy_hash _ members built (λ d k. k) m
                        (policy_hash_of-All members policy_hash one))))
          ]
        ]

  anchor_groups-IsSound :
      (groups : Groups)
      → All (IsGroup (λ r. OneOf r (select is_unanchored receipts)) env.parse_date) groups
      → All IsSound (anchor_groups env groups).0
  unfolding anchor_groups
  anchor_groups-IsSound [] h = tt
  anchor_groups-IsSound ((id, members) ∷ groups) (g, h) =
      let sound = anchor_group-IsSound id members g in
      elim (Bool-cases (anchor_group env id members).1) [
        | inl through ↦ rw through (All-append IsSound _ _ sound (anchor_groups-IsSound groups h))
        | inr stopped ↦ rw stopped sound
      ]

  members_of : {A : Type 0} (xs : List A) → All (λ x. OneOf x xs) xs
  members_of xs = within xs xs (λ x k. k)

  -- Whatever KeeperHub answers and the store takes, every receipt that a run stores as anchored was
  -- waiting, and is recorded with its hour's batch, its own policy hash and a proof that computes the
  -- recorded root from its digest; and KeeperHub accepted a call, under the key of that batch, that
  -- anchors this root for this policy. The hash function's digests are bytes.
  pub anchor_all-IsSound : All IsSound (anchor_all env receipts).0
  unfolding anchor_all
  anchor_all-IsSound = anchor_groups-IsSound _ (
      All-sort_stable (IsGroup _ env.parse_date) _ _
        (group_by_batch-IsGroup _ env.parse_date _ (members_of (select is_unanchored receipts))))
