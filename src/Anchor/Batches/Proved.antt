-- ===== src/Anchor/Batches/Proved.antt =====
-- The batches of packages/receipts/src/anchor.ts and the proofs in them.
use kp.Common.{
  >>=-eq-some, some-eq-some, ℕ, ◌≡◌, refl, sym, subst, ap, ◌∙◌, inl, inr, some, List, [], ◌∷◌, Text,
  lower, get_elem?, OneOf, Bool-cases,
}
use kp.Common.Int.{ℤ, pos, leb_ℤ}
use kp.Common.Maps.{lookup}
use kp.Policy.Evaluate.{insert_stable, sort_stable}
use kp.Receipts.Hash.{Bytes, from_hex}
use kp.Receipts.Hash.Hex.{AreBytes}
use kp.Receipts.Hash.Case.{from_hex-lower}
use kp.Receipts.Merkle.{MerkleTree, build_tree, process_proof}
use kp.Receipts.Merkle.Proofs.{build_tree_inv, process_proof-get_proof}
use kp.Anchor.Batches.{
  Entry, AnchorBatch, fill_entries, compare_digests, batch_of, build_anchor_batch,
}
use kp.Anchor.Batches.Entries.{IsEntry, fill_entries_lem}

-- A sort keeps the members.
module _ (cmp : Text → Text → ℤ) where
  OneOf-insert_stable :
      (d x : Text) (xs : List Text) → OneOf d (x ∷ xs) → OneOf d (insert_stable cmp x xs)
  unfolding insert_stable
  OneOf-insert_stable d x [] h = h
  OneOf-insert_stable d x (y ∷ ys) h = elim (Bool-cases (leb_ℤ (cmp x y) (pos 0))) [
    | inl first ↦ rw first h
    | inr later ↦ rw later (elim h [
      | inl e ↦ inr (OneOf-insert_stable d x ys (inl e))
      | inr k ↦ elim k [ inl e ↦ inl e | inr m ↦ inr (OneOf-insert_stable d x ys (inr m)) ]
    ])
  ]

  OneOf-sort_stable : (d : Text) (xs : List Text) → OneOf d xs → OneOf d (sort_stable cmp xs)
  unfolding sort_stable
  OneOf-sort_stable d [] h = absurd h
  OneOf-sort_stable d (x ∷ xs) h =
      OneOf-insert_stable d x (sort_stable cmp xs)
        (elim h [ inl e ↦ inl e | inr k ↦ inr (OneOf-sort_stable d xs k) ])

module _ (keccak : Bytes → Bytes) (digests : (s : Bytes) → AreBytes (keccak s))
    (locale_compare : Text → Text → ℤ) where
  process_proof-lower :
      (a b : Text) (proof : List Text)
      → lower a ≡ lower b
      → process_proof keccak a proof ≡ process_proof keccak b proof
  unfolding process_proof
  process_proof-lower a b proof h =
      rw (sym (from_hex-lower a) ∙ ap from_hex h ∙ from_hex-lower b) refl

  batch_of_inv :
      (id : ℕ) (sorted : List Text) (batch : AnchorBatch)
      → batch_of keccak locale_compare id sorted ≡ some batch
      → (tree : MerkleTree) × (build_tree keccak sorted ≡ some tree)
        × (fill_entries tree 0 sorted [] ≡ some batch.entries)
        × (tree.root ≡ batch.root)
  unfolding batch_of
  batch_of_inv id sorted batch h =
      let (tree, b, k) = >>=-eq-some (build_tree keccak sorted) _ h in
      let (entries, f, e) = >>=-eq-some (fill_entries tree 0 sorted []) _ k in
      let same = some-eq-some e in
      (
        tree,
        b,
        f ∙ ap (λ (x : AnchorBatch). some x.entries) same,
        ap (λ (x : AnchorBatch). x.root) same,
      )

  tree_leaves :
      (sorted : List Text) (tree : MerkleTree)
      → build_tree keccak sorted ≡ some tree
      → tree.leaves ≡ sorted
  tree_leaves sorted tree b =
      let (bottom, levels, top, decoded, built, topped, shape) =
        build_tree_inv keccak digests sorted b in
      sym (ap (λ (x : MerkleTree). x.leaves) shape)

  none_yet : (key : Text) (e : Entry) → lookup key [] ≡ some e → ⊥
  unfolding lookup
  none_yet key e h = cc

  -- The proof of an entry computes the root from any digest that the key names.
  entry_proves :
      (sorted : List Text) (tree : MerkleTree) (d : Text) (e : Entry)
      → build_tree keccak sorted ≡ some tree
      → IsEntry tree (lower d) e
      → process_proof keccak d e.proof ≡ some tree.root
  entry_proves sorted tree d e b (leaf, at, same, reads) =
      let (proof, p, q) =
        process_proof-get_proof keccak digests sorted tree e.leaf_index leaf b
          (subst (λ l. get_elem? l e.leaf_index ≡ some leaf) (tree_leaves sorted tree b) at) in
      process_proof-lower d leaf e.proof (sym same)
      ∙ ap (λ x. process_proof keccak leaf x) (some-eq-some (sym reads ∙ p))
      ∙ q

  batch_of_proves :
      (id : ℕ) (sorted : List Text) (batch : AnchorBatch) (d : Text)
      → batch_of keccak locale_compare id sorted ≡ some batch
      → OneOf d sorted
      → (e : Entry) × (lookup (lower d) batch.entries ≡ some e)
        × (process_proof keccak d e.proof ≡ some batch.root)
  batch_of_proves id sorted batch d h k =
      let (tree, b, f, same) = batch_of_inv id sorted batch h in
      let (out, run, are, keeps, all) =
        fill_entries_lem tree [] sorted [] (tree_leaves sorted tree b)
          (λ key e x. absurd (none_yet key e x)) in
      let (e, found) = all d k in
      let here : lookup (lower d) batch.entries ≡ some e =
        ap (λ x. lookup (lower d) x) (some-eq-some (sym f ∙ run)) ∙ found in
      (e, here, entry_proves sorted tree d e b (are (lower d) e found) ∙ ap some same)

  -- With a hash function whose digests are bytes: in a batch that is built, every digest that it was
  -- built from has an entry under its lower case, and the entry's proof computes the batch's root from
  -- the digest, whatever the order of the comparison and however often, and in whatever case, a
  -- digest is given.
  pub build_anchor_batch_proves :
      (id : ℕ) (ds : List Text) (batch : AnchorBatch) (d : Text)
      → build_anchor_batch keccak locale_compare id ds ≡ some batch
      → OneOf d ds
      → (e : Entry) × (lookup (lower d) batch.entries ≡ some e)
        × (process_proof keccak d e.proof ≡ some batch.root)
  unfolding build_anchor_batch
  build_anchor_batch_proves id [] batch d h k = absurd k
  build_anchor_batch_proves id (x ∷ ds) batch d h k =
      batch_of_proves id _ batch d h
        (OneOf-sort_stable (compare_digests keccak locale_compare) d (x ∷ ds) k)

  batch_of_id :
      (id : ℕ) (sorted : List Text) (batch : AnchorBatch)
      → batch_of keccak locale_compare id sorted ≡ some batch
      → batch.batch_id ≡ id
  unfolding batch_of
  batch_of_id id sorted batch h =
      let (tree, b, k) = >>=-eq-some (build_tree keccak sorted) _ h in
      let (entries, f, e) = >>=-eq-some (fill_entries tree 0 sorted []) _ k in
      sym (ap (λ (x : AnchorBatch). x.batch_id) (some-eq-some e))

  pub build_anchor_batch_id :
      (id : ℕ) (ds : List Text) (batch : AnchorBatch)
      → build_anchor_batch keccak locale_compare id ds ≡ some batch
      → batch.batch_id ≡ id
  unfolding build_anchor_batch
  build_anchor_batch_id id [] batch h = cc
  build_anchor_batch_id id (x ∷ ds) batch h = batch_of_id id _ batch h
