-- ===== src/Anchor/Batches/Entries.antt =====
-- The map of entries that packages/receipts/src/anchor.ts fills.
use kp.Common.{
  some-eq-some, ℕ, ◌<◌, ◌≡◌, refl, sym, subst, ◌∙◌, inl, inr, ◌⊎◌, some, List, [], ◌∷◌, ◌++◌,
  append_assoc, Text, text_eq, text_eq_iff, lower, length, length-append, get_elem?, OneOf,
  Bool-cases, arith,
}
use kp.Common.Maps.{lookup, store, lookup-store_same, lookup-store_other}
use kp.Receipts.Merkle.{MerkleTree, get_proof, proof_from}
use kp.Anchor.Batches.{Entry, fill_entries}

-- The entry of a key is the position of a leaf that the key names, with the proof of that position.
abbrev pub IsEntry : MerkleTree → Text → Entry → Type 0
IsEntry tree key e =
    (leaf : Text) × (get_elem? tree.leaves e.leaf_index ≡ some leaf)
    × (lower leaf ≡ key)
    × (get_proof tree e.leaf_index ≡ some e.proof)

abbrev pub AreEntries : MerkleTree → List (Text × Entry) → Type 0
AreEntries tree entries =
    (key : Text) (e : Entry) → lookup key entries ≡ some e → IsEntry tree key e

abbrev pub Has : Text → List (Text × Entry) → Type 0
Has key entries = (e : Entry) × (lookup key entries ≡ some e)

get_elem?-at :
    (before rest : List Text) (x : Text) → get_elem? (before ++ x ∷ rest) (length before) ≡ some x
get_elem?-at [] rest x = refl
get_elem?-at (y ∷ before) rest x = get_elem?-at before rest x

lookup-store :
    (key k : Text) (v : Entry) (entries : List (Text × Entry))
    → ((key ≡ k) × (lookup key (store k v entries) ≡ some v))
      ⊎ (lookup key (store k v entries) ≡ lookup key entries)
lookup-store key k v entries = elim (Bool-cases (text_eq key k)) [
  | inl e ↦
      let same = (text_eq_iff key k).0 e in
      inl (
        same,
        subst (λ x. lookup x (store k v entries) ≡ some v) (sym same)
            (lookup-store_same k v entries),
      )
  | inr e ↦ inr (lookup-store_other key k v entries (λ same. cc (e, (text_eq_iff key k).1 same)))
]

Has-store :
    (key k : Text) (v : Entry) (entries : List (Text × Entry))
    → Has key entries
    → Has key (store k v entries)
Has-store key k v entries (e, found) = elim (lookup-store key k v entries) [
  | inl (same, here) ↦ (v, here)
  | inr kept ↦ (e, kept ∙ found)
]

AreEntries-store :
    (tree : MerkleTree) (k : Text) (v : Entry) (entries : List (Text × Entry))
    → IsEntry tree k v
    → AreEntries tree entries
    → AreEntries tree (store k v entries)
AreEntries-store tree k v entries is h key e found = elim (lookup-store key k v entries) [
  | inl (same, here) ↦
      subst (λ x. IsEntry tree x e) (sym same)
        (subst (λ x. IsEntry tree k x) (some-eq-some (sym here ∙ found)) is)
  | inr kept ↦ h key e (sym kept ∙ found)
]

get_proof_ok :
    (tree : MerkleTree) (i : ℕ)
    → i < length tree.leaves
    → get_proof tree i ≡ some (proof_from tree.levels i)
unfolding get_proof
get_proof_ok tree i h = ground arith

-- The loop from an index on: it ends with entries, keeps those that are there, and adds one for each
-- digest.
pub fill_entries_lem :
    (tree : MerkleTree) (before rest : List Text) (entries : List (Text × Entry))
    → tree.leaves ≡ before ++ rest
    → AreEntries tree entries
    → (out : List (Text × Entry)) × (fill_entries tree (length before) rest entries ≡ some out)
      × AreEntries tree out
      × ((key : Text) → Has key entries → Has key out)
      × ((d : Text) → OneOf d rest → Has (lower d) out)
unfolding fill_entries
fill_entries_lem tree before [] entries shape h = (entries, refl, h, (λ key k. k), λ d k. absurd k)
fill_entries_lem tree before (x ∷ rest) entries shape h =
    let size = length-append before (x ∷ rest) in
    let i = length before in
    let proof = proof_from tree.levels i in
    let e : Entry = record { leaf_index = i; proof = proof } in
    let reads = get_proof_ok tree i (rw shape (omega (arith, size))) in
    let at : get_elem? tree.leaves i ≡ some x = rw shape (get_elem?-at before rest x) in
    let here = lookup-store_same (lower x) e entries in
    let (out, run, is, keeps, all) =
      fill_entries_lem tree (before ++ x ∷ []) rest (store (lower x) e entries)
        (shape ∙ sym (append_assoc before (x ∷ []) rest))
        (AreEntries-store tree (lower x) e entries (x, at, refl, reads) h) in
    (
      out,
      rw reads (
          subst (λ n. fill_entries tree n rest (store (lower x) e entries) ≡ some out)
            (length-append before (x ∷ []) ∙ omega arith) run),
      is,
      λ key k. keeps key (Has-store key (lower x) e entries k),
      λ d k. elim k [
        | inl same ↦ subst (λ l. Has (lower l) out) (sym same) (keeps (lower x) (e, here))
        | inr later ↦ all d later
      ],
    )
