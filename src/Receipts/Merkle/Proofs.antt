-- ===== src/Receipts/Merkle/Proofs.antt =====
-- The proofs of packages/receipts/src/merkle.ts, and what they lead to.
use kp.Common.{
  >>=-eq-some, some-eq-some, ℕ, zero, suc, ◌/◌, ◌<◌, ◌≡◌, ◌≢◌, refl, sym, ap, ◌∙◌, true, false, inl,
  inr, some, List, [], ◌∷◌, ◌++◌, arith, Text, lower, text_eq_refl, ltb, length, get_elem?,
  Bool-cases, Option-cases, All,
}
use kp.Common.Int.{pos, leb_ℤ}
use kp.Receipts.Hash.{Bytes, compare_bytes, to_hex, from_hex}
use kp.Receipts.Hash.Hex.{AreBytes, from_hex-to_hex, from_hex-AreBytes}
use kp.Receipts.Merkle.{
  MerkleTree, decode_all, sibling_index, add_sibling, proof_from, get_proof, top_node, hash_pair,
  next_level, build_levels, build_tree, climb, process_proof, verify_proof,
}
use kp.Receipts.Merkle.Levels.{
  joined, get_elem?-next_level, build_levels-zero, build_levels_more, build_levels_last,
  build_levels_total, top_node_total,
}

All-get_elem? :
    {A : Type 0} (P : A → Type 0) (xs : List A) (i : ℕ) (x : A)
    → All P xs
    → get_elem? xs i ≡ some x
    → P x
All-get_elem? P [] i x h e = cc
All-get_elem? P (y ∷ xs) zero x (p, h) e = rw (← some-eq-some e) p
All-get_elem? P (y ∷ xs) (suc i) x (p, h) e = All-get_elem? P xs i x h e

-- A level with at most one node has it at index 0.
only_node :
    (level : List Bytes) (i : ℕ) (x : Bytes)
    → ltb 1 (length level) ≡ false
    → get_elem? level i ≡ some x
    → get_elem? level 0 ≡ some x
only_node [] i x h e = e
only_node (y ∷ level) zero x h e = e
only_node (y ∷ []) (suc i) x h e = cc
only_node (y ∷ z ∷ level) (suc i) x h e = absurd (ground arith)

decode_all-AreBytes :
    (leaves : List Text) {bottom : List Bytes}
    → decode_all leaves ≡ some bottom
    → All AreBytes bottom
unfolding decode_all
decode_all-AreBytes [] h = rw (← some-eq-some h) tt
decode_all-AreBytes (leaf ∷ leaves) h =
    let (bytes, p, k) = >>=-eq-some (from_hex leaf) _ h in
    let (more, q, e) = >>=-eq-some (decode_all leaves) _ k in
    rw (← some-eq-some e) (from_hex-AreBytes leaf p, decode_all-AreBytes leaves q)

get_elem?-decode_all :
    (leaves : List Text) {bottom : List Bytes} (i : ℕ) (leaf : Text)
    → decode_all leaves ≡ some bottom
    → get_elem? leaves i ≡ some leaf
    → (bytes : Bytes) × (from_hex leaf ≡ some bytes) × (get_elem? bottom i ≡ some bytes)
unfolding decode_all
get_elem?-decode_all [] i leaf h g = cc
get_elem?-decode_all (x ∷ leaves) zero leaf h g =
    let (bytes, p, k) = >>=-eq-some (from_hex x) _ h in
    let (more, q, e) = >>=-eq-some (decode_all leaves) _ k in
    (bytes, rw (← some-eq-some g) p, rw (← some-eq-some e))
get_elem?-decode_all (x ∷ leaves) (suc i) leaf h g =
    let (bytes, p, k) = >>=-eq-some (from_hex x) _ h in
    let (more, q, e) = >>=-eq-some (decode_all leaves) _ k in
    rw (← some-eq-some e) (get_elem?-decode_all leaves i leaf q g)

in_range : {A : Type 0} (xs : List A) (i : ℕ) (x : A) → get_elem? xs i ≡ some x → i < length xs
in_range [] i x e = cc
in_range (y ∷ xs) zero x e = omega arith
in_range (y ∷ xs) (suc i) x e = omega (arith, in_range xs i x e)

-- What is relied on of the hash function: its digests are bytes.
module _ (keccak : Bytes → Bytes) (digests : (s : Bytes) → AreBytes (keccak s)) where
  hash_pair-AreBytes : (a b : Bytes) → AreBytes (hash_pair keccak a b)
  unfolding hash_pair
  hash_pair-AreBytes a b = elim (Bool-cases (leb_ℤ (compare_bytes a b) (pos 0))) [
    | inl p ↦ rw p (digests (a ++ b))
    | inr p ↦ rw p (digests (b ++ a))
  ]

  next_level-AreBytes :
      (level : List Bytes) → All AreBytes level → All AreBytes (next_level keccak level)
  unfolding next_level
  next_level-AreBytes [] h = tt
  next_level-AreBytes (x ∷ []) h = h
  next_level-AreBytes (x ∷ y ∷ level) (p, (q, h)) =
      (hash_pair-AreBytes x y, next_level-AreBytes level h)

  climb-add_sibling :
      (nodes : List Bytes) (j : ℕ) (x : Bytes) (proof : List Text)
      → All AreBytes nodes
      → climb keccak x (add_sibling (get_elem? nodes j) proof)
        ≡ climb keccak (joined keccak x (get_elem? nodes j)) proof
  unfolding climb
  climb-add_sibling nodes j x proof h = elim (Option-cases (get_elem? nodes j)) [
    | inl promoted ↦ rw promoted
    | inr (sibling, found) ↦
        rw (found, from_hex-to_hex sibling (All-get_elem? AreBytes nodes j sibling h found))
  ]

  -- From any node of a level the proof climbs to the top.
  climb-proof_from :
      (fuel : ℕ) (level : List Bytes) {levels : List (List Bytes)} (i : ℕ) (x : Bytes)
      → All AreBytes level
      → build_levels keccak fuel level ≡ some levels
      → get_elem? level i ≡ some x
      → climb keccak x (proof_from levels i) ≡ top_node levels
  unfolding proof_from top_node climb
  climb-proof_from zero level i x h b e = absurd (build_levels-zero keccak level b)
  climb-proof_from (suc fuel) level i x h b e = elim (Bool-cases (ltb 1 (length level))) [
    | inl more ↦
        let (rest, built, shape) = build_levels_more keccak fuel level more b in
        rw shape (
          climb-add_sibling level (sibling_index i) x _ h
          ∙ climb-proof_from fuel (next_level keccak level) (i / 2) _ (next_level-AreBytes level h)
              built (get_elem?-next_level keccak level i x e))
    | inr last ↦ rw (build_levels_last keccak fuel level last b) (sym (only_node level i x last e))
  ]

  -- The parts of a tree that was built.
  pub build_tree_inv :
      (leaves : List Text) {tree : MerkleTree}
      → build_tree keccak leaves ≡ some tree
      → (bottom : List Bytes) × (levels : List (List Bytes)) × (top : Bytes) × (decode_all leaves
          ≡ some bottom)
        × (build_levels keccak (length bottom) bottom ≡ some levels)
        × (top_node levels ≡ some top)
        × (record { root = to_hex top; leaves = leaves; levels = levels } ≡ tree)
  unfolding build_tree
  build_tree_inv [] h = cc
  build_tree_inv (leaf ∷ leaves) h =
      let (bottom, p, k) = >>=-eq-some (decode_all (leaf ∷ leaves)) _ h in
      let (levels, q, l) = >>=-eq-some (build_levels keccak (length bottom) bottom) _ k in
      let (top, r, e) = >>=-eq-some (top_node levels) _ l in
      (bottom, levels, top, p, q, r, some-eq-some e)

  get_proof_lem :
      (tree : MerkleTree) (i : ℕ) (leaf : Text)
      → get_elem? tree.leaves i ≡ some leaf
      → get_proof tree i ≡ some (proof_from tree.levels i)
  unfolding get_proof
  get_proof_lem tree i leaf e = let within = in_range tree.leaves i leaf e in ground arith

  process_proof_lem :
      (leaf : Text) (proof : List Text) {start computed : Bytes}
      → from_hex leaf ≡ some start
      → climb keccak start proof ≡ some computed
      → process_proof keccak leaf proof ≡ some (to_hex computed)
  unfolding process_proof
  process_proof_lem leaf proof p q = rw (p, q)

  -- With a hash function whose digests are bytes, each of the leaves that a tree is built from has a
  -- proof, and the proof computes the root from the leaf.
  pub process_proof-get_proof :
      (leaves : List Text) (tree : MerkleTree) (i : ℕ) (leaf : Text)
      → build_tree keccak leaves ≡ some tree
      → get_elem? leaves i ≡ some leaf
      → (proof : List Text) × (get_proof tree i ≡ some proof)
        × (process_proof keccak leaf proof ≡ some tree.root)
  process_proof-get_proof leaves tree i leaf b e =
      let (bottom, levels, top, decoded, built, topped, shape) = build_tree_inv leaves b in
      let (start, read, at) = get_elem?-decode_all leaves i leaf decoded e in
      let climbs =
        climb-proof_from (length bottom) bottom i start (decode_all-AreBytes leaves decoded) built
          at
        ∙ topped in
      rw (← shape) (
        proof_from levels i,
        get_proof_lem (record { root = to_hex top; leaves = leaves; levels = levels }) i leaf e,
        process_proof_lem leaf (proof_from levels i) read climbs,
      )

  verify_proof_lem :
      (leaf : Text) (proof : List Text) (root : Text)
      → process_proof keccak leaf proof ≡ some root
      → verify_proof keccak leaf proof root ≡ some true
  unfolding verify_proof
  verify_proof_lem leaf proof root h = rw h (ap some (text_eq_refl (lower root)))

  -- So a proof that was got from a tree verifies against the tree's root.
  pub verify_proof-get_proof :
      (leaves : List Text) (tree : MerkleTree) (i : ℕ) (leaf : Text)
      → build_tree keccak leaves ≡ some tree
      → get_elem? leaves i ≡ some leaf
      → (proof : List Text) × (get_proof tree i ≡ some proof)
        × (verify_proof keccak leaf proof tree.root ≡ some true)
  verify_proof-get_proof leaves tree i leaf b e =
      let (proof, got, computes) = process_proof-get_proof leaves tree i leaf b e in
      (proof, got, verify_proof_lem leaf proof tree.root computes)

length-decode_all :
    (leaves : List Text) {bottom : List Bytes}
    → decode_all leaves ≡ some bottom
    → length bottom ≡ length leaves
unfolding decode_all
length-decode_all [] h = rw (← some-eq-some h) refl
length-decode_all (leaf ∷ leaves) h =
    let (bytes, p, k) = >>=-eq-some (from_hex leaf) _ h in
    let (more, q, e) = >>=-eq-some (decode_all leaves) _ k in
    rw (← some-eq-some e) (ap suc (length-decode_all leaves q))

-- A tree is built from any leaves that are hex text, if there is one: the loop ends, the fuel is
-- enough, and the tree keeps the leaves.
pub build_tree_total :
    (keccak : Bytes → Bytes) (leaves : List Text) (bottom : List Bytes)
    → leaves ≢ []
    → decode_all leaves ≡ some bottom
    → (tree : MerkleTree) × (build_tree keccak leaves ≡ some tree) × (tree.leaves ≡ leaves)
unfolding build_tree
build_tree_total keccak [] bottom h d = absurd (h refl)
build_tree_total keccak (leaf ∷ leaves) bottom h d =
    let long = length-decode_all (leaf ∷ leaves) d in
    let (levels, built) =
      build_levels_total keccak (length bottom) bottom (omega arith) (omega arith) in
    let (top, topped) = top_node_total keccak (length bottom) bottom (omega arith) built in
    (
      record { root = to_hex top; leaves = leaf ∷ leaves; levels = levels },
      rw d (rw built (rw topped)),
      refl,
    )
