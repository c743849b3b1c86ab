-- ===== src/Receipts/Merkle/Levels.antt =====
-- The levels of a tree of packages/receipts/src/merkle.ts, and the step from one to the next.
use kp.Common.{
  some-eq-some, ℕ, zero, suc, ◌+◌, ◌/◌, ◌≤◌, ◌<◌, ◌≡◌, refl, sym, ap, ◌∙◌, true, false, inl, inr,
  Option, none, some, List, [], ◌∷◌, ◌++◌, arith, ltb, length, get_elem?, Bool-cases,
}
use mathlib.Core.Path.{ap₂}
use mathlib.Core.Option
use kp.Common.Int.{pos, leb_ℤ}
use kp.Receipts.Hash.{Bytes, compare_bytes}
use kp.Receipts.Hash.Order.{compare_bytes_antisym, compare_bytes_total}
use kp.Receipts.Merkle.{sibling_index, top_node, hash_pair, next_level, build_levels}

first_node : (level : List Bytes) → 0 < length level → (x : Bytes) × (get_elem? level 0 ≡ some x)
first_node [] p = absurd (omega arith)
first_node (x ∷ level) p = (x, refl)

half_suc : (i : ℕ) → suc (suc i) / 2 ≡ suc (i / 2)
half_suc i = omega arith

sibling_suc : (i : ℕ) → sibling_index (suc (suc i)) ≡ suc (suc (sibling_index i))
sibling_suc i = ground arith

module _ (keccak : Bytes → Bytes) where
  -- The two children of a node may be given in either order.
  pub hash_pair_comm : (a b : Bytes) → hash_pair keccak a b ≡ hash_pair keccak b a
  unfolding hash_pair
  hash_pair_comm a b = elim (Bool-cases (leb_ℤ (compare_bytes a b) (pos 0))) [
    | inl p ↦ elim (Bool-cases (leb_ℤ (compare_bytes b a) (pos 0))) [
      | inl q ↦
          rw (p, q)
            (ap₂ (λ (x y : Bytes). keccak (x ++ y)) (compare_bytes_antisym a b p q)
              (compare_bytes_antisym b a q p))
      | inr q ↦ rw (p, q)
    ]
    | inr p ↦ elim (compare_bytes_total a b) [ inl q ↦ cc | inr q ↦ rw (p, q) ]
  ]

  abbrev pub joined : Bytes → Option Bytes → Bytes
  joined x none = x
  joined x (some y) = hash_pair keccak x y

  -- The node above a node: its hash with its sibling, or itself if it has none.
  pub get_elem?-next_level :
      (level : List Bytes) (i : ℕ) (x : Bytes)
      → get_elem? level i ≡ some x
      → get_elem? (next_level keccak level) (i / 2)
        ≡ some (joined x (get_elem? level (sibling_index i)))
  unfolding next_level
  get_elem?-next_level [] i x h = cc
  get_elem?-next_level (y ∷ []) zero x h = h
  get_elem?-next_level (y ∷ []) (suc i) x h = cc
  get_elem?-next_level (y ∷ z ∷ rest) zero x h = rw (some-eq-some h)
  get_elem?-next_level (y ∷ z ∷ rest) (suc zero) x h =
      ap some (hash_pair_comm y z ∙ ap (λ (w : Bytes). hash_pair keccak w y) (some-eq-some h))
  get_elem?-next_level (y ∷ z ∷ rest) (suc (suc i)) x h =
      rw (half_suc i, sibling_suc i) (get_elem?-next_level rest i x h)

  pub length-next_level :
      (level : List Bytes) → length (next_level keccak level) ≡ (length level + 1) / 2
  unfolding next_level
  length-next_level [] = refl
  length-next_level (y ∷ []) = refl
  length-next_level (y ∷ z ∷ rest) = omega (arith, length-next_level rest)

  pub build_levels-zero :
      (level : List Bytes) {levels : List (List Bytes)}
      → build_levels keccak zero level ≡ some levels
      → ⊥
  unfolding build_levels
  build_levels-zero level h = cc

  -- The levels start with the one they are built on.
  pub build_levels-head :
      (fuel : ℕ) (level : List Bytes) {levels : List (List Bytes)}
      → build_levels keccak fuel level ≡ some levels
      → (rest : List (List Bytes)) × (levels ≡ level ∷ rest)
  unfolding build_levels
  build_levels-head zero level h = cc
  build_levels-head (suc fuel) level h = elim (Bool-cases (ltb 1 (length level))) [
    | inl more ↦
        let (higher, _, e) = (Option.map-eq-some_iff _ _).0 (rw more at h) in (higher, sym e)
    | inr last ↦ ([], sym (some-eq-some (rw last at h)))
  ]

  -- What a level that is not the last is followed by.
  pub build_levels_more :
      (fuel : ℕ) (level : List Bytes) {levels : List (List Bytes)}
      → ltb 1 (length level) ≡ true
      → build_levels keccak (suc fuel) level ≡ some levels
      → (rest : List (List Bytes)) × (build_levels keccak fuel (next_level keccak level)
          ≡ some (next_level keccak level ∷ rest))
        × (levels ≡ level ∷ next_level keccak level ∷ rest)
  unfolding build_levels
  build_levels_more fuel level more h =
      let (higher, built, e) = (Option.map-eq-some_iff _ _).0 (rw more at h) in
      let (rest, headed) = build_levels-head fuel (next_level keccak level) built in
      (rest, built ∙ ap some headed, sym e ∙ ap (◌∷◌ level) headed)

  pub build_levels_last :
      (fuel : ℕ) (level : List Bytes) {levels : List (List Bytes)}
      → ltb 1 (length level) ≡ false
      → build_levels keccak (suc fuel) level ≡ some levels
      → levels ≡ level ∷ []
  unfolding build_levels
  build_levels_last fuel level last h = sym (some-eq-some (rw last at h))

  -- As much fuel as the level is long, and one, is enough.
  pub build_levels_total :
      (fuel : ℕ) (level : List Bytes)
      → length level ≤ fuel
      → 0 < fuel
      → (levels : List (List Bytes)) × (build_levels keccak fuel level ≡ some levels)
  unfolding build_levels
  build_levels_total zero level h k = absurd (omega arith)
  build_levels_total (suc fuel) level h k = elim (Bool-cases (ltb 1 (length level))) [
    | inl more ↦
        let shorter = length-next_level level in
        let (levels, built) =
          build_levels_total fuel (next_level keccak level) (ground arith) (ground arith) in
        (level ∷ levels, rw (more, built))
    | inr last ↦ (level ∷ [], rw last)
  ]

  pub top_node_total :
      (fuel : ℕ) (level : List Bytes) {levels : List (List Bytes)}
      → 0 < length level
      → build_levels keccak fuel level ≡ some levels
      → (top : Bytes) × (top_node levels ≡ some top)
  unfolding top_node
  top_node_total zero level p h = absurd (build_levels-zero level h)
  top_node_total (suc fuel) level p h = elim (Bool-cases (ltb 1 (length level))) [
    | inl more ↦
        let (rest, built, e) = build_levels_more fuel level more h in
        let longer = length-next_level level in
        let (top, t) = top_node_total fuel (next_level keccak level) (ground arith) built in
        (top, rw e t)
    | inr last ↦ rw (build_levels_last fuel level last h) (first_node level p)
  ]
