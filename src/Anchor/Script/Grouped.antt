-- ===== src/Anchor/Script/Grouped.antt =====
-- The groups of scripts/anchoring.ts and their policy.
use kp.Common.{
  ℕ, ◌≡◌, refl, subst, ap, inl, inr, some, some-eq-some, List, [], ◌∷◌, ◌++◌, Text, lower, mem_text,
  mem_text→OneOf, OneOf, All, All-append, Bool-cases, ◌==◌, ==_iff,
}
use kp.Common.Int.{ℤ, pos, leb_ℤ}
use kp.Policy.Evaluate.{insert_stable, sort_stable}
use kp.Store.{StoredReceipt}
use kp.Anchor.Batches.{batch_id_for}
use kp.Anchor.Script.{
  Groups, add_to_group, group_into, group_by_batch, distinct_hashes, only_one, policy_hash_of,
}

module _ {A : Type 0} (P : A → Type 0) (cmp : A → A → ℤ) where
  All-insert_stable : (x : A) (xs : List A) → P x → All P xs → All P (insert_stable cmp x xs)
  unfolding insert_stable
  All-insert_stable x [] p h = (p, tt)
  All-insert_stable x (y ∷ ys) p (q, h) = elim (Bool-cases (leb_ℤ (cmp x y) (pos 0))) [
    | inl first ↦ rw first (p, (q, h))
    | inr later ↦ rw later (q, All-insert_stable x ys p h)
  ]

  pub All-sort_stable : (xs : List A) → All P xs → All P (sort_stable cmp xs)
  unfolding sort_stable
  All-sort_stable [] h = tt
  All-sort_stable (x ∷ xs) (p, h) =
      All-insert_stable x (sort_stable cmp xs) p (All-sort_stable xs h)

-- Groups each member of which has a property and the group's hour.
module _ (P : StoredReceipt → Type 0) (parse_date : Text → ℕ) where
  abbrev pub IsMember : ℕ → StoredReceipt → Type 0
  IsMember id r = P r × (batch_id_for parse_date r.receipt.at ≡ id)

  abbrev pub IsGroup : ℕ × List StoredReceipt → Type 0
  IsGroup g = All (IsMember g.0) g.1

  add_to_group-IsGroup :
      (id : ℕ) (r : StoredReceipt) (groups : Groups)
      → IsMember id r
      → All IsGroup groups
      → All IsGroup (add_to_group id r groups)
  unfolding add_to_group
  add_to_group-IsGroup id r [] m h = ((m, tt), tt)
  add_to_group-IsGroup id r ((k, members) ∷ groups) m (g, h) = elim (Bool-cases (id == k)) [
    | inl e ↦ rw e (
      All-append (IsMember k) members (r ∷ []) g
          (subst (λ i. IsMember i r) ((==_iff id k).0 e) m, tt),
      h,
    )
    | inr e ↦ rw e (g, add_to_group-IsGroup id r groups m h)
  ]

  group_into-IsGroup :
      (rs : List StoredReceipt) (groups : Groups)
      → All P rs
      → All IsGroup groups
      → All IsGroup (group_into parse_date rs groups)
  unfolding group_into
  group_into-IsGroup [] groups p h = h
  group_into-IsGroup (r ∷ rs) groups (p, ps) h =
      group_into-IsGroup rs _ ps
        (add_to_group-IsGroup (batch_id_for parse_date r.receipt.at) r groups (p, refl) h)

  pub group_by_batch-IsGroup :
      (rs : List StoredReceipt) → All P rs → All IsGroup (group_by_batch parse_date rs)
  unfolding group_by_batch
  group_by_batch-IsGroup rs p = group_into-IsGroup rs [] p tt

OneOf-append_left : (x : Text) (xs ys : List Text) → OneOf x xs → OneOf x (xs ++ ys)
OneOf-append_left x [] ys h = absurd h
OneOf-append_left x (y ∷ xs) ys (inl e) = inl e
OneOf-append_left x (y ∷ xs) ys (inr h) = inr (OneOf-append_left x xs ys h)

OneOf-append_last : (x : Text) (xs : List Text) → OneOf x (xs ++ x ∷ [])
OneOf-append_last x [] = inl refl
OneOf-append_last x (y ∷ xs) = inr (OneOf-append_last x xs)

distinct_hashes_keeps :
    (x : Text) (rs : List StoredReceipt) (seen : List Text)
    → OneOf x seen
    → OneOf x (distinct_hashes rs seen)
unfolding distinct_hashes
distinct_hashes_keeps x [] seen h = h
distinct_hashes_keeps x (r ∷ rs) seen h =
    elim (Bool-cases (mem_text (lower r.receipt.policy_hash) seen)) [
      | inl old ↦ rw old (distinct_hashes_keeps x rs seen h)
      | inr new ↦ rw new (distinct_hashes_keeps x rs _ (OneOf-append_left x seen _ h))
    ]

distinct_hashes_has :
    (rs : List StoredReceipt) (seen all : List Text)
    → distinct_hashes rs seen ≡ all
    → All (λ r. OneOf (lower r.receipt.policy_hash) all) rs
unfolding distinct_hashes
distinct_hashes_has [] seen all h = tt
distinct_hashes_has (r ∷ rs) seen all h =
    elim (Bool-cases (mem_text (lower r.receipt.policy_hash) seen)) [
      | inl old ↦
          let h' = rw (distinct_hashes, old) at h in
          (
            subst (λ l. OneOf (lower r.receipt.policy_hash) l) h'
                (distinct_hashes_keeps _ rs seen (mem_text→OneOf _ seen old)),
            distinct_hashes_has rs seen all h',
          )
      | inr new ↦
          let h' = rw (distinct_hashes, new) at h in
          (
            subst (λ l. OneOf (lower r.receipt.policy_hash) l) h'
                (distinct_hashes_keeps _ rs _ (OneOf-append_last _ seen)),
            distinct_hashes_has rs _ all h',
          )
    ]

only_one_inv : (l : List Text) (h : Text) → only_one l ≡ some h → l ≡ h ∷ []
only_one_inv [] h e = cc
only_one_inv (x ∷ []) h e = ap (λ y. y ∷ []) (some-eq-some e)
only_one_inv (x ∷ y ∷ l) h e = cc

the_one :
    (h : Text) (rs : List StoredReceipt)
    → All (λ r. OneOf (lower r.receipt.policy_hash) (h ∷ [])) rs
    → All (λ r. lower r.receipt.policy_hash ≡ h) rs
the_one h [] k = tt
the_one h (r ∷ rs) (inl e, k) = (e, the_one h rs k)
the_one h (r ∷ rs) (inr e, k) = absurd e

-- A batch with a policy hash is of one policy.
pub policy_hash_of-All :
    (members : List StoredReceipt) (h : Text)
    → policy_hash_of members ≡ some h
    → All (λ r. lower r.receipt.policy_hash ≡ h) members
unfolding policy_hash_of
policy_hash_of-All members h e =
    the_one h members (distinct_hashes_has members [] (h ∷ []) (only_one_inv _ h e))
