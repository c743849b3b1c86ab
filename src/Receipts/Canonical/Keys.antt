-- ===== src/Receipts/Canonical/Keys.antt =====
-- The order of an object's keys in the text of packages/receipts/src/canonical.ts.
use kp.Common.{
  ℕ, ◌≡◌, ◌≢◌, ◌⊎◌, inl, inr, refl, sym, ap, ◌∙◌, true, false, List, [], ◌∷◌, ◌++◌, arith, Text,
  ltb, ◌==◌, Bool-cases,
}
use kp.KeeperHub.Json.{Json, obj, Fields, field}
use kp.Receipts.Canonical.{
  text_lt, insert_member, sort_members, join_with_comma, print_members, serialize, serialize_fields,
}

text_lt_cons_same : (a b : ℕ) (s t : Text) → a ≡ b → text_lt (a ∷ s) (b ∷ t) ≡ text_lt s t
unfolding text_lt
text_lt_cons_same a b s t h = let same : a == b ≡ true = ground arith in rw (text_lt, same) refl

text_lt_cons_other : (a b : ℕ) (s t : Text) → a ≢ b → text_lt (a ∷ s) (b ∷ t) ≡ ltb a b
unfolding text_lt
text_lt_cons_other a b s t h = let other : a == b ≡ false = ground arith in rw (text_lt, other) refl

Compared : Text → Text → Type 0
Compared s t =
    (s ≡ t)
    ⊎ ((text_lt s t ≡ true) × (text_lt t s ≡ false))
    ⊎ ((text_lt s t ≡ false) × (text_lt t s ≡ true))

compare : (s t : Text) → Compared s t
unfolding text_lt Compared
compare [] [] = inl refl
compare [] (b ∷ t) = inr (inl (refl, refl))
compare (a ∷ s) [] = inr (inr (refl, refl))
compare (a ∷ s) (b ∷ t) = elim (Bool-cases (a == b)) [
  | inl e ↦
      let same : a ≡ b = ground arith in
      let there = text_lt_cons_same a b s t same in
      let back = text_lt_cons_same b a t s (sym same) in
      elim (compare s t) [
        | inl h ↦ inl (cc (same, h))
        | inr (inl (h, k)) ↦ inr (inl (there ∙ h, back ∙ k))
        | inr (inr (h, k)) ↦ inr (inr (there ∙ h, back ∙ k))
      ]
  | inr e ↦
      let other : a ≢ b = (λ p. ground arith) in
      let there = text_lt_cons_other a b s t other in
      let back = text_lt_cons_other b a t s (λ p. other (sym p)) in
      elim (Bool-cases (ltb a b)) [
        | inl h ↦ inr (inl (there ∙ h, back ∙ ground arith))
        | inr h ↦ inr (inr (there ∙ h, back ∙ ground arith))
      ]
]

text_lt_trans : (s t u : Text) → text_lt s t ≡ true → text_lt t u ≡ true → text_lt s u ≡ true
unfolding text_lt
text_lt_trans [] [] u h k = cc
text_lt_trans [] (b ∷ t) [] h k = cc
text_lt_trans [] (b ∷ t) (c ∷ u) h k = refl
text_lt_trans (a ∷ s) [] u h k = cc
text_lt_trans (a ∷ s) (b ∷ t) [] h k = cc
text_lt_trans (a ∷ s) (b ∷ t) (c ∷ u) h k = ground (arith, text_lt_trans s t u)

-- A member goes in front of one that is not below it.
insert_before :
    (m n : Text × Text) (ms : List (Text × Text))
    → text_lt n.0 m.0 ≡ false
    → insert_member m (n ∷ ms) ≡ m ∷ n ∷ ms
unfolding insert_member
insert_before m n ms h = rw (insert_member, h) refl

insert_behind :
    (m n : Text × Text) (ms : List (Text × Text))
    → text_lt n.0 m.0 ≡ true
    → insert_member m (n ∷ ms) ≡ n ∷ insert_member m ms
unfolding insert_member
insert_behind m n ms h = rw (insert_member, h) refl

-- Below a text that is not above `x` and so below what `x` is below.
below : (s x t : Text) → text_lt x s ≡ false → text_lt x t ≡ true → text_lt s t ≡ true
unfolding Compared
below s x t h k = elim (compare s x) [
  | inl e ↦ rw e k
  | inr (inl (l, _)) ↦ text_lt_trans s x t l k
  | inr (inr (_, g)) ↦ absurd (cc (h, g))
]

insert_both :
    (m n : Text × Text) (ms : List (Text × Text))
    → text_lt n.0 m.0 ≡ true
    → text_lt m.0 n.0 ≡ false
    → insert_member m (insert_member n ms) ≡ insert_member n (insert_member m ms)
unfolding insert_member
insert_both m n [] h k = insert_behind m n [] h ∙ sym (insert_before n m [] k)
insert_both m n (x ∷ ms) h k = elim (Bool-cases (text_lt x.0 n.0)) [
  | inl xn ↦
      let xm = text_lt_trans x.0 n.0 m.0 xn h in
      ap (insert_member m) (insert_behind n x ms xn)
      ∙ insert_behind m x (insert_member n ms) xm
      ∙ ap (λ l. x ∷ l) (insert_both m n ms h k)
      ∙ sym (insert_behind n x (insert_member m ms) xn)
      ∙ ap (insert_member n) (sym (insert_behind m x ms xm))
  | inr xn ↦ elim (Bool-cases (text_lt x.0 m.0)) [
    | inl xm ↦
        ap (insert_member m) (insert_before n x ms xn)
        ∙ insert_behind m n (x ∷ ms) h
        ∙ ap (λ l. n ∷ l) (insert_behind m x ms xm)
        ∙ sym (insert_before n x (insert_member m ms) xn)
        ∙ ap (insert_member n) (sym (insert_behind m x ms xm))
    | inr xm ↦
        ap (insert_member m) (insert_before n x ms xn)
        ∙ insert_behind m n (x ∷ ms) h
        ∙ ap (λ l. n ∷ l) (insert_before m x ms xm)
        ∙ sym (insert_before n m (x ∷ ms) k)
        ∙ ap (insert_member n) (sym (insert_before m x ms xm))
  ]
]

insert_comm :
    (m n : Text × Text) (ms : List (Text × Text))
    → m.0 ≢ n.0
    → insert_member m (insert_member n ms) ≡ insert_member n (insert_member m ms)
unfolding Compared
insert_comm m n ms differ = elim (compare m.0 n.0) [
  | inl e ↦ absurd (differ e)
  | inr (inl (h, k)) ↦ sym (insert_both n m ms h k)
  | inr (inr (h, k)) ↦ insert_both m n ms k h
]

-- An object's members behind others.
abbrev pub prepend : List (Text × Json) → Fields → Fields
prepend [] fields = fields
prepend ((key, v) ∷ before) fields = field key v (prepend before fields)

sorted_swap :
    (before : List (Text × Json)) (a b : Text) (v w : Json) (rest : Fields)
    → a ≢ b
    → sort_members (serialize_fields (prepend before (field a v (field b w rest))))
      ≡ sort_members (serialize_fields (prepend before (field b w (field a v rest))))
unfolding serialize sort_members
sorted_swap [] a b v w rest differ =
    insert_comm (a, serialize v) (b, serialize w) (sort_members (serialize_fields rest)) differ
sorted_swap ((key, u) ∷ before) a b v w rest differ =
    ap (insert_member (key, serialize u)) (sorted_swap before a b v w rest differ)

-- Two neighbouring members of an object with different keys may change places, whatever stands
-- before and behind them: the canonical text of the object is the same.
pub serialize_swap :
    (before : List (Text × Json)) (a b : Text) (v w : Json) (rest : Fields)
    → a ≢ b
    → serialize (obj (prepend before (field a v (field b w rest))))
      ≡ serialize (obj (prepend before (field b w (field a v rest))))
unfolding serialize
serialize_swap before a b v w rest differ =
    ap (λ members. b'{' ∷ join_with_comma (print_members members) ++ b'}' ∷ [])
      (sorted_swap before a b v w rest differ)
