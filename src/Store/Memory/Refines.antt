-- ===== src/Store/Memory/Refines.antt =====
-- The memory store of packages/store/src/memory.ts against what ReceiptStore promises.
use mathlib.Core.Option
use mathlib.Core.List.{reverse, reverse-cons}
use kp.Common.{
  ℕ, zero, suc, ◌≡◌, refl, sym, subst, ap, ◌∙◌, inl, inr, Option, some, List, [], ◌∷◌, ◌++◌,
  append-nil, append_assoc, map, Text, text_eq, text_eq_iff, text_eq_refl, mem_text, length, take,
  All, All-append, Bool-cases, if◌then◌else◌,
}
use kp.Common.Maps.{
  lookup, keys, lookup-store_same, lookup-store_other, keys-store_new, keys-store_old, keys-append,
  length-keys,
}
use kp.Store.{StoredReceipt}
use kp.Store.Memory.{MemoryStore, empty_store, is_some, put, get, list, count, put_all}

-- The receipt that was put last for an id, before which another may have stood.
abbrev pub latest : Text → List StoredReceipt → Option StoredReceipt → Option StoredReceipt
latest id [] before = before
latest id (r ∷ rs) before = latest id rs (if text_eq id r.receipt.intent_id then some r else before)

-- The ids that are not yet seen, in the order of their first receipt.
abbrev pub first_ids : List Text → List StoredReceipt → List Text
first_ids seen [] = []
first_ids seen (r ∷ rs) =
    let old = first_ids seen rs in
    let new = first_ids (seen ++ r.receipt.intent_id ∷ []) rs in
    if mem_text r.receipt.intent_id seen then old else r.receipt.intent_id ∷ new

get-put :
    (id : Text) (r : StoredReceipt) (s : MemoryStore)
    → get id (put r s) ≡ (if text_eq id r.receipt.intent_id then some r else get id s)
unfolding get put
get-put id r s = elim (Bool-cases (text_eq id r.receipt.intent_id)) [
  | inl e ↦
      rw (e, (text_eq_iff id r.receipt.intent_id).0 e)
        (lookup-store_same r.receipt.intent_id r s.receipts)
  | inr e ↦ rw e (
      lookup-store_other id r.receipt.intent_id r s.receipts
        (λ same. cc (e, (text_eq_iff id r.receipt.intent_id).1 same)))
]

-- Whatever was put in whatever order, the store answers the receipt that was put last for an id: it
-- is the function from ids to receipts that every `put` updates at one id.
pub get-put_all :
    (id : Text) (rs : List StoredReceipt) (s : MemoryStore)
    → get id (put_all rs s) ≡ latest id rs (get id s)
unfolding put_all
get-put_all id [] s = refl
get-put_all id (r ∷ rs) s = get-put_all id rs (put r s) ∙ ap (λ o. latest id rs o) (get-put id r s)

-- The receipt under an id is of that id.
abbrev pub IsKnown : MemoryStore → Text → Type 0
IsKnown s id = (r : StoredReceipt) × (get id s ≡ some r) × (r.receipt.intent_id ≡ id)

-- The order holds the keys of the map, and each of them has its receipt.
abbrev pub IsKeyed : MemoryStore → Type 0
IsKeyed s = (s.order ≡ keys s.receipts) × All (IsKnown s) s.order

is_some-lookup :
    (key : Text) (entries : List (Text × StoredReceipt))
    → is_some (lookup key entries) ≡ mem_text key (keys entries)
unfolding lookup mem_text
is_some-lookup key [] = refl
is_some-lookup key ((k, v) ∷ entries) = elim (Bool-cases (text_eq key k)) [
  | inl e ↦ rw e refl
  | inr e ↦ rw e (is_some-lookup key entries)
]

order-put :
    (r : StoredReceipt) (s : MemoryStore)
    → IsKeyed s
    → (put r s).order ≡ (
        if mem_text r.receipt.intent_id s.order
        then s.order
        else s.order ++ r.receipt.intent_id ∷ [])
unfolding put
order-put r s (same, found) = rw (is_some-lookup r.receipt.intent_id s.receipts, same) refl

put-IsKnown :
    (r : StoredReceipt) (s : MemoryStore) (id : Text) → IsKnown s id → IsKnown (put r s) id
put-IsKnown r s id (old, found, same) = elim (Bool-cases (text_eq id r.receipt.intent_id)) [
  | inl e ↦ (r, get-put id r s ∙ rw e refl, sym ((text_eq_iff id r.receipt.intent_id).0 e))
  | inr e ↦ (old, get-put id r s ∙ rw e found, same)
]

put-IsKnown_same : (r : StoredReceipt) (s : MemoryStore) → IsKnown (put r s) r.receipt.intent_id
put-IsKnown_same r s =
    (r, get-put r.receipt.intent_id r s ∙ rw (text_eq_refl r.receipt.intent_id) refl, refl)

put-All :
    (r : StoredReceipt) (s : MemoryStore) (ids : List Text)
    → All (IsKnown s) ids
    → All (IsKnown (put r s)) ids
put-All r s [] h = tt
put-All r s (id ∷ ids) (p, h) = (put-IsKnown r s id p, put-All r s ids h)

keys-put :
    (r : StoredReceipt) (s : MemoryStore)
    → keys (put r s).receipts ≡ (
        if mem_text r.receipt.intent_id (keys s.receipts)
        then keys s.receipts
        else keys s.receipts ++ r.receipt.intent_id ∷ [])
unfolding put
keys-put r s = elim (Bool-cases (mem_text r.receipt.intent_id (keys s.receipts))) [
  | inl old ↦ rw old (keys-store_old r.receipt.intent_id r s.receipts old)
  | inr new ↦ rw new (
      ap (λ l. keys l) (keys-store_new r.receipt.intent_id r s.receipts new)
      ∙ keys-append s.receipts _)
]

put-IsKeyed : (r : StoredReceipt) (s : MemoryStore) → IsKeyed s → IsKeyed (put r s)
put-IsKeyed r s (same, found) =
    let keyed = order-put r s (same, found) in
    (
      keyed
          ∙ ap
              (λ (l : List Text).
                if mem_text r.receipt.intent_id l then l else l ++ r.receipt.intent_id ∷ [])
              same
          ∙ sym (keys-put r s),
      subst (λ l. All (IsKnown (put r s)) l) (sym keyed)
          (elim (Bool-cases (mem_text r.receipt.intent_id s.order)) [
            | inl old ↦ rw old (put-All r s s.order found)
            | inr new ↦ rw new (
                All-append (IsKnown (put r s)) s.order (r.receipt.intent_id ∷ [])
                  (put-All r s s.order found) (put-IsKnown_same r s, tt))
          ]),
    )

put_all-IsKeyed : (rs : List StoredReceipt) (s : MemoryStore) → IsKeyed s → IsKeyed (put_all rs s)
unfolding put_all
put_all-IsKeyed [] s h = h
put_all-IsKeyed (r ∷ rs) s h = put_all-IsKeyed rs (put r s) (put-IsKeyed r s h)

order-put_all :
    (rs : List StoredReceipt) (s : MemoryStore)
    → IsKeyed s
    → (put_all rs s).order ≡ s.order ++ first_ids s.order rs
unfolding put_all
order-put_all [] s h = sym (append-nil s.order)
order-put_all (r ∷ rs) s h =
    let next = order-put_all rs (put r s) (put-IsKeyed r s h) in
    let keyed = order-put r s h in
    elim (Bool-cases (mem_text r.receipt.intent_id s.order)) [
      | inl old ↦ rw old (next ∙ rw (rw old at keyed) refl)
      | inr new ↦ rw new (next ∙ rw (rw new at keyed) (append_assoc s.order _ _))
    ]

All-reverse : {A : Type 0} (P : A → Type 0) (xs : List A) → All P xs → All P (reverse xs)
All-reverse P [] h = tt
All-reverse P (x ∷ xs) (p, h) =
    rw (reverse-cons x xs) (All-append P (reverse xs) (x ∷ []) (All-reverse P xs h) (p, tt))

All-take : {A : Type 0} (P : A → Type 0) (n : ℕ) (xs : List A) → All P xs → All P (take n xs)
All-take P zero xs h = tt
All-take P (suc n) [] h = tt
All-take P (suc n) (x ∷ xs) (p, h) = (p, All-take P n xs h)

-- Receipts for ids that are known.
answers :
    (s : MemoryStore) (ids : List Text)
    → All (IsKnown s) ids
    → (out : List StoredReceipt) × (map (λ id. get id s) ids ≡ map (λ r. some r) out)
      × (map (λ r. r.receipt.intent_id) out ≡ ids)
answers s [] h = ([], refl, refl)
answers s (id ∷ ids) ((r, found, same), h) =
    let (out, p, q) = answers s ids h in (r ∷ out, rw (found, p) refl, rw (same, q) refl)

-- After any puts on a new store, the list is of receipts, none of them undefined: those of the
-- latest `limit` ids in the order in which the ids were first put, the last one first. A receipt put
-- again for an id keeps the id's place.
pub list-put_all :
    (rs : List StoredReceipt) (limit : Option ℕ)
    → (out : List StoredReceipt) × (list limit (put_all rs empty_store) ≡ map (λ r. some r) out)
      × (map (λ r. r.receipt.intent_id) out
          ≡ take (Option.get_or limit 50) (reverse (first_ids [] rs)))
unfolding list
list-put_all rs limit =
    let s = put_all rs empty_store in
    let (same, found) = put_all-IsKeyed rs empty_store (refl, tt) in
    let (out, p, q) =
      answers s (take (Option.get_or limit 50) (reverse s.order))
        (All-take (IsKnown s) _ _ (All-reverse (IsKnown s) s.order found)) in
    (
      out,
      p,
      q
          ∙ ap (λ l. take (Option.get_or limit 50) (reverse l))
              (order-put_all rs empty_store (refl, tt)),
    )

-- After any puts on a new store the count is that of the different ids.
pub count-put_all :
    (rs : List StoredReceipt) → count (put_all rs empty_store) ≡ length (first_ids [] rs)
unfolding count
count-put_all rs =
    let (same, found) = put_all-IsKeyed rs empty_store (refl, tt) in
    sym (length-keys _) ∙ ap (λ l. length l) (sym same ∙ order-put_all rs empty_store (refl, tt))
