-- ===== src/Gateway/Holds/Once.antt =====
-- Repeated resolution in the ledger of apps/gateway/src/holds.ts.
use kp.Common.{
  ◌≡◌, ◌≢◌, inl, inr, refl, ap, ◌∙◌, sym, subst, true, false, none, some, [], ◌∷◌, Text, text_eq,
  text_eq_iff, text_eq_refl, Bool-cases, Option-cases,
}
use kp.Gateway.Holds.{
  HoldStatus, held, Resolution, status_of, is_held, HoldRecord, Ledger, set, get, resolve,
}

text_eq-false : (s t : Text) → s ≢ t → text_eq s t ≡ false
text_eq-false s t h = elim (Bool-cases (text_eq s t)) [
  | inl e ↦ absurd (h ((text_eq_iff s t).0 e))
  | inr e ↦ e
]

pub differ : (s t : Text) → text_eq s t ≡ false → s ≢ t
differ s t h = λ e. cc (h, (text_eq_iff s t).1 e)

pub get-set_same : (r : HoldRecord) (l : Ledger) → get r.hold_id (set r l) ≡ some r
unfolding get set
get-set_same r [] = rw (text_eq_refl) refl
get-set_same r (s ∷ l) = elim (Bool-cases (text_eq r.hold_id s.hold_id)) [
  | inl e ↦ rw e (rw (text_eq_refl) refl)
  | inr e ↦ rw e (rw e (get-set_same r l))
]

pub get-set_other :
    (id : Text) (r : HoldRecord) (l : Ledger) → id ≢ r.hold_id → get id (set r l) ≡ get id l
unfolding get set
get-set_other id r [] other = rw (text_eq-false id r.hold_id other) refl
get-set_other id r (s ∷ l) other = elim (Bool-cases (text_eq r.hold_id s.hold_id)) [
  | inl e ↦
      let unlike = text_eq-false id r.hold_id other in
      let unlike' : text_eq id s.hold_id ≡ false =
        subst (λ t. text_eq id t ≡ false) ((text_eq_iff r.hold_id s.hold_id).0 e) unlike in
      rw e (rw (unlike, unlike') refl)
  | inr e ↦ rw e (rw (get-set_other id r l other) refl)
]

-- A record stands under its own id.
pub get-hold_id : (id : Text) (l : Ledger) (r : HoldRecord) → get id l ≡ some r → r.hold_id ≡ id
unfolding get
get-hold_id id [] r h = cc
get-hold_id id (s ∷ l) r h = elim (Bool-cases (text_eq id s.hold_id)) [
  | inl e ↦ let e' = (text_eq_iff id s.hold_id).0 e in let h' = rw e at h in cc
  | inr e ↦ get-hold_id id l r (rw e at h)
]

is_held→held : (s : HoldStatus) → is_held s ≡ true → s ≡ held
is_held→held HoldStatus.held h = refl
is_held→held HoldStatus.released h = cc
is_held→held HoldStatus.cancelled h = cc

abbrev pub resolved_as : Resolution → Text → HoldRecord → HoldRecord
resolved_as resolution at r = record r { status = status_of resolution; resolved_at = some at }

module _ (id : Text) (resolution : Resolution) (at : Text) (l : Ledger) where
  resolve_missing : get id l ≡ none → resolve id resolution at l ≡ (l, none)
  unfolding resolve
  resolve_missing missing = rw (resolve, missing) refl

  pub resolve_waiting :
      (r : HoldRecord)
      → get id l ≡ some r
      → is_held r.status ≡ true
      → resolve id resolution at l
        ≡ (set (resolved_as resolution at r) l, some (resolved_as resolution at r))
  unfolding resolve set
  resolve_waiting r found waits = rw (resolve, found, waits) refl

  pub resolve_settled :
      (r : HoldRecord)
      → get id l ≡ some r
      → is_held r.status ≡ false
      → resolve id resolution at l ≡ (l, none)
  unfolding resolve
  resolve_settled r found settled = rw (resolve, found, settled) refl

  -- What a hold that waits resolves to.
  returned_as :
      (r old : HoldRecord)
      → (resolve id resolution at l).1 ≡ some r
      → get id l ≡ some old
      → is_held old.status ≡ true
      → resolved_as resolution at old ≡ r
  returned_as r old h found waits = let taken = rw (resolve_waiting old found waits) at h in cc

  kept_under :
      (r old : HoldRecord)
      → (resolve id resolution at l).1 ≡ some r
      → get id l ≡ some old
      → is_held old.status ≡ true
      → get id (resolve id resolution at l).0 ≡ some r
  kept_under r old h found waits =
      let kept : get id (set (resolved_as resolution at old) l)
          ≡ some (resolved_as resolution at old) =
        subst
          (λ i.
            get i (set (resolved_as resolution at old) l) ≡ some (resolved_as resolution at old))
          (get-hold_id id l old found) (get-set_same (resolved_as resolution at old) l) in
      rw (resolve_waiting old found waits)
        (kept ∙ ap (λ x. some x) (returned_as r old h found waits))

  -- A hold that resolves was waiting. What is returned is its record with the new status and the
  -- time, and the ledger now has that record under the id.
  pub resolve-some :
      (r : HoldRecord)
      → (resolve id resolution at l).1 ≡ some r
      → (old : HoldRecord) × (get id l ≡ some old)
        × (old.status ≡ held)
        × (r ≡ record old { status = status_of resolution; resolved_at = some at })
        × (get id (resolve id resolution at l).0 ≡ some r)
  resolve-some r h = elim (Option-cases (get id l)) [
    | inl missing ↦ absurd (cc (rw (resolve_missing missing) at h))
    | inr (old, found) ↦ elim (Bool-cases (is_held old.status)) [
      | inl waits ↦ (
        old,
        found,
        is_held→held old.status waits,
        sym (returned_as r old h found waits),
        kept_under r old h found waits,
      )
      | inr settled ↦ absurd (cc (rw (resolve_settled old found settled) at h))
    ]
  ]

  -- Other holds are not touched.
  pub resolve-get_other :
      (other : Text) → other ≢ id → get other (resolve id resolution at l).0 ≡ get other l
  resolve-get_other other unlike = elim (Option-cases (get id l)) [
    | inl missing ↦ rw (resolve_missing missing) refl
    | inr (old, found) ↦ elim (Bool-cases (is_held old.status)) [
      | inl waits ↦ rw (resolve_waiting old found waits) (
          get-set_other other (resolved_as resolution at old) l
            (λ e. unlike (e ∙ get-hold_id id l old found)))
      | inr settled ↦ rw (resolve_settled old found settled) refl
    ]
  ]

pub not_held :
    (old : HoldRecord) (resolution : Resolution) (at : Text) (r : HoldRecord)
    → r ≡ record old { status = status_of resolution; resolved_at = some at }
    → is_held r.status ≡ false
not_held old Resolution.release at r same = rw same refl
not_held old Resolution.cancel at r same = rw same refl

-- The second attempt to resolve a hold finds it resolved, whatever it asks for, and leaves the
-- ledger as it is.
pub resolve_once :
    (id : Text) (first second : Resolution) (at later : Text) (l : Ledger) (r : HoldRecord)
    → (resolve id first at l).1 ≡ some r
    → resolve id second later (resolve id first at l).0 ≡ ((resolve id first at l).0, none)
resolve_once id first second at later l r h =
    let (old, _, _, same, found) = resolve-some id first at l r h in
    resolve_settled id second later (resolve id first at l).0 r found (not_held old first at r same)
