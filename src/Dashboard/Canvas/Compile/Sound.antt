-- ===== src/Dashboard/Canvas/Compile/Sound.antt =====
-- What the checks of `validate` in apps/dashboard/lib/canvas/compile.ts say of the values that are read.
use kp.Common.{
  ℕ, ◌≡◌, refl, sym, subst, ◌∙◌, ◌⊎◌, inl, inr, Bool, true, false, not, ◌&&◌, none, some, List, [],
  ◌∷◌, ◌++◌, Text, Bool-cases, Option-cases, all, All, arith, zero, suc, get_elem?, some-eq-some,
}
use kp.Common.Numbers.{trim, trim_start}
use kp.Common.Maps.{lookup}
use kp.Policy.Schema.{is_present}
use kp.Dashboard.Canvas.Blocks.{
  BlockKind, FieldFormat, BlockField, same_kind, same_kind-eq, spec_for,
}
use kp.Dashboard.Canvas.Compile.{
  Values, PlacedBlock, CompileIssue, first, value_in, value, is_bad, is_bad_hour, raw_of,
  field_issues, fields_issues, validate, of_kind, issues_of, structural_issues, is_no_error,
}

all-append :
    {A : Type 0} (p : A → Bool) (xs ys : List A) → all p (xs ++ ys) ≡ (all p xs && all p ys)
all-append p [] ys = refl
all-append p (x ∷ xs) ys = ground (arith, all-append p xs ys)

pub and_parts : (a b : Bool) → (a && b) ≡ true → (a ≡ true) × (b ≡ true)
and_parts true b h = (refl, h)
and_parts false b h = absurd (cc h)

no_error_parts :
    (xs ys : List CompileIssue)
    → all is_no_error (xs ++ ys) ≡ true
    → (all is_no_error xs ≡ true) × (all is_no_error ys ≡ true)
no_error_parts xs ys h =
    and_parts (all is_no_error xs) (all is_no_error ys) (sym (all-append is_no_error xs ys) ∙ h)

-- The checks of a field's format.
abbrev pub fits : FieldFormat → Text → Bool
fits format raw = not (is_bad format raw) && not (is_bad_hour format raw)

abbrev pub slot_ok : Values → Text → FieldFormat → Bool
slot_ok values key format = is_present (raw_of values key) && fits format (raw_of values key)

abbrev field_ok : Values → BlockField → Bool
field_ok values f = slot_ok values f.key f.format

unfoldable pub sound : BlockKind → Values → Bool
sound kind values = all (field_ok values) (spec_for kind).fields

field_issues_lem :
    (id title : Text) (values : Values) (f : BlockField)
    → all is_no_error (field_issues id title values f) ≡ true
    → field_ok values f ≡ true
unfolding field_issues
field_issues_lem id title values f h = elim (Bool-cases (is_present (raw_of values f.key))) [
  | inr e ↦ absurd (cc (rw (field_issues, e) at h))
  | inl e ↦ elim (Bool-cases (is_bad f.format (raw_of values f.key))) [
    | inl bad ↦ absurd (cc (rw (field_issues, e, bad) at h))
    | inr good ↦ elim (Bool-cases (is_bad_hour f.format (raw_of values f.key))) [
      | inl bad ↦ absurd (cc (rw (field_issues, e, good, bad) at h))
      | inr fine ↦ rw e (rw good (rw fine refl))
    ]
  ]
]

fields_issues_lem :
    (id title : Text) (values : Values) (fields : List BlockField)
    → all is_no_error (fields_issues id title values fields) ≡ true
    → all (field_ok values) fields ≡ true
unfolding fields_issues
fields_issues_lem id title values [] h = refl
fields_issues_lem id title values (f ∷ fields) h =
    let (now, later) =
      no_error_parts (field_issues id title values f) (fields_issues id title values fields) h in
    rw (field_issues_lem id title values f now) (fields_issues_lem id title values fields later)

abbrev pub IsSound : PlacedBlock → Type 0
IsSound b = sound b.kind b.values ≡ true

validate-IsSound :
    (blocks : List PlacedBlock) → all is_no_error (validate blocks) ≡ true → All IsSound blocks
unfolding validate sound
validate-IsSound [] h = tt
validate-IsSound (b ∷ blocks) h =
    let spec = spec_for b.kind in
    let (now, later) =
      no_error_parts (fields_issues b.id spec.title b.values spec.fields) (validate blocks) h in
    (fields_issues_lem b.id spec.title b.values spec.fields now, validate-IsSound blocks later)

pub deployable-IsSound :
    (blocks : List PlacedBlock) → all is_no_error (issues_of blocks) ≡ true → All IsSound blocks
unfolding issues_of
deployable-IsSound blocks h =
    validate-IsSound blocks (no_error_parts (validate blocks) (structural_issues blocks) h).0

-- A value that is checked is the one that is read.
pub value_in_lem :
    (values : Values) (key fallback : Text) (format : FieldFormat)
    → slot_ok values key format ≡ true
    → (is_present (value_in values key fallback) ≡ true)
      × (fits format (value_in values key fallback) ≡ true)
unfolding trim trim_start
value_in_lem values key fallback format h = elim (Option-cases (lookup key values)) [
  | inl missing ↦ absurd (cc (rw missing at h))
  | inr (raw, found) ↦
      let (p, q) = and_parts (is_present (trim raw)) (fits format (trim raw)) (rw found at h) in
      rw found (rw p (p, q))
]

pub un_not : (a : Bool) → (not (not a) && true) ≡ true → a ≡ true
un_not true h = refl
un_not false h = absurd (cc h)

-- The members of a kind have its fields.
pub of_kind-IsSound :
    (kind : BlockKind) (blocks : List PlacedBlock)
    → All IsSound blocks
    → All (λ b. sound kind b.values ≡ true) (of_kind kind blocks)
of_kind-IsSound kind [] is = tt
of_kind-IsSound kind (b ∷ blocks) (i, is) = elim (Bool-cases (same_kind b.kind kind)) [
  | inl e ↦ rw e (
    subst (λ k. sound k b.values ≡ true) (same_kind-eq b.kind kind e) i,
    of_kind-IsSound kind blocks is,
  )
  | inr e ↦ rw e (of_kind-IsSound kind blocks is)
]

pub first-IsSound :
    (kind : BlockKind) (blocks : List PlacedBlock)
    → All IsSound blocks
    → (first blocks kind ≡ none)
      ⊎ ((b : PlacedBlock) × (first blocks kind ≡ some b) × (sound kind b.values ≡ true))
unfolding first
first-IsSound kind [] is = inl refl
first-IsSound kind (b ∷ blocks) (i, is) = elim (Bool-cases (same_kind b.kind kind)) [
  | inl e ↦ inr (b, rw e refl, subst (λ k. sound k b.values ≡ true) (same_kind-eq b.kind kind e) i)
  | inr e ↦ rw e (first-IsSound kind blocks is)
]

-- A field of a block that is placed at most once fits its format, and so does what stands for it.
pub first_value :
    (kind : BlockKind) (key fallback : Text) (format : FieldFormat) (blocks : List PlacedBlock)
    → ((values : Values) → sound kind values ≡ true → slot_ok values key format ≡ true)
    → fits format fallback ≡ true
    → All IsSound blocks
    → fits format (value (first blocks kind) key fallback) ≡ true
first_value kind key fallback format blocks slot default is = elim (first-IsSound kind blocks is) [
  | inl missing ↦ rw missing default
  | inr (b, found, s) ↦ rw found (value_in_lem b.values key fallback format (slot b.values s)).1
]

-- The check of the field at an index.
pub slot_at :
    (values : Values) (fields : List BlockField) (i : ℕ) (f : BlockField)
    → get_elem? fields i ≡ some f
    → all (field_ok values) fields ≡ true
    → field_ok values f ≡ true
slot_at values [] i f g h = absurd (cc g)
slot_at values (f' ∷ fields) zero f g h =
    subst (λ x. field_ok values x ≡ true) (some-eq-some g)
      (and_parts (field_ok values f') (all (field_ok values) fields) h).0
slot_at values (f' ∷ fields) (suc i) f g h =
    slot_at values fields i f g (and_parts (field_ok values f') (all (field_ok values) fields) h).1
