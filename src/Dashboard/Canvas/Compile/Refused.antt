-- ===== src/Dashboard/Canvas/Compile/Refused.antt =====
-- When the schema of the policies refuses what the canvas of apps/dashboard/lib/canvas calls deployable.
use mathlib.Core.Path.{ap₂}
use kp.Common.{
  ◌>>=◌, ℕ, ◌≡◌, ◌≤◌, refl, sym, ap, ◌∙◌, inl, inr, Bool, true, false, not, ◌&&◌, Option, none,
  some, List, Text, lit, leb, ◌==◌, leb→le, le→leb, Bool-cases, arith, All,
}
use kp.Common.Numbers.{read_digits}
use kp.Common.Doubles.{overflow, rounded, double, number}
use kp.Common.Doubles.Near.{double_small, double_le}
use kp.Policy.Schema.{is_uint, is_positive, is_at_most, accepts_schedule, accepts}
use kp.Dashboard.Canvas.Blocks.{BlockKind, FieldFormat, spec_for}
use kp.Dashboard.Canvas.Compile.{
  Values, PlacedBlock, CompileOptions, first, value_in, value, schedule_of, document, compile,
}
use kp.Dashboard.Canvas.Compile.Sound.{
  sound, slot_ok, IsSound, deployable-IsSound, value_in_lem, first-IsSound, slot_at,
}
use kp.Dashboard.Canvas.Compile.Valid.{fits_carried, accepts-document}

abbrev counts_of : Option ℕ → Bool
counts_of none = false
counts_of (some n) = leb 1 n && not (leb overflow n)

-- Digits for a number from one up that does not overflow.
abbrev pub counts : Text → Bool
counts s = counts_of (read_digits 10 s)

abbrev is_number : ℕ → Option ℕ → Bool
is_number m none = false
is_number m (some n) = n == m

abbrev pub reads_as : ℕ → Text → Bool
reads_as m s = is_number m (read_digits 10 s)

-- A schedule from hour 24 on.
abbrev pub starts_late : Option PlacedBlock → Bool
starts_late none = false
starts_late (some b) = reads_as 24 (value_in b.values (lit "startHour") (lit "0"))

infinite_if : (b : Bool) (n : ℕ) → rounded b n ≡ none → not b ≡ false
unfolding rounded
infinite_if true n h = refl
infinite_if false n h = cc

finite_if : (b : Bool) (n : ℕ) {m : ℕ} → rounded b n ≡ some m → not b ≡ true
unfolding rounded
finite_if true n h = cc
finite_if false n h = refl

positive_double : (n : ℕ) → is_positive (double n) ≡ (leb 1 n && not (leb overflow n))
unfolding double
positive_double n = elim (Bool-cases (leb 1 n)) [
  | inr zero_read ↦
      let none_there : n ≡ 0 = ground arith in
      rw zero_read (
        ap (λ k. is_positive (double k)) none_there ∙ ap is_positive (double_small 0 (omega arith)))
  | inl more ↦ elim (double_le 1 n (omega arith) (leb→le 1 n more)) [
    | inl infinite ↦
        rw more (ap is_positive infinite ∙ sym (infinite_if (leb overflow n) n infinite))
    | inr (m, finite, k) ↦
        rw more (ap is_positive finite ∙ le→leb 1 m k ∙ sym (finite_if (leb overflow n) n finite))
  ]
]

positive_read : (o : Option ℕ) → is_positive (o >>= double) ≡ counts_of o
positive_read none = refl
positive_read (some n) = positive_double n

-- A number that the canvas has found to be an hour is the number read.
hour_double : (n : ℕ) → is_at_most 24 (double n) ≡ true → is_at_most 23 (double n) ≡ not (n == 24)
hour_double n h = elim (Bool-cases (leb n 24)) [
  | inl small ↦ ap (is_at_most 23) (double_small n (ground arith)) ∙ hour n small
  | inr more ↦ elim (double_le 25 n (omega arith) (ground arith)) [
    | inl infinite ↦ absurd (cc (sym h ∙ ap (is_at_most 24) infinite))
    | inr (m, finite, k) ↦ absurd (too_late m k (sym (ap (is_at_most 24) finite) ∙ h))
  ]
]
  where
    hour : (k : ℕ) → leb k 24 ≡ true → leb k 23 ≡ not (k == 24)
    hour k l = ground arith

    too_late : (m : ℕ) → 25 ≤ m → leb m 24 ≡ true → ⊥
    too_late m k l = ground arith

hour_read :
    (o : Option ℕ)
    → is_at_most 24 (o >>= double) ≡ true
    → is_at_most 23 (o >>= double) ≡ not (is_number 24 o)
hour_read none h = cc
hour_read (some n) h = hour_double n h

hour_parts : (a b : Bool) → (not false && not (not (a && b))) ≡ true → b ≡ true
hour_parts true true h = refl
hour_parts true false h = cc
hour_parts false b h = cc

hour_in :
    (values : Values) (key fallback : Text)
    → slot_ok values key FieldFormat.hours ≡ true
    → is_at_most 24 (number (value_in values key fallback)) ≡ true
hour_in values key fallback h =
    hour_parts (is_uint (value_in values key fallback)) _
      (value_in_lem values key fallback FieldFormat.hours h).1

schedule_left :
    (values : Values) (b : PlacedBlock)
    → b.values ≡ values
    → sound BlockKind.schedule values ≡ true
    → accepts_schedule (schedule_of (some b)) ≡ not (starts_late (some b))
unfolding sound spec_for
schedule_left values b same h =
    let slots = (spec_for BlockKind.schedule).fields in
    let start = hour_in values (lit "startHour") (lit "0") (slot_at values slots 0 _ refl h) in
    let end = hour_in values (lit "endHour") (lit "24") (slot_at values slots 1 _ refl h) in
    rw same (
      rw end (
        and_true _
        ∙ hour_read (read_digits 10 (value_in values (lit "startHour") (lit "0"))) start))
  where
    and_true : (a : Bool) → (a && true) ≡ a
    and_true true = refl
    and_true false = refl

schedule_lem :
    (blocks : List PlacedBlock)
    → All IsSound blocks
    → accepts_schedule (schedule_of (first blocks BlockKind.schedule))
      ≡ not (starts_late (first blocks BlockKind.schedule))
schedule_lem blocks is = elim (first-IsSound BlockKind.schedule blocks is) [
  | inl missing ↦ rw missing refl
  | inr (b, found, s) ↦ rw found (schedule_left b.values b refl s)
]

-- A canvas that is called deployable, with fields carried over that fit the schema, compiles to a policy
-- that the schema accepts exactly if the rate limit's seconds and its count are at least one and small
-- enough for a number, and the schedule does not start at hour 24.
pub compile-accepts :
    (blocks : List PlacedBlock) (options : CompileOptions)
    → (compile blocks options).deployable ≡ true
    → fits_carried options.carry_over ≡ true
    → accepts (compile blocks options).policy ≡ (
        counts (value (first blocks BlockKind.rate_limit) (lit "windowSeconds") (lit "3600"))
        && counts (value (first blocks BlockKind.rate_limit) (lit "maxIntents") (lit "1"))
        && not (starts_late (first blocks BlockKind.schedule)))
unfolding compile document
compile-accepts blocks options deployable carried =
    let rate = first blocks BlockKind.rate_limit in
    accepts-document blocks options deployable carried
    ∙ ap₂ (λ (a b : Bool). a && b)
        (ap₂ (λ (a b : Bool). a && b)
          (positive_read (read_digits 10 (value rate (lit "windowSeconds") (lit "3600"))))
          (positive_read (read_digits 10 (value rate (lit "maxIntents") (lit "1")))))
        (schedule_lem blocks (deployable-IsSound blocks deployable))
