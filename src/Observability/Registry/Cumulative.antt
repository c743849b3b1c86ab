-- ===== src/Observability/Registry/Cumulative.antt =====
-- The histograms of packages/observability/src/registry.ts along a run.
use kp.Common.{
  ℕ, ◌+◌, ◌≡◌, ◌≢◌, refl, sym, subst, ap, ◌∙◌, inl, inr, Option, none, some, List, [], ◌∷◌, map,
  Text, text_eq, text_eq_iff, leb, length, select, if◌then◌else◌, Bool-cases, Option-cases, arith,
}
use kp.Common.Int.{ℤ}
use kp.Common.Maps.{lookup, store, lookup-store_same, lookup-store_other}
use kp.Observability.Labels.{Labels, series_key}
use kp.Observability.Registry.{Series, bump, zeros, new_series, observe_in, observe}

-- How many values are within a bound.
abbrev pub within : ℕ → List ℕ → ℕ
within bound values = length (select (λ v. leb v bound) values)

abbrev pub total : List ℕ → ℕ
total [] = 0
total (v ∷ values) = v + total values

-- The series of the values observed: for each bound the number of values within it, their sum and
-- their number.
abbrev pub IsTally : List ℕ → List ℕ → Series → Type 0
IsTally buckets values entry =
    (entry.counts ≡ map (λ b. within b values) buckets)
    × (entry.sum ≡ total values)
    × (entry.count ≡ length values)

within-cons :
    (b v : ℕ) (values : List ℕ)
    → within b (v ∷ values) ≡ (if leb v b then within b values + 1 else within b values)
within-cons b v values = elim (Bool-cases (leb v b)) [
  | inl e ↦ rw e (omega arith)
  | inr e ↦ rw e refl
]

bump_lem :
    (v : ℕ) (buckets values : List ℕ)
    → bump v buckets (map (λ b. within b values) buckets) ≡ map (λ b. within b (v ∷ values)) buckets
unfolding bump
bump_lem v [] values = refl
bump_lem v (b ∷ buckets) values =
    rw (bump_lem v buckets values)
      (ap (λ n. n ∷ map (λ b'. within b' (v ∷ values)) buckets) (sym (within-cons b v values)))

zeros_lem : (buckets : List ℕ) → zeros buckets ≡ map (λ b. within b []) buckets
zeros_lem [] = refl
zeros_lem (b ∷ buckets) = ap (λ l. 0 ∷ l) (zeros_lem buckets)

observe_in-IsTally :
    (buckets values : List ℕ) (v : ℕ) (entry : Series)
    → IsTally buckets values entry
    → IsTally buckets (v ∷ values) (observe_in buckets v entry)
unfolding observe_in
observe_in-IsTally buckets values v entry (c, s, n) =
    (ap (λ l. bump v buckets l) c ∙ bump_lem v buckets values, omega (arith, s), omega (arith, n))

module _ (locale_compare : Text → Text → ℤ) (buckets : List ℕ) where
  -- A run, the last observation first.
  abbrev pub observe_all : List (ℕ × Labels) → List (Text × Series)
  observe_all [] = []
  observe_all ((value, labels) ∷ earlier) =
      observe locale_compare buckets value labels (observe_all earlier)

  -- The values that were observed under a key.
  abbrev pub values_for : Text → List (ℕ × Labels) → List ℕ
  values_for key [] = []
  values_for key ((value, labels) ∷ earlier) =
      let rest = values_for key earlier in
      if text_eq key (series_key locale_compare labels) then value ∷ rest else rest

  -- What stands under a key: nothing where nothing was observed, or else, with a value at least, the
  -- tally.
  abbrev pub IsTallied : List ℕ → Option Series → Type 0
  IsTallied values none = values ≡ []
  IsTallied values (some entry) = (values ≢ []) × IsTally buckets values entry

  observe-store :
      (value : ℕ) (labels : Labels) (series : List (Text × Series)) (values : List ℕ)
      → IsTallied values (lookup (series_key locale_compare labels) series)
      → (entry : Series) × (observe locale_compare buckets value labels series
          ≡ store (series_key locale_compare labels) entry series)
        × IsTally buckets (value ∷ values) entry
  unfolding observe
  observe-store value labels series values h =
      let found_tally : (old : Series)
          → lookup (series_key locale_compare labels) series ≡ some old
          → (values ≢ []) × IsTally buckets values old =
        λ old found. rw found at h in
      elim (Option-cases (lookup (series_key locale_compare labels) series)) [
        | inl new ↦ (
          observe_in buckets value (new_series buckets labels),
          rw (observe, new) refl,
          observe_in-IsTally buckets values value (new_series buckets labels) (
              subst (λ vs. IsTally buckets vs (new_series buckets labels)) (sym (rw new at h))
                (zeros_lem buckets, refl, refl)),
        )
        | inr (old, found) ↦ (
          observe_in buckets value old,
          rw (observe, found) refl,
          observe_in-IsTally buckets values value old (found_tally old found).1,
        )
      ]

  -- After any observations on a new histogram, the series under a key counts for each bound the
  -- values observed under that key that do not exceed it, with their sum and their number; a key
  -- has a series exactly if there is an observation under it.
  pub observe_all-IsTallied :
      (key : Text) (run : List (ℕ × Labels))
      → IsTallied (values_for key run) (lookup key (observe_all run))
  unfolding lookup
  observe_all-IsTallied key [] = refl
  observe_all-IsTallied key ((value, labels) ∷ earlier) =
      let k = series_key locale_compare labels in
      let (entry, stores, tally) =
        observe-store value labels (observe_all earlier) (values_for k earlier)
          (observe_all-IsTallied k earlier) in
      elim (Bool-cases (text_eq key k)) [
        | inl e ↦
            let same = (text_eq_iff key k).0 e in
            rw (stores, e)
              (subst
                (λ x.
                  IsTallied (value ∷ values_for x earlier)
                    (lookup x (store k entry (observe_all earlier))))
                (sym same)
                (rw (lookup-store_same k entry (observe_all earlier))
                  ((λ none_seen. cc none_seen), tally)))
        | inr e ↦
            rw (stores, e)
              (subst (λ o. IsTallied (values_for key earlier) o)
                (sym (
                  lookup-store_other key k entry (observe_all earlier)
                    (λ same. cc (e, (text_eq_iff key k).1 same))))
                (observe_all-IsTallied key earlier))
      ]
