-- ===== src/Observability/Registry/Counted.antt =====
-- The counters of packages/observability/src/registry.ts along a run.
use kp.Common.{
  ℕ, ◌+◌, ◌≡◌, refl, sym, subst, ap, ◌∙◌, inl, inr, Option, none, some, List, [], ◌∷◌, Text,
  text_eq, text_eq_iff, if◌then◌else◌, Bool-cases, Option-cases, arith,
}
use kp.Common.Int.{ℤ}
use kp.Common.Maps.{lookup, store, lookup-store_same, lookup-store_other}
use kp.Observability.Labels.{Labels, series_key}
use kp.Observability.Registry.{Sample, Samples, counter_inc, counter_get}

abbrev pub value_of : Option Sample → ℕ
value_of none = 0
value_of (some s) = s.value

module _ (locale_compare : Text → Text → ℤ) where
  abbrev pub inc_all : List (Labels × ℕ) → Samples → Samples
  inc_all [] values = values
  inc_all ((labels, amount) ∷ rest) values =
      inc_all rest (counter_inc locale_compare labels amount values)

  -- The amounts of the calls whose labels have the key.
  abbrev pub total_for : Text → List (Labels × ℕ) → ℕ
  total_for key [] = 0
  total_for key ((labels, amount) ∷ rest) =
      (if text_eq key (series_key locale_compare labels) then amount else 0) + total_for key rest

  counter_inc-store :
      (labels : Labels) (amount : ℕ) (values : Samples)
      → (s : Sample) × (counter_inc locale_compare labels amount values
          ≡ store (series_key locale_compare labels) s values)
        × (s.value ≡ amount + value_of (lookup (series_key locale_compare labels) values))
  unfolding counter_inc
  counter_inc-store labels amount values =
      elim (Option-cases (lookup (series_key locale_compare labels) values)) [
        | inl new ↦ (
          record { labels = labels; value = amount },
          rw (counter_inc, new) refl,
          rw new (omega arith),
        )
        | inr (current, old) ↦ (
          record current { value = current.value + amount },
          rw (counter_inc, old) refl,
          rw old (omega arith),
        )
      ]

  value_after :
      (key : Text) (labels : Labels) (amount : ℕ) (values : Samples)
      → value_of (lookup key (counter_inc locale_compare labels amount values))
        ≡ (if text_eq key (series_key locale_compare labels) then amount else 0)
          + value_of (lookup key values)
  value_after key labels amount values =
      let k = series_key locale_compare labels in
      let (s, stores, value) = counter_inc-store labels amount values in
      elim (Bool-cases (text_eq key k)) [
        | inl e ↦
            let same = (text_eq_iff key k).0 e in
            rw (stores, e)
              (subst
                (λ x. value_of (lookup x (store k s values)) ≡ amount + value_of (lookup x values))
                (sym same) (ap value_of (lookup-store_same k s values) ∙ value))
        | inr e ↦
            rw (stores, e)
              (ap value_of
                  (lookup-store_other key k s values (λ same. cc (e, (text_eq_iff key k).1 same)))
                ∙ omega arith)
      ]

  run_total :
      (key : Text) (calls : List (Labels × ℕ)) (values : Samples)
      → value_of (lookup key (inc_all calls values))
        ≡ total_for key calls + value_of (lookup key values)
  run_total key [] values = omega arith
  run_total key ((labels, amount) ∷ calls) values =
      let after = counter_inc locale_compare labels amount values in
      let now = value_after key labels amount values in
      let later = run_total key calls after in omega (arith, now, later)

  counter_get_lem :
      (labels : Labels) (values : Samples)
      → counter_get locale_compare labels values
        ≡ value_of (lookup (series_key locale_compare labels) values)
  unfolding counter_get
  counter_get_lem labels values =
      elim (Option-cases (lookup (series_key locale_compare labels) values)) [
        | inl new ↦ rw (counter_get, new) refl
        | inr (s, old) ↦ rw (counter_get, old) refl
      ]

  -- After any calls on a new counter, its value at a label set is the sum of the amounts that were
  -- added under label sets of the same key, and no others.
  pub counter_get-inc_all :
      (labels : Labels) (calls : List (Labels × ℕ))
      → counter_get locale_compare labels (inc_all calls [])
        ≡ total_for (series_key locale_compare labels) calls
  unfolding lookup
  counter_get-inc_all labels calls =
      let total = run_total (series_key locale_compare labels) calls [] in
      counter_get_lem labels (inc_all calls []) ∙ omega (arith, total)
