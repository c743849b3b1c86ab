-- ===== src/Observability/Registry.antt =====
-- The metrics of packages/observability/src/registry.ts. Values and bounds are natural numbers, so that
-- the error of a counter for a negative amount does not arise. A thrown error is `none`.
pub mod Counted
pub mod Cumulative
mod Tests
use mathlib.Core.Option
use kp.Common.{
  ℕ, zero, suc, ◌+◌, Bool, true, false, ◌||◌, Option, none, some, List, [], ◌∷◌, ◌++◌, map, Text,
  lit, text_eq, leb, ◌==◌, any, if◌then◌else◌,
}
use kp.Common.Int.{ℤ, sub_ℕ}
use kp.Common.Maps.{lookup, store}
use kp.Common.Numbers.{show_ℕ}
use kp.Policy.Evaluate.{sort_stable}
use kp.Observability.Labels.{Labels, render_labels, series_key}

-- A series of a counter or a gauge.
pub record Sample : Type 0 where
  pub labels : Labels
  pub value : ℕ

pub record Series : Type 0 where
  pub labels : Labels
  pub counts : List ℕ
  pub sum : ℕ
  pub count : ℕ

abbrev pub Samples : Type 0
Samples = List (Text × Sample)

-- The counts after one observation: one more for each bound that is not below the value.
unfoldable pub bump : ℕ → List ℕ → List ℕ → List ℕ
bump value [] counts = counts
bump value (bound ∷ bounds) [] = []
bump value (bound ∷ bounds) (n ∷ counts) =
    (if leb value bound then n + 1 else n) ∷ bump value bounds counts

abbrev pub zeros : List ℕ → List ℕ
zeros [] = []
zeros (bound ∷ bounds) = 0 ∷ zeros bounds

-- Whether two bounds in a row are the same.
unfoldable pub has_duplicate : List ℕ → Bool
has_duplicate [] = false
has_duplicate (a ∷ []) = false
has_duplicate (a ∷ b ∷ rest) = a == b || has_duplicate (b ∷ rest)

-- The constructor's bounds.
unfoldable pub bucket_bounds : List ℕ → Option (List ℕ)
unfolding has_duplicate
bucket_bounds buckets =
    let sorted = sort_stable sub_ℕ buckets in if has_duplicate sorted then none else some sorted

abbrev pub new_series : List ℕ → Labels → Series
new_series buckets labels = record { labels = labels; counts = zeros buckets; sum = 0; count = 0 }

unfoldable pub observe_in : List ℕ → ℕ → Series → Series
unfolding bump
observe_in buckets value entry = record entry {
  counts = bump value buckets entry.counts;
  sum = entry.sum + value;
  count = entry.count + 1;
}

abbrev pub head_or_zero : List ℕ → ℕ
head_or_zero [] = 0
head_or_zero (n ∷ ns) = n

abbrev pub tail_of : List ℕ → List ℕ
tail_of [] = []
tail_of (n ∷ ns) = ns

module _ (locale_compare : Text → Text → ℤ) where
  unfoldable pub counter_inc : Labels → ℕ → Samples → Samples
  counter_inc labels amount values =
      let key = series_key locale_compare labels in
      elim (lookup key values) [
        | some current ↦ store key (record current { value = current.value + amount }) values
        | none ↦ store key (record { labels = labels; value = amount }) values
      ]

  unfoldable pub counter_get : Labels → Samples → ℕ
  counter_get labels values = elim (lookup (series_key locale_compare labels) values) [
    | none ↦ 0
    | some s ↦ s.value
  ]

  unfoldable pub gauge_set : ℕ → Labels → Samples → Samples
  gauge_set value labels values =
      store (series_key locale_compare labels) (record { labels = labels; value = value }) values

  unfoldable pub gauge_get : Labels → Samples → Option ℕ
  gauge_get labels values =
      Option.map (λ (s : Sample). s.value) (lookup (series_key locale_compare labels) values)

  unfoldable pub observe : List ℕ → ℕ → Labels → List (Text × Series) → List (Text × Series)
  unfolding observe_in
  observe buckets value labels series =
      let key = series_key locale_compare labels in
      elim (lookup key series) [
        | some entry ↦ store key (observe_in buckets value entry) series
        | none ↦ store key (observe_in buckets value (new_series buckets labels)) series
      ]

  unfoldable pub sample_lines : Text → Samples → List Text
  sample_lines name [] = []
  sample_lines name ((key, s) ∷ rest) =
      (name ++ (render_labels locale_compare s.labels ++ b' ' ∷ show_ℕ s.value))
      ∷ sample_lines name rest

  -- A counter without a series still has a line.
  unfoldable pub counter_samples : Text → Samples → List Text
  unfolding sample_lines
  counter_samples name [] = (name ++ lit " 0") ∷ []
  counter_samples name (s ∷ rest) = sample_lines name (s ∷ rest)

  -- `{ ...labels, le: bound }`: a label that is there keeps its place.
  unfoldable pub bucket_lines : Text → Labels → List ℕ → List ℕ → List Text
  bucket_lines name labels [] counts = []
  bucket_lines name labels (bound ∷ bounds) counts =
      (name
        ++ (lit "_bucket"
            ++ (render_labels locale_compare (store (lit "le") (show_ℕ bound) labels)
                ++ b' ' ∷ show_ℕ (head_or_zero counts))))
      ∷ bucket_lines name labels bounds (tail_of counts)

  unfoldable pub series_lines : Text → List ℕ → Series → List Text
  unfolding bucket_lines
  series_lines name buckets entry =
      bucket_lines name entry.labels buckets entry.counts
      ++ ((name
            ++ (lit "_bucket"
                ++ (render_labels locale_compare (store (lit "le") (lit "+Inf") entry.labels)
                    ++ b' ' ∷ show_ℕ entry.count)))
          ∷ (name
              ++ (lit "_sum"
                  ++ (render_labels locale_compare entry.labels ++ b' ' ∷ show_ℕ entry.sum)))
          ∷ (name
              ++ (lit "_count"
                  ++ (render_labels locale_compare entry.labels ++ b' ' ∷ show_ℕ entry.count)))
          ∷ [])

  unfoldable pub histogram_samples : Text → List ℕ → List (Text × Series) → List Text
  unfolding series_lines
  histogram_samples name buckets [] = []
  histogram_samples name buckets ((key, entry) ∷ rest) =
      series_lines name buckets entry ++ histogram_samples name buckets rest

-- `lines.join(separator)`
unfoldable pub join_with : Text → List Text → Text
join_with separator [] = []
join_with separator (s ∷ []) = s
join_with separator (s ∷ t ∷ ts) = s ++ (separator ++ join_with separator (t ∷ ts))

unfoldable pub render_metric : Text → Text → Text → List Text → Text
unfolding join_with
render_metric name help kind samples =
    join_with (10 ∷ []) (
      (lit "# HELP " ++ (name ++ b' ' ∷ help)) ∷ (lit "# TYPE " ++ (name ++ b' ' ∷ kind)) ∷ samples)

-- A metric as the registry renders it: its name and its text.
abbrev pub Metrics : Type 0
Metrics = List (Text × Text)

unfoldable pub register : Text → Text → Metrics → Option Metrics
register name rendered metrics =
    if any (λ (m : Text × Text). text_eq m.0 name) metrics
    then none
    else some (metrics ++ (name, rendered) ∷ [])

unfoldable pub render : Metrics → Text
unfolding join_with
render metrics = join_with (10 ∷ 10 ∷ []) (map (λ (m : Text × Text). m.1) metrics) ++ 10 ∷ []
