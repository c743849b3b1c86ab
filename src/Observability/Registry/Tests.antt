-- ===== src/Observability/Registry/Tests.antt =====
-- Runs of a counter and a histogram, and each theorem at one of them.
use kp.Common.{ℕ, ◌≡◌, ◌++◌, false, some, List, [], ◌∷◌, Text, lit}
use kp.Common.Int.{ℤ, pos}
use kp.Common.Maps.{lookup}
use kp.Observability.Labels.{Labels, series_key, escape_label_value}
use kp.Observability.Labels.Escaped.{read_value, read_value-escape_label_value}
use kp.Observability.Registry.{counter_get}
use kp.Observability.Registry.Counted.{inc_all, total_for, counter_get-inc_all}
use kp.Observability.Registry.Cumulative.{observe_all, values_for, IsTallied, observe_all-IsTallied}

abbrev compare : Text → Text → ℤ
compare a b = pos 0

abbrev denied : Labels
denied = (lit "verdict", lit "DENY") ∷ []

abbrev calls : List (Labels × ℕ)
calls = (denied, 1) ∷ ([], 4) ∷ (denied, 2) ∷ []

counter_get-inc_all_example :
    counter_get compare denied (inc_all compare calls [])
    ≡ total_for compare (series_key compare denied) calls
counter_get-inc_all_example = counter_get-inc_all compare denied calls

abbrev run : List (ℕ × Labels)
run = (3, denied) ∷ (9, []) ∷ (5, denied) ∷ []

abbrev buckets : List ℕ
buckets = 1 ∷ 4 ∷ 8 ∷ []

observe_all-IsTallied_example :
    IsTallied compare buckets
      (values_for compare buckets (lit "") run)
      (lookup (lit "") (observe_all compare buckets run))
observe_all-IsTallied_example = observe_all-IsTallied compare buckets (lit "") run

read_value-escape_label_value_example :
    read_value false (escape_label_value (92 ∷ 10 ∷ 34 ∷ b'n' ∷ []) ++ 34 ∷ lit "}")
    ≡ some (92 ∷ 10 ∷ 34 ∷ b'n' ∷ [], lit "}")
read_value-escape_label_value_example =
    read_value-escape_label_value (92 ∷ 10 ∷ 34 ∷ b'n' ∷ []) (lit "}")
