-- ===== src/Observability/Labels.antt =====
-- The label sets of packages/observability/src/registry.ts. An object is the list of its entries;
-- `localeCompare` is a parameter.
pub mod Escaped
use kp.Common.{ℕ, Bool, true, false, List, [], ◌∷◌, ◌++◌, map, Text, lit, ◌==◌, if◌then◌else◌}
use kp.Common.Int.{ℤ}
use kp.Policy.Evaluate.{sort_stable}
use kp.Receipts.Canonical.{join_with_comma}

abbrev pub Labels : Type 0
Labels = List (Text × Text)

-- `text.replace(/unit/g, replacement)`
unfoldable pub replace_unit : ℕ → Text → Text → Text
replace_unit u with_text [] = []
replace_unit u with_text (c ∷ s) =
    let rest = replace_unit u with_text s in if c == u then with_text ++ rest else c ∷ rest

-- A backslash, a line end and a quote are 92, 10 and 34.
unfoldable pub escape_label_value : Text → Text
unfolding replace_unit
escape_label_value value =
    replace_unit 34 (92 ∷ 34 ∷ [])
      (replace_unit 10 (92 ∷ b'n' ∷ []) (replace_unit 92 (92 ∷ 92 ∷ []) value))

unfoldable pub render_entry : Text × Text → Text
unfolding escape_label_value
render_entry (key, value) = key ++ (61 ∷ 34 ∷ escape_label_value value) ++ 34 ∷ []

module _ (locale_compare : Text → Text → ℤ) where
  unfoldable pub render_labels : Labels → Text
  unfolding render_entry
  render_labels [] = []
  render_labels (entry ∷ entries) =
      b'{'
        ∷ join_with_comma (
            map render_entry
              (sort_stable (λ (a b : Text × Text). locale_compare a.0 b.0) (entry ∷ entries)))
      ++ b'}' ∷ []

  unfoldable pub series_key : Labels → Text
  unfolding render_labels
  series_key labels = render_labels labels
