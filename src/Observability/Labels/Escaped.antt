-- ===== src/Observability/Labels/Escaped.antt =====
-- The escapes of packages/observability/src/registry.ts, read back.
use kp.Common.{
  ◌++◌, Bool, true, Option, none, some, ℕ, ◌≡◌, refl, ap, ◌∙◌, false, inl, inr, [], ◌∷◌, Text, ◌==◌,
  ==_iff, if◌then◌else◌, Bool-cases,
}
use kp.Observability.Labels.{replace_unit, escape_label_value}

-- What stands behind a backslash; another unit is no escape.
abbrev pub read_unit : ℕ → Option ℕ
read_unit c =
    if c == b'n' then some 10 else if c == 92 then some 92 else if c == 34 then some 34 else none

abbrev pub prepend : Option ℕ → Option (Text × Text) → Option (Text × Text)
prepend (some c) (some (value, rest)) = some (c ∷ value, rest)
prepend (some c) none = none
prepend none result = none

-- A reader of the exposition format behind the quote that opens a value: it reads up to the quote that
-- closes it, and gives the value and what follows. A line end inside, a backslash before another unit
-- and a value that is not closed are errors. The first argument is whether a backslash stands before.
unfoldable pub read_value : Bool → Text → Option (Text × Text)
read_value b [] = none
read_value true (c ∷ s) = let rest = read_value false s in prepend (read_unit c) rest
read_value false (c ∷ s) =
    let plain = read_value false s in
    let escaped = read_value true s in
    if c == 34
    then some ([], s)
    else if c == 10
    then none
    else if c == 92
    then escaped
    else prepend (some c) plain

read_value-plain :
    (c : ℕ) (s : Text)
    → (c == 92) ≡ false
    → (c == 10) ≡ false
    → (c == 34) ≡ false
    → read_value false (c ∷ s) ≡ prepend (some c) (read_value false s)
unfolding read_value
read_value-plain c s p q r = rw r (rw q (rw p refl))

escape-backslash : (s : Text) → escape_label_value (92 ∷ s) ≡ 92 ∷ 92 ∷ escape_label_value s
unfolding escape_label_value replace_unit
escape-backslash s = refl

escape-line : (s : Text) → escape_label_value (10 ∷ s) ≡ 92 ∷ b'n' ∷ escape_label_value s
unfolding escape_label_value replace_unit
escape-line s = refl

escape-quote : (s : Text) → escape_label_value (34 ∷ s) ≡ 92 ∷ 34 ∷ escape_label_value s
unfolding escape_label_value replace_unit
escape-quote s = refl

escape-plain :
    (c : ℕ) (s : Text)
    → (c == 92) ≡ false
    → (c == 10) ≡ false
    → (c == 34) ≡ false
    → escape_label_value (c ∷ s) ≡ c ∷ escape_label_value s
unfolding escape_label_value replace_unit
escape-plain c s p q r = rw p (rw q (rw r refl))

read_value-pair :
    (d u : ℕ) (s : Text)
    → read_unit d ≡ some u
    → read_value false (92 ∷ d ∷ s) ≡ prepend (some u) (read_value false s)
unfolding read_value
read_value-pair d u s h = rw h refl

read_value-close :
    (rest : Text) → read_value false (escape_label_value [] ++ 34 ∷ rest) ≡ some ([], rest)
unfolding read_value escape_label_value replace_unit
read_value-close rest = refl

-- A reader of the exposition format gets every label value back whole: it stops at the quote behind the
-- escaped value, and neither within it nor past it.
pub read_value-escape_label_value :
    (s rest : Text) → read_value false (escape_label_value s ++ 34 ∷ rest) ≡ some (s, rest)
read_value-escape_label_value [] rest = read_value-close rest
read_value-escape_label_value (c ∷ s) rest =
    let follow = escape_label_value s ++ 34 ∷ rest in
    let later = read_value-escape_label_value s rest in
    elim (Bool-cases (c == 92)) [
      | inl e ↦ rw ((==_iff c 92).0 e) (
          ap (λ t. read_value false (t ++ 34 ∷ rest)) (escape-backslash s)
          ∙ read_value-pair 92 92 follow refl
          ∙ ap (prepend (some 92)) later)
      | inr p ↦ elim (Bool-cases (c == 10)) [
        | inl e ↦ rw ((==_iff c 10).0 e) (
            ap (λ t. read_value false (t ++ 34 ∷ rest)) (escape-line s)
            ∙ read_value-pair b'n' 10 follow refl
            ∙ ap (prepend (some 10)) later)
        | inr q ↦ elim (Bool-cases (c == 34)) [
          | inl e ↦ rw ((==_iff c 34).0 e) (
              ap (λ t. read_value false (t ++ 34 ∷ rest)) (escape-quote s)
              ∙ read_value-pair 34 34 follow refl
              ∙ ap (prepend (some 34)) later)
          | inr r ↦
              ap (λ t. read_value false (t ++ 34 ∷ rest)) (escape-plain c s p q r)
              ∙ read_value-plain c follow p q r
              ∙ ap (prepend (some c)) later
        ]
      ]
    ]
