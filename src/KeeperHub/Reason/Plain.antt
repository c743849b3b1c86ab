-- ===== src/KeeperHub/Reason/Plain.antt =====
-- Text without spaces and colons under `trim` and `split` of packages/keeperhub/src/reason.ts.
use mathlib.Core.List.{reverse, reverse_aux, reverse-reverse}
use kp.Common.{
  ℕ, zero, suc, ◌<◌, ◌/◌, ◌%◌, ◌≡◌, refl, ap, ◌∙◌, true, false, some, [], ◌∷◌, ◌++◌, arith, All,
  All-append, Text, lit, ltb, ◌==◌, Bool-cases, inl, inr,
}
use kp.Common.Numbers.{is_space, trim, trim_start, digit_unit, show_from, show_base, show_ℕ}
use kp.KeeperHub.Reason.{reason_prefix, drop_prefix, extract_payload, split_colons}

-- A unit that trimming keeps and splitting does not see.
abbrev pub IsPlain : ℕ → Type 0
IsPlain c = (is_space c ≡ false) × (c == b':' ≡ false)

abbrev pub IsVisible : ℕ → Type 0
IsVisible c = is_space c ≡ false

pub trim_start_visible : (s : Text) → All IsVisible s → trim_start s ≡ s
unfolding trim_start
trim_start_visible [] h = refl
trim_start_visible (c ∷ s) (h, hs) = rw h refl

pub All-reverse_aux : (P : ℕ → Type 0) (s t : Text) → All P s → All P t → All P (reverse_aux s t)
All-reverse_aux P [] t h k = k
All-reverse_aux P (c ∷ s) t (h, hs) k = All-reverse_aux P s (c ∷ t) hs (h, k)

pub trim_visible : (s : Text) → All IsVisible s → trim s ≡ s
unfolding trim
trim_visible s h =
    ap (λ t. reverse (trim_start (reverse t))) (trim_start_visible s h)
    ∙ ap reverse (trim_start_visible (reverse s) (All-reverse_aux IsVisible s [] h tt))
    ∙ reverse-reverse s

pub digit-IsPlain : (d : ℕ) → d < 10 → IsPlain (digit_unit d)
unfolding is_space
digit-IsPlain d h = (ground arith, ground arith)

pub show_from-IsPlain :
    (f n : ℕ) (out : Text) → All IsPlain out → All IsPlain (show_from 10 f n out)
unfolding show_from
show_from-IsPlain zero n out h = h
show_from-IsPlain (suc f) n out h =
    let digit_plain : IsPlain (digit_unit (n % 10)) = digit-IsPlain (n % 10) (omega arith) in
    elim (Bool-cases (ltb n 10)) [
      | inl last ↦ rw (show_from, last) (digit_plain, h)
      | inr more ↦
          rw (show_from, more)
            (show_from-IsPlain f (n / 10) (digit_unit (n % 10) ∷ out) (digit_plain, h))
    ]

pub show_ℕ-IsPlain : (n : ℕ) → All IsPlain (show_ℕ n)
unfolding show_ℕ show_base
show_ℕ-IsPlain n = show_from-IsPlain (suc n) n [] tt

pub IsVisible-of_IsPlain : (s : Text) → All IsPlain s → All IsVisible s
IsVisible-of_IsPlain [] h = tt
IsVisible-of_IsPlain (c ∷ s) ((h, _), hs) = (h, IsVisible-of_IsPlain s hs)

-- The fields of a text between colons.
pub split_colons_one : (s : Text) → All IsPlain s → split_colons s ≡ (s, [])
unfolding split_colons
split_colons_one [] h = refl
split_colons_one (c ∷ s) ((_, h), hs) =
    rw (split_colons, h) (ap (λ p. (c ∷ p.0, p.1)) (split_colons_one s hs))

pub split_colons-cons :
    (s t : Text)
    → All IsPlain s
    → split_colons (s ++ b':' ∷ t) ≡ (s, (split_colons t).0 ∷ (split_colons t).1)
unfolding split_colons
split_colons-cons [] t h = refl
split_colons-cons (c ∷ s) t ((_, h), hs) =
    rw (split_colons, h) (ap (λ p. (c ∷ p.0, p.1)) (split_colons-cons s t hs))

pub drop_prefix-append : (p s : Text) → drop_prefix p (p ++ s) ≡ some s
unfolding drop_prefix
drop_prefix-append [] s = refl
drop_prefix-append (c ∷ p) s =
    let same : c == c ≡ true = ground arith in rw (drop_prefix, same) (drop_prefix-append p s)

pub extract_payload-append :
    (s : Text) → All IsVisible s → extract_payload (reason_prefix ++ s) ≡ some s
unfolding extract_payload reason_prefix lit is_space
extract_payload-append s h =
    let all_visible : All IsVisible (reason_prefix ++ s) =
      All-append IsVisible reason_prefix s
        (refl, (refl, (refl, (refl, (refl, (refl, (refl, (refl, (refl, tt))))))))) h in
    rw
      (
        extract_payload,
        trim_visible (reason_prefix ++ s) all_visible,
        drop_prefix-append reason_prefix s,
      )
      refl
