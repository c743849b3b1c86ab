-- ===== src/Common/Strings.antt =====
-- Text as the list of its UTF-16 code units, as a JavaScript string is.
use Prim.Native.Nat.{ℕ, ◌+◌}
use Prim.Native.Char.{code}
use Prim.Native.String.{String}
use mathlib.Core.Path.{◌≡◌, refl}
use mathlib.Core.Logic.{◌↔◌, inl, inr}
use mathlib.Core.Bool.{Bool, true, false, ◌&&◌, ◌||◌, or-true}
use mathlib.Core.List.{List, [], ◌∷◌}
use native.Mathlib.Omega.{arith}
use kp.Common.Lists.{OneOf}
use kp.Common.Tests.{Bool-cases, leb, ◌==◌, if◌then◌else◌}

abbrev pub Text : Type 0
Text = List ℕ

codes : String → Text
codes String.[] = []
codes (String.◌∷◌ c s) = code c ∷ codes s

-- A literal. Shut, so that proofs do not walk through messages.
unfoldable pub lit : String → Text
unfolding codes
lit s = codes s

unfoldable pub text_eq : Text → Text → Bool
text_eq [] [] = true
text_eq [] (_ ∷ _) = false
text_eq (_ ∷ _) [] = false
text_eq (a ∷ s) (b ∷ t) = a == b && text_eq s t

pub text_eq_iff : (s t : Text) → (text_eq s t ≡ true) ↔ (s ≡ t)
unfolding text_eq
text_eq_iff [] [] = (λ _. refl, λ _. refl)
text_eq_iff [] (b ∷ t) = (λ h. cc, λ h. cc)
text_eq_iff (a ∷ s) [] = (λ h. cc, λ h. cc)
text_eq_iff (a ∷ s) (b ∷ t) =
    (λ h. ground (arith, text_eq_iff s t), λ h. ground (arith, text_eq_iff s t))

pub text_eq_refl : (s : Text) → text_eq s s ≡ true
text_eq_refl s = (text_eq_iff s s).1 refl

-- `toLowerCase` on ASCII letters; other code units are kept.
abbrev pub lower_unit : ℕ → ℕ
lower_unit c = if leb b'A' c && leb c b'Z' then c + 32 else c

unfoldable pub lower : Text → Text
lower [] = []
lower (c ∷ s) = lower_unit c ∷ lower s

lower_unit_idempotent : (c : ℕ) → lower_unit (lower_unit c) ≡ lower_unit c
lower_unit_idempotent c = ground arith

pub lower_idempotent : (s : Text) → lower (lower s) ≡ lower s
unfolding lower
lower_idempotent [] = refl
lower_idempotent (c ∷ s) = ground (arith, lower_unit_idempotent c, lower_idempotent s)

unfoldable pub mem_text : Text → List Text → Bool
mem_text s [] = false
mem_text s (t ∷ ts) = text_eq s t || mem_text s ts

pub mem_text→OneOf : (s : Text) (ts : List Text) → mem_text s ts ≡ true → OneOf s ts
unfolding mem_text
mem_text→OneOf s [] h = cc
mem_text→OneOf s (t ∷ ts) h = elim (Bool-cases (text_eq s t)) [
  | inl same ↦ inl ((text_eq_iff s t).0 same)
  | inr other ↦ inr (mem_text→OneOf s ts (rw other at h))
]

pub OneOf→mem_text : (s : Text) (ts : List Text) → OneOf s ts → mem_text s ts ≡ true
unfolding mem_text
OneOf→mem_text s [] h = absurd h
OneOf→mem_text s (t ∷ ts) (inl e) = rw ((text_eq_iff s t).1 e) refl
OneOf→mem_text s (t ∷ ts) (inr h) = rw (OneOf→mem_text s ts h) (or-true (text_eq s t))
