-- ===== src/Common/Numbers/Printing.antt =====
-- The print of numbers against their reading.
use Prim.Native.Nat.{ℕ, zero, suc, ◌+◌, ◌*◌, ◌/◌, ◌%◌, ◌^◌, ◌≤◌, ◌<◌}
use mathlib.Core.Path.{◌≡◌, refl, ap, ◌∙◌}
use mathlib.Core.Logic.{inl, inr}
use mathlib.Core.Bool.{true, false}
use mathlib.Core.Option.{some}
use mathlib.Core.List.{[], ◌∷◌, ◌++◌}
use native.Mathlib.Omega.{arith}
use kp.Common.Tests.{ltb, Bool-cases}
use kp.Common.Strings.{Text}
use kp.Common.Lists.{replicate, length}
use kp.Common.Numbers.{digit, digit_unit, read_from, read_digits, show_from, show_base}

pub digit-digit_unit : (d : ℕ) → d < 16 → digit (digit_unit d) ≡ d
unfolding digit
digit-digit_unit d h = ground arith

read_from-digit :
    (base acc d : ℕ) (s : Text)
    → base ≤ 16
    → d < base
    → read_from base acc (digit_unit d ∷ s) ≡ read_from base (acc * base + d) s
unfolding read_from
read_from-digit base acc d s small h =
    let same = digit-digit_unit d (omega arith) in
    let fits : ltb d base ≡ true = ground arith in rw (read_from, same, fits) refl

show_from_last :
    (base f n : ℕ) (out : Text)
    → ltb n base ≡ true
    → show_from base (suc f) n out ≡ digit_unit (n % base) ∷ out
unfolding show_from
show_from_last base f n out h = rw (show_from, h) refl

show_from_more :
    (base f n : ℕ) (out : Text)
    → ltb n base ≡ false
    → show_from base (suc f) n out ≡ show_from base f (n / base) (digit_unit (n % base) ∷ out)
unfolding show_from
show_from_more base f n out h = rw (show_from, h) refl

mod_lt : (n base : ℕ) → 2 ≤ base → n % base < base
mod_lt n base h = grind arith

divided : (n base : ℕ) → 2 ≤ base → n / base * base + n % base ≡ n
divided n base h = grind arith

div_lt : (n base f : ℕ) → 2 ≤ base → base ≤ n → n < suc f → n / base < f
div_lt n base f h k l = grind arith

mod_small : (n base : ℕ) → n < base → 0 * base + n % base ≡ n
mod_small n base h = grind arith

read_from-show_from :
    (base f n : ℕ) (out : Text)
    → 2 ≤ base
    → base ≤ 16
    → n < f
    → read_from base 0 (show_from base f n out) ≡ read_from base n out
read_from-show_from base zero n out two small h = absurd (omega arith)
read_from-show_from base (suc f) n out two small h = elim (Bool-cases (ltb n base)) [
  | inl last ↦
      let small_digit = mod_lt n base two in
      rw (show_from_last base f n out last) (
        read_from-digit base 0 (n % base) out small small_digit
        ∙ ap (λ k. read_from base k out) (mod_small n base (ground arith)))
  | inr more ↦ rw (show_from_more base f n out more) (
      read_from-show_from base f (n / base) (digit_unit (n % base) ∷ out) two small
        (div_lt n base f two (ground arith) h)
      ∙ read_from-digit base (n / base) (n % base) out small (mod_lt n base two)
      ∙ ap (λ k. read_from base k out) (divided n base two))
]

show_from-cons :
    (base f n c : ℕ) (out : Text) → (d : ℕ) × (t : Text) × (show_from base f n (c ∷ out) ≡ d ∷ t)
unfolding show_from
show_from-cons base zero n c out = (c, out, refl)
show_from-cons base (suc f) n c out = elim (Bool-cases (ltb n base)) [
  | inl last ↦ (digit_unit (n % base), c ∷ out, show_from_last base f n (c ∷ out) last)
  | inr more ↦
      let (d, t, same) = show_from-cons base f (n / base) (digit_unit (n % base)) (c ∷ out) in
      (d, t, show_from_more base f n (c ∷ out) more ∙ same)
]

show_base-cons : (base n : ℕ) → (d : ℕ) × (t : Text) × (show_base base n ≡ d ∷ t)
unfolding show_base
show_base-cons base n = elim (Bool-cases (ltb n base)) [
  | inl last ↦ (digit_unit (n % base), [], show_from_last base n n [] last)
  | inr more ↦
      let (d, t, same) = show_from-cons base n (n / base) (digit_unit (n % base)) [] in
      (d, t, show_from_more base n n [] more ∙ same)
]

read_from-show_base :
    (base n : ℕ) → 2 ≤ base → base ≤ 16 → read_from base 0 (show_base base n) ≡ some n
unfolding show_base read_from
read_from-show_base base n two small = read_from-show_from base (suc n) n [] two small (omega arith)

-- A number that is printed in a base reads back.
pub read_digits-show_base :
    (base n : ℕ) → 2 ≤ base → base ≤ 16 → read_digits base (show_base base n) ≡ some n
unfolding read_digits
read_digits-show_base base n two small =
    let (d, t, same) = show_base-cons base n in
    let read = rw same at (read_from-show_base base n two small) in rw same read

read_from-zeros :
    (base k : ℕ) (s : Text)
    → 2 ≤ base
    → base ≤ 16
    → read_from base 0 (replicate k b'0' ++ s) ≡ read_from base 0 s
read_from-zeros base zero s two small = refl
read_from-zeros base (suc k) s two small =
    read_from-digit base 0 0 (replicate k b'0' ++ s) small (omega arith)
    ∙ ap (λ a. read_from base a (replicate k b'0' ++ s)) (omega arith)
    ∙ read_from-zeros base k s two small

-- So it does behind zeros.
pub read_digits-padded :
    (base k n : ℕ)
    → 2 ≤ base
    → base ≤ 16
    → read_digits base (replicate k b'0' ++ show_base base n) ≡ some n
unfolding read_digits
read_digits-padded base zero n two small = read_digits-show_base base n two small
read_digits-padded base (suc k) n two small =
    read_from-zeros base (suc k) (show_base base n) two small ∙ read_from-show_base base n two small

power_step : (k : ℕ) → 16 ^ suc (suc k) ≡ 16 * 16 ^ suc k
power_step k = omega arith

length-show_from :
    (f n k : ℕ) (out : Text) → n < 16 ^ suc k → length (show_from 16 f n out) ≤ suc k + length out
unfolding show_from
length-show_from zero n k out h = omega arith
length-show_from (suc f) n zero out h = rw (show_from_last 16 f n out (ground arith)) (omega arith)
length-show_from (suc f) n (suc k) out h = elim (Bool-cases (ltb n 16)) [
  | inl last ↦ rw (show_from_last 16 f n out last) (omega arith)
  | inr more ↦
      let next = power_step k in
      let small : n / 16 < 16 ^ suc k = omega arith in
      rw (show_from_more 16 f n out more)
        (omega (arith, length-show_from f (n / 16) k (digit_unit (n % 16) ∷ out) small))
]

-- A number below 16^k has at most k hexadecimal digits.
pub length-show_base : (k n : ℕ) → n < 16 ^ suc k → length (show_base 16 n) ≤ suc k
unfolding show_base
length-show_base k n h = omega (arith, length-show_from (suc n) n k [] h)
