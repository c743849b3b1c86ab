-- ===== src/Common/Doubles/Near.antt =====
-- Doubles that are near natural numbers.
use Prim.Native.Nat.{ℕ, zero, suc, ◌+◌, ◌*◌, ◌/◌, ◌%◌, ◌^◌, ◌≤◌, ◌<◌}
use mathlib.Core.Path.{◌≡◌, refl, ap, ◌∙◌}
use mathlib.Core.Logic.{◌⊎◌, inl, inr}
use mathlib.Core.Bool.{Bool, true, false, ◌&&◌, ◌||◌}
use mathlib.Core.Option.{none, some}
use native.Mathlib.Omega.{arith}
use kp.Common.Tests.{leb, ltb, ◌==◌, Bool-cases}
use kp.Common.Doubles.{overflow, round_to, nearest, rounded, double}

le_div : (k m n : ℕ) → 1 ≤ m → k * m ≤ n → k ≤ n / m
le_div k m n h l = grind arith

le_times : (k q m : ℕ) → 1 ≤ m → k ≤ q → k ≤ q * m
le_times k q m h l = grind arith

le-round_to : (k m n : ℕ) → 1 ≤ m → k * m ≤ n → k ≤ round_to m n
unfolding round_to
le-round_to k m n h l =
    let q = le_div k m n h l in
    elim (Bool-cases (ltb (2 * (n % m)) m || ((2 * (n % m) == m) && (n / m % 2 == 0)))) [
      | inl down ↦ rw (round_to, down) (le_times k (n / m) m h q)
      | inr up ↦ rw (round_to, up) (le_times k (n / m + 1) m h (omega arith))
    ]

doubled : (k m n : ℕ) → k ≤ 2 ^ 52 → ltb n (2 ^ 53 * m) ≡ false → k * (2 * m) ≤ n
doubled k m n small h = grind arith

le-nearest : (k f m n : ℕ) → k ≤ 2 ^ 52 → 1 ≤ m → k * m ≤ n → k ≤ nearest f m n
unfolding nearest
le-nearest k zero m n small h l = grind arith
le-nearest k (suc f) m n small h l = elim (Bool-cases (ltb n (2 ^ 53 * m))) [
  | inl here ↦ rw (nearest, here) (le-round_to k m n h l)
  | inr above ↦
      rw (nearest, above) (le-nearest k f (2 * m) n small (omega arith) (doubled k m n small above))
]

unbounded : (n : ℕ) → n < 2 ^ 53 → leb overflow n ≡ false
unfolding overflow
unbounded n h = ground arith

round_to_one : (n : ℕ) → round_to 1 n ≡ n
unfolding round_to
round_to_one n = ground arith

nearest_small : (f n : ℕ) → n < 2 ^ 53 → nearest (suc f) 1 n ≡ n
unfolding nearest
nearest_small f n h =
    let below : ltb n (2 ^ 53 * 1) ≡ true = ground arith in rw (nearest, below) (round_to_one n)

-- Small numbers are doubles.
pub double_small : (n : ℕ) → n < 2 ^ 53 → double n ≡ some n
unfolding double rounded
double_small n h = ap (λ b. rounded b n) (unbounded n h) ∙ ap some (nearest_small 971 n h)

rounded_le :
    (k n : ℕ) (b : Bool)
    → k ≤ 2 ^ 52
    → k ≤ n
    → (rounded b n ≡ none) ⊎ ((m : ℕ) × (rounded b n ≡ some m) × (k ≤ m))
unfolding rounded
rounded_le k n true small h = inl refl
rounded_le k n false small h =
    inr (nearest 972 1 n, refl, le-nearest k 972 1 n small (omega arith) (omega arith))

-- Rounding does not go below a small number.
pub double_le :
    (k n : ℕ) → k ≤ 2 ^ 52 → k ≤ n → (double n ≡ none) ⊎ ((m : ℕ) × (double n ≡ some m) × (k ≤ m))
unfolding double
double_le k n small h = rounded_le k n (leb overflow n) small h
