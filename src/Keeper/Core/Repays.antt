-- ===== src/Keeper/Core/Repays.antt =====
-- The amount that `decide` of apps/keeper/src/core.ts repays, and the calldata that carries it.
use kp.Common.{
  ℕ, ◌+◌, ◌-◌, ◌*◌, ◌/◌, ◌≤◌, ◌<◌, ◌≡◌, none, some, arith, lit, drop, length, take, replicate,
  length-append, ◌^◌, zero, suc, refl, ap, Text,
}
use kp.Common.Numbers.{read_digits, show_base}
use kp.Common.Numbers.Printing.{read_digits-padded, length-show_base}
use kp.Keeper.Core.{decide, repay_calldata, pad_word}

-- The debt that the collateral backs at a health factor of one, times 10^18.
abbrev pub backing : ℕ → ℕ
backing collateral = collateral * 7500 / 10000 * 1_000_000_000_000_000_000

floor_le : (a t : ℕ) → 0 < t → a / t * t ≤ a
floor_le a t h = grind arith

lt_floor : (a t : ℕ) → 0 < t → a < (a / t + 1) * t
lt_floor a t h = grind arith

decide_below :
    (health_factor debt collateral floor target repay : ℕ)
    → decide health_factor debt collateral floor target ≡ some (some repay)
    → (health_factor < floor)
      × (0 < target)
      × (backing collateral / target < debt)
      × (repay ≡ debt - backing collateral / target)
unfolding decide
decide_below health_factor debt collateral floor target repay h = ground arith

-- The keeper acts only below the floor. What it repays is positive and no more than the debt, the
-- debt that is left meets the target health factor, and a repayment of one wei less would not.
pub decide_restores :
    (health_factor debt collateral floor target repay : ℕ)
    → decide health_factor debt collateral floor target ≡ some (some repay)
    → (health_factor < floor)
      × (0 < repay)
      × (repay ≤ debt)
      × ((debt - repay) * target ≤ backing collateral)
      × (backing collateral < (debt - repay + 1) * target)
decide_restores health_factor debt collateral floor target repay h =
    let (below, positive, more, same) =
      decide_below health_factor debt collateral floor target repay h in
    let left : debt - repay ≡ backing collateral / target = omega arith in
    (
      below,
      omega arith,
      omega arith,
      rw left (floor_le (backing collateral) target positive),
      rw left (lt_floor (backing collateral) target positive),
    )

idle :
    (health_factor debt collateral floor target : ℕ)
    → health_factor < floor
    → 0 < target
    → decide health_factor debt collateral floor target ≡ some none
    → debt ≤ backing collateral / target
unfolding decide
idle health_factor debt collateral floor target below positive h = ground arith

-- Below the floor, with a target above zero, the keeper does nothing only where the debt meets the
-- target health factor as it is.
pub decide_idle :
    (health_factor debt collateral floor target : ℕ)
    → health_factor < floor
    → 0 < target
    → decide health_factor debt collateral floor target ≡ some none
    → debt * target ≤ backing collateral
decide_idle health_factor debt collateral floor target below positive h =
    let enough : debt ≤ backing collateral / target =
      idle health_factor debt collateral floor target below positive h in
    grind (arith, floor_le (backing collateral) target positive)

length-replicate : (n a : ℕ) → length (replicate n a) ≡ n
length-replicate zero a = refl
length-replicate (suc n) a = ap suc (length-replicate n a)

-- A word of 32 bytes is 64 digits.
length-pad_word : (s : Text) → length s ≤ 64 → length (pad_word s) ≡ 64
unfolding pad_word
length-pad_word s h =
    let split = length-append (replicate (64 - length s) b'0') s in
    let zeros = length-replicate (64 - length s) b'0' in omega (arith, split, zeros, h)

read_digits-pad_word : (n : ℕ) → read_digits 16 (pad_word (show_base 16 n)) ≡ some n
unfolding pad_word
read_digits-pad_word n =
    read_digits-padded 16 (64 - length (show_base 16 n)) n (omega arith) (omega arith)

-- The calldata of a repayment is the selector of `repay` and one word of 32 bytes, which reads back as
-- the amount, for any amount that such a word can hold.
pub read_digits-repay_calldata :
    (amount : ℕ)
    → amount < 2 ^ 256
    → (take 10 (repay_calldata amount) ≡ lit "0x371fd8e6")
      × (length (drop 10 (repay_calldata amount)) ≡ 64)
      × (read_digits 16 (drop 10 (repay_calldata amount)) ≡ some amount)
unfolding repay_calldata lit
read_digits-repay_calldata amount h = (
  refl,
  length-pad_word (show_base 16 amount) (length-show_base 63 amount h),
  read_digits-pad_word amount,
)
