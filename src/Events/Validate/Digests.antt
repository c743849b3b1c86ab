-- ===== src/Events/Validate/Digests.antt =====
-- The digests that packages/events/src/validate.ts accepts, as packages/receipts/src/hash.ts reads
-- and prints them.
use mathlib.Core.Bool.{and-eq-true_iff}
use kp.Common.{
  ℕ, zero, suc, ◌+◌, ◌*◌, ◌/◌, ◌%◌, ◌<◌, ◌≤◌, ◌≡◌, ◌≢◌, refl, true, ◌&&◌, some, [], ◌∷◌, Text,
  lower, lower_unit, ◌==◌, length, arith,
}
use kp.Common.Numbers.{digit}
use kp.Receipts.Hash.{Bytes, is_hex, hex_digit, hex_body, to_hex, parse_byte, read_bytes, from_hex}
use kp.Receipts.Hash.Hex.{parse_pair}
use kp.Events.Validate.{all_hex, hex_test}

is_hex_range : (c : ℕ) → is_hex c ≡ true → (48 ≤ c) × (c ≤ 102) × (c ≢ 88) × (digit c < 16)
unfolding digit
is_hex_range c h = ground arith

hex_digit-digit : (c : ℕ) → is_hex c ≡ true → hex_digit (digit c) ≡ lower_unit c
unfolding digit
hex_digit-digit c h = ground arith

parse_byte-is_hex :
    (c d : ℕ) → is_hex c ≡ true → is_hex d ≡ true → parse_byte c d ≡ some (digit c * 16 + digit d)
parse_byte-is_hex c d h k =
    let (p, q, r, s) = is_hex_range c h in
    let (p', q', r', s') = is_hex_range d k in parse_pair c d (p, q, r) (p', q', r') s s'

quotient : (a b : ℕ) → b < 16 → ((a * 16 + b) / 16 ≡ a) × ((a * 16 + b) % 16 ≡ b)
quotient a b h = (omega arith, omega arith)

printed_pair :
    (c d : ℕ) (bytes : Bytes) (s : Text)
    → is_hex c ≡ true
    → is_hex d ≡ true
    → hex_body bytes ≡ lower s
    → hex_body ((digit c * 16 + digit d) ∷ bytes) ≡ lower (c ∷ d ∷ s)
unfolding hex_body lower
printed_pair c d bytes s h k e =
    let (high, low) = quotient (digit c) (digit d) (is_hex_range d k).3 in
    rw (high, low, hex_digit-digit c h, hex_digit-digit d k, e) refl

-- Hex text of an even length is read as bytes, whose print is the text in lower case.
read_bytes-all_hex :
    (n : ℕ) (s : Text)
    → length s ≡ n + n
    → all_hex s ≡ true
    → (bytes : Bytes) × (read_bytes s ≡ some bytes)
      × (length bytes ≡ n)
      × (hex_body bytes ≡ lower s)
unfolding read_bytes all_hex hex_body lower
read_bytes-all_hex zero [] l h = ([], refl, refl, refl)
read_bytes-all_hex zero (c ∷ s) l h = absurd (omega (arith, l))
read_bytes-all_hex (suc n) [] l h = absurd (omega (arith, l))
read_bytes-all_hex (suc zero) (c ∷ []) l h = absurd (omega (arith, l))
read_bytes-all_hex (suc (suc n)) (c ∷ []) l h = absurd (omega (arith, l))
read_bytes-all_hex (suc n) (c ∷ d ∷ s) l h =
    let (p, t) = (and-eq-true_iff (is_hex c) _).0 h in
    let (q, k) = (and-eq-true_iff (is_hex d) _).0 t in
    let (bytes, r, m, e) = read_bytes-all_hex n s (omega (arith, l)) k in
    (
      (digit c * 16 + digit d) ∷ bytes,
      rw (parse_byte-is_hex c d p q, r) refl,
      omega (arith, m),
      printed_pair c d bytes s p q e,
    )

prefix_units : (c d : ℕ) → (c == b'0' && d == b'x') ≡ true → (c ≡ b'0') × (d ≡ b'x')
prefix_units c d h = ground arith

-- Text that passes the pattern and has 66 units is read as 32 bytes, and prints as its lower case.
pub from_hex-hex_test :
    (s : Text)
    → hex_test s ≡ true
    → length s ≡ 66
    → (bytes : Bytes) × (from_hex s ≡ some bytes) × (length bytes ≡ 32) × (to_hex bytes ≡ lower s)
unfolding hex_test from_hex to_hex lower
from_hex-hex_test [] h l = cc
from_hex-hex_test (c ∷ []) h l = cc
from_hex-hex_test (c ∷ d ∷ s) h l =
    let (t, k) = (and-eq-true_iff (c == b'0' && d == b'x') (all_hex s)).0 h in
    let (bytes, r, m, e) = read_bytes-all_hex 32 s (omega (arith, l)) k in
    let (zero_unit, x_unit) = prefix_units c d t in (bytes, r, m, rw (e, zero_unit, x_unit) refl)
