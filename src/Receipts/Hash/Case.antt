-- ===== src/Receipts/Hash/Case.antt =====
-- `fromHex` of packages/receipts/src/hash.ts on letters of either case.
use kp.Common.{ℕ, ◌≡◌, refl, ◌||◌, [], ◌∷◌, Text, lower, lower_unit, ◌==◌, arith}
use kp.Common.Numbers.{digit, is_space}
use kp.Receipts.Hash.{parse_byte, read_bytes, from_hex}

digit-lower_unit : (c : ℕ) → digit (lower_unit c) ≡ digit c
unfolding digit
digit-lower_unit c = ground arith

is_space-lower_unit : (c : ℕ) → is_space (lower_unit c) ≡ is_space c
unfolding is_space
is_space-lower_unit c = ground arith

sign_lower :
    (c : ℕ)
    → ((lower_unit c == b'-') ≡ (c == b'-'))
      × ((lower_unit c == b'+') ≡ (c == b'+'))
      × ((lower_unit c == b'0') ≡ (c == b'0'))
sign_lower c = (ground arith, ground arith, ground arith)

x_lower :
    (c : ℕ) → ((lower_unit c == b'x') || (lower_unit c == b'X')) ≡ ((c == b'x') || (c == b'X'))
x_lower c = ground arith

parse_byte-lower_unit : (c d : ℕ) → parse_byte (lower_unit c) (lower_unit d) ≡ parse_byte c d
unfolding parse_byte
parse_byte-lower_unit c d =
    let (minus, plus, nought) = sign_lower c in
    rw
      (
        is_space-lower_unit c,
        digit-lower_unit c,
        digit-lower_unit d,
        minus,
        plus,
        nought,
        x_lower d,
      )
      refl

read_bytes-lower : (s : Text) → read_bytes (lower s) ≡ read_bytes s
unfolding read_bytes lower
read_bytes-lower [] = refl
read_bytes-lower (c ∷ []) = refl
read_bytes-lower (c ∷ d ∷ s) = rw (parse_byte-lower_unit c d, read_bytes-lower s) refl

-- Text that differs in the case of letters only is read as the same bytes.
pub from_hex-lower : (hex : Text) → from_hex (lower hex) ≡ from_hex hex
unfolding from_hex lower
from_hex-lower [] = refl
from_hex-lower (a ∷ []) = refl
from_hex-lower (a ∷ b ∷ s) = read_bytes-lower s
