-- ===== src/Receipts/Hash.antt =====
-- packages/receipts/src/hash.ts: hex text and byte order. A `Uint8Array` is a list of numbers below
-- 256. The hash function of the package @noble/hashes is a parameter where it is used.
pub mod Hex
pub mod Order
pub mod Case
use mathlib.Core.Option
use kp.Common.{
  ◌>>=◌, ℕ, ◌+◌, ◌-◌, ◌*◌, ◌/◌, ◌%◌, ◌<◌, Bool, true, false, ◌&&◌, ◌||◌, Option, none, some, List,
  [], ◌∷◌, ◌++◌, Text, ltb, leb, ◌==◌, if◌then◌else◌, length, drop,
}
use kp.Common.Int.{ℤ, sub_ℕ}
use kp.Common.Numbers.{digit, is_space}

abbrev pub Bytes : Type 0
Bytes = List ℕ

-- `HEX[n]` for a number below 16.
abbrev pub hex_digit : ℕ → ℕ
hex_digit n = if ltb n 10 then b'0' + n else b'a' + (n - 10)

-- `byte >> 4` and `byte & 15` by division.
unfoldable pub hex_body : Bytes → Text
hex_body [] = []
hex_body (byte ∷ bytes) = hex_digit (byte / 16) ∷ hex_digit (byte % 16) ∷ hex_body bytes

unfoldable pub to_hex : Bytes → Text
unfolding hex_body
to_hex bytes = b'0' ∷ b'x' ∷ hex_body bytes

abbrev pub is_hex : ℕ → Bool
is_hex c = ltb (digit c) 16

-- `Number.parseInt` in base 16 of two code units, stored in a byte; `none` is NaN. It skips white
-- space, takes a sign and a prefix, and stops at the first unit that is no digit.
unfoldable pub parse_byte : ℕ → ℕ → Option ℕ
parse_byte c d =
    if is_space c
    then if is_hex d then some (digit d) else none
    else if c == b'-'
    then if is_hex d then some ((256 - digit d) % 256) else none
    else if c == b'+'
    then if is_hex d then some (digit d) else none
    else if c == b'0' && (d == b'x' || d == b'X')
    then none
    else if is_hex c
    then some (if is_hex d then digit c * 16 + digit d else digit c)
    else none

-- The loop over the body, two units at a time. `none` is the error for an odd length or a NaN; the
-- source tests the length before the loop, and either error ends it.
unfoldable pub read_bytes : Text → Option Bytes
unfolding parse_byte
read_bytes [] = some []
read_bytes (c ∷ []) = none
read_bytes (c ∷ d ∷ s) = do byte ← parse_byte c d; rest ← read_bytes s; some (byte ∷ rest)

unfoldable pub from_hex : Text → Option Bytes
unfolding read_bytes
from_hex hex = read_bytes (drop 2 hex)

-- The first difference, or that of the lengths.
unfoldable pub compare_bytes : Bytes → Bytes → ℤ
compare_bytes [] b = sub_ℕ 0 (length b)
compare_bytes (x ∷ a) [] = sub_ℕ (length (x ∷ a)) 0
compare_bytes (x ∷ a) (y ∷ b) = let rest = compare_bytes a b in if x == y then rest else sub_ℕ x y
