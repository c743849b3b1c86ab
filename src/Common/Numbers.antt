-- ===== src/Common/Numbers.antt =====
-- Numbers as JavaScript text: `BigInt(text)`, and the decimal print that a template makes.
pub mod Printing
use Prim.Native.Nat.{ℕ, zero, suc, ◌+◌, ◌-◌, ◌*◌, ◌/◌, ◌%◌}
use mathlib.Core.Bool.{Bool, ◌&&◌, ◌||◌}
use mathlib.Core.Option
use mathlib.Core.Option.{Option, none, some}
use mathlib.Core.List.{[], ◌∷◌, reverse}
use kp.Common.Tests.{leb, ltb, ◌==◌, if◌then◌else◌}
use kp.Common.Strings.{Text}
use kp.Common.Int.{ℤ, pos, negsuc}

-- White space and line ends of ECMAScript.
unfoldable pub is_space : ℕ → Bool
is_space c =
    (leb 9 c && leb c 13)
    || c == 32
    || c == 0xA0
    || c == 0x1680
    || (leb 0x2000 c && leb c 0x200A)
    || c == 0x2028
    || c == 0x2029
    || c == 0x202F
    || c == 0x205F
    || c == 0x3000
    || c == 0xFEFF

unfoldable pub trim_start : Text → Text
trim_start [] = []
trim_start (c ∷ s) = let rest = trim_start s in if is_space c then rest else c ∷ s

unfoldable pub trim : Text → Text
unfolding trim_start
trim s = reverse (trim_start (reverse (trim_start s)))

-- The value of a digit, in any base up to 16; 99 is no digit.
unfoldable pub digit : ℕ → ℕ
digit c =
    if leb b'0' c && leb c b'9'
    then c - b'0'
    else if leb b'a' c && leb c b'f'
    then c - b'a' + 10
    else if leb b'A' c && leb c b'F'
    then c - b'A' + 10
    else 99

unfoldable pub read_from : ℕ → ℕ → Text → Option ℕ
read_from base acc [] = some acc
read_from base acc (c ∷ s) =
    let rest = read_from base (acc * base + digit c) s in if ltb (digit c) base then rest else none

-- One digit at least.
unfoldable pub read_digits : ℕ → Text → Option ℕ
unfolding read_from
read_digits base [] = none
read_digits base (c ∷ s) = read_from base 0 (c ∷ s)

abbrev pub negate : ℕ → ℤ
negate zero = pos 0
negate (suc n) = negsuc n

-- A prefix `0x`, `0o`, `0b` in either case, and no sign before it.
read_prefixed : ℕ → Text → Option ℤ
unfolding read_digits
read_prefixed c s =
    if c == b'x' || c == b'X'
    then Option.map pos (read_digits 16 s)
    else if c == b'o' || c == b'O'
    then Option.map pos (read_digits 8 s)
    else if c == b'b' || c == b'B'
    then Option.map pos (read_digits 2 s)
    else Option.map pos (read_digits 10 (b'0' ∷ c ∷ s))

read_trimmed : Text → Option ℤ
unfolding read_prefixed
read_trimmed [] = some (pos 0)
read_trimmed (c ∷ []) = Option.map pos (read_digits 10 (c ∷ []))
read_trimmed (c ∷ d ∷ s) =
    if c == b'-'
    then Option.map negate (read_digits 10 (d ∷ s))
    else if c == b'+'
    then Option.map pos (read_digits 10 (d ∷ s))
    else if c == b'0'
    then read_prefixed d s
    else Option.map pos (read_digits 10 (c ∷ d ∷ s))

-- `BigInt(text)`; `none` is the thrown `SyntaxError`.
unfoldable pub big : Text → Option ℤ
unfolding read_trimmed trim
big s = read_trimmed (trim s)

-- A digit's code unit, in any base up to 16.
abbrev pub digit_unit : ℕ → ℕ
digit_unit d = if ltb d 10 then b'0' + d else b'a' + (d - 10)

unfoldable pub show_from : ℕ → ℕ → ℕ → Text → Text
show_from base zero n out = out
show_from base (suc f) n out =
    let out' = digit_unit (n % base) ∷ out in
    let rest = show_from base f (n / base) out' in if ltb n base then out' else rest

-- The print in a base. A number has at most as many digits as its value, and one.
unfoldable pub show_base : ℕ → ℕ → Text
unfolding show_from
show_base base n = show_from base (suc n) n []

unfoldable pub show_ℕ : ℕ → Text
unfolding show_base
show_ℕ n = show_base 10 n

unfoldable pub show_ℤ : ℤ → Text
unfolding show_ℕ
show_ℤ (pos n) = show_ℕ n
show_ℤ (negsuc n) = b'-' ∷ show_ℕ (suc n)
