-- ===== src/Receipts/Hash/Hex.antt =====
-- `toHex` and `fromHex` of packages/receipts/src/hash.ts against each other.
use mathlib.Core.Path.{ap₂}
use kp.Common.{
  ◌≢◌, ◌≤◌, drop, >>=-eq-some, some-eq-some, ℕ, ◌+◌, ◌*◌, ◌/◌, ◌%◌, ◌<◌, ◌≡◌, refl, ap, sym, ◌∙◌,
  ◌++◌, All-append, true, false, some, [], ◌∷◌, Text, arith, All,
}
use kp.Common.Numbers.{digit, is_space}
use kp.Receipts.Hash.{Bytes, hex_digit, hex_body, to_hex, is_hex, parse_byte, read_bytes, from_hex}

abbrev pub AreBytes : Bytes → Type 0
AreBytes = All (λ (byte : ℕ). byte < 256)

pub digit-hex_digit : (n : ℕ) → n < 16 → digit (hex_digit n) ≡ n
unfolding digit
digit-hex_digit n h = ground arith

pub hex_digit_range :
    (n : ℕ) → n < 16 → (48 ≤ hex_digit n) × (hex_digit n ≤ 102) × (hex_digit n ≢ 88)
hex_digit_range n h = ground arith

space_low : (c : ℕ) → 48 ≤ c → c ≤ 102 → is_space c ≡ false
unfolding is_space
space_low c h k = ground arith

pub parse_pair :
    (c d : ℕ)
    → (48 ≤ c) × (c ≤ 102) × (c ≢ 88)
    → (48 ≤ d) × (d ≤ 102) × (d ≢ 88)
    → digit c < 16
    → digit d < 16
    → parse_byte c d ≡ some (digit c * 16 + digit d)
unfolding parse_byte
parse_pair c d h k p q = ground (arith, space_low c h.0 h.1)

parse-hex_digits :
    (n m : ℕ) → n < 16 → m < 16 → parse_byte (hex_digit n) (hex_digit m) ≡ some (n * 16 + m)
parse-hex_digits n m h k =
    let p = digit-hex_digit n h in
    let q = digit-hex_digit m k in
    parse_pair (hex_digit n) (hex_digit m) (hex_digit_range n h) (hex_digit_range m k) (omega arith)
      (omega arith)
    ∙ ap₂ (λ (a b : ℕ). some (a * 16 + b)) p q

read-hex_body : (bytes : Bytes) → AreBytes bytes → read_bytes (hex_body bytes) ≡ some bytes
unfolding read_bytes hex_body
read-hex_body [] h = refl
read-hex_body (byte ∷ bytes) (p, h) =
    rw (parse-hex_digits (byte / 16) (byte % 16) (omega arith) (omega arith))
      (rw (read-hex_body bytes h) (ap (λ (n : ℕ). some (n ∷ bytes)) (omega arith)))

-- For numbers below 256, reading what `toHex` prints gives them back.
pub from_hex-to_hex : (bytes : Bytes) → AreBytes bytes → from_hex (to_hex bytes) ≡ some bytes
unfolding from_hex to_hex
from_hex-to_hex bytes h = read-hex_body bytes h

parse_byte-lt : (c d : ℕ) {byte : ℕ} → parse_byte c d ≡ some byte → byte < 256
unfolding parse_byte
parse_byte-lt c d h = ground arith

read_bytes-AreBytes : (s : Text) {bytes : Bytes} → read_bytes s ≡ some bytes → AreBytes bytes
unfolding read_bytes
read_bytes-AreBytes [] h = rw (← some-eq-some h) tt
read_bytes-AreBytes (c ∷ []) h = cc
read_bytes-AreBytes (c ∷ d ∷ s) h =
    let (byte, p, k) = >>=-eq-some (parse_byte c d) _ h in
    let (rest, q, e) = >>=-eq-some (read_bytes s) _ k in
    rw (← some-eq-some e) (parse_byte-lt c d p, read_bytes-AreBytes s q)

-- Whatever text is read, the result is bytes.
pub from_hex-AreBytes : (hex : Text) {bytes : Bytes} → from_hex hex ≡ some bytes → AreBytes bytes
unfolding from_hex
from_hex-AreBytes hex h = read_bytes-AreBytes (drop 2 hex) h

-- A pair whose second unit is no hex digit, and no `x`, is read as its first digit alone.
parse_byte_loose :
    (c d : ℕ)
    → is_space c ≡ false
    → c ≢ b'-'
    → c ≢ b'+'
    → is_hex c ≡ true
    → is_hex d ≡ false
    → d ≢ b'x'
    → d ≢ b'X'
    → parse_byte c d ≡ some (digit c)
unfolding parse_byte
parse_byte_loose c d s m p h k x y = ground arith

digit_range :
    (c : ℕ) → is_hex c ≡ true → (is_space c ≡ false) × (c ≢ b'-') × (c ≢ b'+') × (digit c < 16)
unfolding digit is_space
digit_range c h = (ground arith, ground arith, ground arith, ground arith)

read-loose :
    (bytes : Bytes) (c d : ℕ)
    → AreBytes bytes
    → parse_byte c d ≡ some (digit c)
    → read_bytes (hex_body bytes ++ c ∷ d ∷ []) ≡ some (bytes ++ digit c ∷ [])
unfolding read_bytes hex_body
read-loose [] c d h loose = rw loose refl
read-loose (byte ∷ bytes) c d (p, h) loose =
    rw (parse-hex_digits (byte / 16) (byte % 16) (omega arith) (omega arith)) (
      rw (read-loose bytes c d h loose)
        (ap (λ (n : ℕ). some (n ∷ bytes ++ digit c ∷ [])) (omega arith)))

-- Text that is no hex is accepted: where bytes in hex are followed by a hex digit and a unit that is
-- neither a hex digit nor an x, the text is read, as the bytes and the digit's value, which is what
-- another text that is hex reads as.
pub from_hex_loose :
    (bytes : Bytes) (c d : ℕ)
    → AreBytes bytes
    → is_hex c ≡ true
    → is_hex d ≡ false
    → d ≢ b'x'
    → d ≢ b'X'
    → (from_hex (to_hex bytes ++ c ∷ d ∷ []) ≡ some (bytes ++ digit c ∷ []))
      × (from_hex (to_hex (bytes ++ digit c ∷ [])) ≡ from_hex (to_hex bytes ++ c ∷ d ∷ []))
unfolding from_hex to_hex
from_hex_loose bytes c d h k n x y =
    let (s, m, p, small) = digit_range c k in
    let loose = read-loose bytes c d h (parse_byte_loose c d s m p k n x y) in
    let all_bytes =
      All-append (λ (byte : ℕ). byte < 256) bytes (digit c ∷ []) h (omega arith, tt) in
    (loose, read-hex_body (bytes ++ digit c ∷ []) all_bytes ∙ sym loose)
