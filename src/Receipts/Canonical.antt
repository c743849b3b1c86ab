-- ===== src/Receipts/Canonical.antt =====
-- packages/receipts/src/canonical.ts: RFC 8785 text of a JSON value, and its UTF-8 bytes. Numbers
-- are natural numbers and objects are plain, so that nothing throws.
pub mod Keys
mod Tests
use kp.Common.{
  ℕ, ◌+◌, ◌-◌, ◌*◌, ◌/◌, ◌%◌, Bool, true, false, ◌&&◌, ◌||◌, List, [], ◌∷◌, ◌++◌, Text, lit, ltb,
  leb, ◌==◌, if◌then◌else◌,
}
use kp.Common.Numbers.{show_ℕ}
use kp.KeeperHub.Json.{Json, null, bool, num, str, arr, obj, Items, nil, cons, Fields, end, field}
use kp.Receipts.Hash.{Bytes, hex_digit}

-- The comparison of strings, by code unit.
unfoldable pub text_lt : Text → Text → Bool
text_lt [] [] = false
text_lt [] (_ ∷ _) = true
text_lt (_ ∷ _) [] = false
text_lt (a ∷ s) (b ∷ t) = let rest = text_lt s t in if a == b then rest else ltb a b

-- `items.join(",")`
unfoldable pub join_with_comma : List Text → Text
join_with_comma [] = []
join_with_comma (s ∷ []) = s
join_with_comma (s ∷ t ∷ ts) = s ++ b',' ∷ join_with_comma (t ∷ ts)

is_high : ℕ → Bool
is_high c = leb 0xD800 c && leb c 0xDBFF

is_low : ℕ → Bool
is_low c = leb 0xDC00 c && leb c 0xDFFF

hex4 : ℕ → Text
hex4 c =
    hex_digit (c / 4096)
    ∷ hex_digit (c / 256 % 16)
    ∷ hex_digit (c / 16 % 16)
    ∷ hex_digit (c % 16)
    ∷ []

-- One code unit in a JSON string.
escape_unit : ℕ → Text
unfolding hex4
escape_unit c =
    if c == 34 || c == 92
    then 92 ∷ c ∷ []
    else if c == 8
    then 92 ∷ b'b' ∷ []
    else if c == 9
    then 92 ∷ b't' ∷ []
    else if c == 10
    then 92 ∷ b'n' ∷ []
    else if c == 12
    then 92 ∷ b'f' ∷ []
    else if c == 13
    then 92 ∷ b'r' ∷ []
    else if ltb c 32 || leb 0xD800 c && leb c 0xDFFF
    then 92 ∷ b'u' ∷ hex4 c
    else c ∷ []

-- A pair of surrogates stands as it is, a lone one is escaped.
unfoldable pub escape : Text → Text
unfolding is_high is_low escape_unit
escape [] = []
escape (c ∷ []) = escape_unit c
escape (c ∷ d ∷ s) =
    let pair = c ∷ d ∷ escape s in
    let single = escape_unit c ++ escape (d ∷ s) in if is_high c && is_low d then pair else single

-- `JSON.stringify(text)`
unfoldable pub quote : Text → Text
unfolding escape
quote s = 34 ∷ escape s ++ 34 ∷ []

-- `keys.sort()` on members that are serialized already.
unfoldable pub insert_member : Text × Text → List (Text × Text) → List (Text × Text)
insert_member m [] = m ∷ []
insert_member m (n ∷ ms) =
    let later = insert_member m ms in if text_lt n.0 m.0 then n ∷ later else m ∷ n ∷ ms

unfoldable pub sort_members : List (Text × Text) → List (Text × Text)
unfolding insert_member
sort_members [] = []
sort_members (m ∷ ms) = insert_member m (sort_members ms)

-- `${JSON.stringify(key)}:${child}` for each member.
unfoldable pub print_members : List (Text × Text) → List Text
print_members [] = []
print_members ((key, child) ∷ ms) = (quote key ++ b':' ∷ child) ∷ print_members ms

unfoldable mutual
  pub serialize : Json → Text
  serialize null = lit "null"
  serialize (bool b) = if b then lit "true" else lit "false"
  serialize (num n) = show_ℕ n
  serialize (str s) = quote s
  serialize (arr items) = b'[' ∷ join_with_comma (serialize_items items) ++ b']' ∷ []
  serialize (obj fields) =
      b'{' ∷ join_with_comma (print_members (sort_members (serialize_fields fields))) ++ b'}' ∷ []

  pub serialize_items : Items → List Text
  serialize_items nil = []
  serialize_items (cons v items) = serialize v ∷ serialize_items items

  pub serialize_fields : Fields → List (Text × Text)
  serialize_fields end = []
  serialize_fields (field key v fields) = (key, serialize v) ∷ serialize_fields fields

-- The bytes of a code point.
utf8_point : ℕ → Bytes
utf8_point n =
    if ltb n 0x80
    then n ∷ []
    else if ltb n 0x800
    then (0xC0 + n / 64) ∷ (0x80 + n % 64) ∷ []
    else if ltb n 0x10000
    then (0xE0 + n / 4096) ∷ (0x80 + n / 64 % 64) ∷ (0x80 + n % 64) ∷ []
    else (0xF0 + n / 0x40000) ∷ (0x80 + n / 4096 % 64) ∷ (0x80 + n / 64 % 64) ∷ (0x80 + n % 64) ∷ []

-- `TextEncoder.encode`; a lone surrogate becomes U+FFFD.
unfoldable pub utf8 : Text → Bytes
unfolding is_high is_low utf8_point
utf8 [] = []
utf8 (c ∷ []) = utf8_point (if leb 0xD800 c && leb c 0xDFFF then 0xFFFD else c)
utf8 (c ∷ d ∷ s) =
    let pair = utf8_point (0x10000 + (c - 0xD800) * 1024 + (d - 0xDC00)) ++ utf8 s in
    let single = utf8_point (if leb 0xD800 c && leb c 0xDFFF then 0xFFFD else c) ++ utf8 (d ∷ s) in
    if is_high c && is_low d then pair else single

unfoldable pub canonical_bytes : Json → Bytes
unfolding serialize utf8
canonical_bytes v = utf8 (serialize v)
