-- ===== src/Dashboard/Amounts.antt =====
-- `weiToEth` and `ethToWei` of apps/dashboard/lib/execute.ts. A thrown error of `ethToWei` is `none`.
use kp.Common.{
  ◌>>=◌, ℕ, suc, ◌+◌, ◌-◌, ◌*◌, ◌/◌, ◌%◌, ◌^◌, Bool, true, ◌&&◌, Option, none, some, [], ◌∷◌, ◌++◌,
  Text, lit, leb, ◌==◌, if◌then◌else◌, length, all, replicate,
}
use kp.Common.Int.{ℤ, pos, negsuc}
use kp.Common.Numbers.{trim, read_digits, big, negate, show_ℕ, show_ℤ}

abbrev pub is_digit : ℕ → Bool
is_digit c = leb b'0' c && leb c b'9'

-- `text.padStart(2, "0")`
unfoldable pub pad_two : Text → Text
pad_two s = replicate (2 - length s) b'0' ++ s

-- Division and remainder of bigints round toward zero.
unfoldable pub show_wei : ℤ → Text
unfolding pad_two
show_wei (pos n) =
    show_ℕ (n / 10 ^ 18) ++ (lit "." ++ (pad_two (show_ℕ (n % 10 ^ 18 / 10 ^ 16)) ++ lit " ETH"))
show_wei (negsuc m) =
    show_ℤ (negate (suc m / 10 ^ 18))
    ++ (lit "." ++ (pad_two (show_ℤ (negate (suc m % 10 ^ 18 / 10 ^ 16))) ++ lit " ETH"))

-- Text that is no number is given back.
unfoldable pub wei_to_eth : Text → Text
unfolding show_wei
wei_to_eth wei = elim (big wei) [ none ↦ wei | some value ↦ show_wei value ]

-- The parts of `text.split(".")` up to the second.
unfoldable pub before_dot : Text → Text
before_dot [] = []
before_dot (c ∷ s) = let rest = before_dot s in if c == b'.' then [] else c ∷ rest

unfoldable pub after_dot : Text → Option Text
after_dot [] = none
after_dot (c ∷ s) = let rest = after_dot s in if c == b'.' then some s else rest

abbrev pub is_fraction : Option Text → Bool
is_fraction none = true
is_fraction (some s) = all is_digit s && leb 1 (length s) && leb (length s) 18

-- The pattern of an amount.
unfoldable pub is_amount : Text → Bool
unfolding before_dot after_dot
is_amount s =
    all is_digit (before_dot s) && leb 1 (length (before_dot s)) && is_fraction (after_dot s)

abbrev pub or_empty : Option Text → Text
or_empty none = []
or_empty (some s) = s

-- `text.padEnd(18, "0")`
abbrev pub pad_end : Text → Text
pad_end s = s ++ replicate (18 - length s) b'0'

unfoldable pub amount_of : Text → Option ℕ
unfolding before_dot after_dot
amount_of s = do
  whole ← read_digits 10 (before_dot s)
  fraction ← read_digits 10 (pad_end (or_empty (after_dot s)))
  some (whole * 10 ^ 18 + fraction)

unfoldable pub eth_to_wei : Text → Option ℕ
unfolding is_amount amount_of
eth_to_wei input = if is_amount (trim input) then amount_of (trim input) else none
