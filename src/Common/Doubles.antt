-- ===== src/Common/Doubles.antt =====
-- `Number(text)` of a decimal text: the nearest double, ties to even.
pub mod Near
use Prim.Native.Nat.{ℕ, zero, suc, ◌+◌, ◌-◌, ◌*◌, ◌/◌, ◌%◌, ◌^◌}
use mathlib.Core.Bool.{Bool, true, false, ◌&&◌, ◌||◌}
use mathlib.Core.Option.{Option, none, some}
use kp.Common.Tests.{leb, ltb, ◌==◌, if◌then◌else◌}
use kp.Common.Options.{◌>>=◌}
use kp.Common.Strings.{Text}
use kp.Common.Numbers.{read_digits}

-- The least natural number that rounds to Infinity.
unfoldable pub overflow : ℕ
overflow = 2 ^ 1024 - 2 ^ 970

-- The multiple of a step that is nearest.
unfoldable pub round_to : ℕ → ℕ → ℕ
round_to m n =
    let q = n / m in
    let r = n % m in if ltb (2 * r) m || ((2 * r == m) && (q % 2 == 0)) then q * m else (q + 1) * m

-- The first step of which 2^53 exceed the number is that of the doubles around it. Each round
-- doubles the step.
unfoldable pub nearest : ℕ → ℕ → ℕ → ℕ
unfolding round_to
nearest zero m n = n
nearest (suc f) m n =
    let rest = nearest f (2 * m) n in if ltb n (2 ^ 53 * m) then round_to m n else rest

-- Infinity, or the double, which 972 rounds reach.
unfoldable pub rounded : Bool → ℕ → Option ℕ
unfolding nearest
rounded true n = none
rounded false n = some (nearest 972 1 n)

-- `none` is Infinity.
unfoldable pub double : ℕ → Option ℕ
unfolding rounded overflow
double n = rounded (leb overflow n) n

-- `none` is a number that is no natural number.
abbrev pub number : Text → Option ℕ
number s = read_digits 10 s >>= double
