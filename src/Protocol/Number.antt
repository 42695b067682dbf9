-- ===== src/Protocol/Number.antt =====
-- JavaScript numbers as the bit patterns of their IEEE doubles: what the codec, the filters and the
-- sort read of them.
pub mod Exact
use Prim.Native.Nat.{ℕ}
use sinterdb.Prelude.{
  zero, suc, ◌+◌, ◌-◌, ◌*◌, ◌/◌, ◌%◌, ◌^◌, Bool, true, false, not, ◌&&◌, Option, none, some, ltb,
  leb, ◌==◌, if◌then◌else◌,
}
use sinterdb.Prelude.Int.{ℤ, pos, negsuc}

abbrev pub negative : ℕ → Bool
negative b = leb (2 ^ 63) b

abbrev pub exponent : ℕ → ℕ
exponent b = (b / 2 ^ 52) % 2048

abbrev pub fraction : ℕ → ℕ
fraction b = b % 2 ^ 52

-- `Number.isNaN` and `Number.isFinite`.
unfoldable pub is_nan : ℕ → Bool
is_nan b = (exponent b == 2047) && not (fraction b == 0)

unfoldable pub is_finite : ℕ → Bool
is_finite b = not (exponent b == 2047)

abbrev pub negative_zero : ℕ
negative_zero = 2 ^ 63

abbrev pub canonical_nan : ℕ
canonical_nan = 0x7ff8000000000000

-- All patterns of NaN are one JavaScript value: `getFloat64` and arithmetic give this one.
unfoldable pub canonical : ℕ → ℕ
canonical b = if is_nan b then canonical_nan else b

-- The integer m * 2 ^ (e - 1075), if it is one, for a significand with its leading bit set.
unfoldable pub normal_magnitude : ℕ → ℕ → Option ℕ
normal_magnitude m e =
    if leb 1075 e
    then some (m * 2 ^ (e - 1075))
    else if leb 1023 e && (m % 2 ^ (1075 - e) == 0)
    then some (m / 2 ^ (1075 - e))
    else none

-- The size of an integral double; `none` if `Number.isInteger` fails.
unfoldable pub magnitude : ℕ → Option ℕ
magnitude b =
    if exponent b == 0
    then (if fraction b == 0 then some 0 else none)
    else if exponent b == 2047
    then none
    else normal_magnitude (2 ^ 52 + fraction b) (exponent b)

abbrev pub signed : Bool → ℕ → ℤ
signed neg zero = pos 0
signed true (suc n) = negsuc n
signed false (suc n) = pos (suc n)

-- `BigInt(value)` of an integral double.
unfoldable pub integer_value : ℕ → Option ℤ
integer_value b = elim (magnitude b) [ none ↦ none | some n ↦ some (signed (negative b) n) ]

-- Doubles until the leading bit of a significand is set.
unfoldable pub normalise : ℕ → ℕ → ℕ → ℕ × ℕ
normalise zero n e = (n, e)
normalise (suc f) n e = elim (leb (2 ^ 52) n) [
  | true ↦ (n, e)
  | false ↦ normalise f (n * 2) (e - 1)
]

unfoldable pub of_magnitude : ℕ → ℕ
unfolding normalise
of_magnitude n = if n == 0 then 0 else let (m, e) = normalise 52 n 1075 in e * 2 ^ 52 + (m - 2 ^ 52)

-- `Number(value)` of an integer below 2 ^ 53 in size, where the conversion is exact.
unfoldable pub of_ℤ : ℤ → ℕ
unfolding of_magnitude
of_ℤ (pos n) = of_magnitude n
of_ℤ (negsuc n) = 2 ^ 63 + of_magnitude (suc n)

-- `Number.isSafeInteger`, of the integer that a double stands for.
abbrev pub is_safe : ℤ → Bool
is_safe (pos n) = ltb n (2 ^ 53)
is_safe (negsuc n) = ltb (suc n) (2 ^ 53)
