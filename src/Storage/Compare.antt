-- ===== src/Storage/Compare.antt =====
-- Comparisons that return -1, 0 or 1, and what JavaScript's `<` says of numbers, strings and bytes.
pub mod Order
use Prim.Native.Nat.{max}
use sinterdb.Prelude.{
  ℕ, suc, ◌+◌, ◌-◌, ◌*◌, ◌^◌, Bool, true, false, List, [], ◌∷◌, ltb, ◌==◌, if◌then◌else◌,
}
use sinterdb.Prelude.Int.{ℤ, pos, negsuc, ltb_ℤ}
use sinterdb.Protocol.Number.{negative, exponent, fraction, signed, is_nan, is_finite}

pub data Comparison : Type 0 where
  less same greater : Comparison

abbrev pub flip : Comparison → Comparison
flip less = greater
flip same = same
flip greater = less

-- The tests `c > 0` and `c < 0`, and the choice `c !== 0 ? c : d`.
abbrev pub is_greater : Comparison → Bool
is_greater greater = true
is_greater same = false
is_greater less = false

abbrev pub is_less : Comparison → Bool
is_less less = true
is_less same = false
is_less greater = false

abbrev pub or_else : Comparison → Comparison → Comparison
or_else less c = less
or_else greater c = greater
or_else same c = c

abbrev pub compare_ℕ : ℕ → ℕ → Comparison
compare_ℕ a b = if ltb a b then less else if ltb b a then greater else same

abbrev pub compare_ℤ : ℤ → ℤ → Comparison
compare_ℤ a b = if ltb_ℤ a b then less else if ltb_ℤ b a then greater else same

-- Strings by their code units, and byte arrays: at the first difference, else by the lengths.
unfoldable pub compare_units : List ℕ → List ℕ → Comparison
compare_units [] [] = same
compare_units [] (y ∷ ys) = less
compare_units (x ∷ xs) [] = greater
compare_units (x ∷ xs) (y ∷ ys) = or_else (compare_ℕ x y) (compare_units xs ys)

-- A finite double is a multiple of 2 ^ -1074; this is the multiple.
unfoldable pub scaled : ℕ → ℤ
scaled b =
    signed (negative b)
      ((if exponent b == 0 then fraction b else 2 ^ 52 + fraction b) * 2 ^ (max (exponent b) 1 - 1))

abbrev pub scale : ℤ → ℤ
scale (pos n) = pos (n * 2 ^ 1074)
scale (negsuc n) = negsuc (suc n * 2 ^ 1074 - 1)

-- What a number or a bigint stands for, in multiples of 2 ^ -1074.
pub data Numeric : Type 0 where
  nan minus_infinity : Numeric
  finite : ℤ → Numeric
  infinity : Numeric

unfoldable pub numeric : ℕ → Numeric
numeric b =
    if is_nan b
    then nan
    else if is_finite b
    then finite (scaled b)
    else if negative b
    then minus_infinity
    else infinity

-- `left < right`; NaN is less than nothing and nothing is less than NaN.
unfoldable pub less_than : Numeric → Numeric → Bool
less_than (finite a) (finite b) = ltb_ℤ a b
less_than minus_infinity (finite b) = true
less_than minus_infinity infinity = true
less_than (finite a) infinity = true
less_than _ _ = false

unfoldable pub is_nan_value : Numeric → Bool
is_nan_value nan = true
is_nan_value _ = false
