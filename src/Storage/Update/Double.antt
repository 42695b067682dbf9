-- ===== src/Storage/Update/Double.antt =====
-- The sum of two JavaScript numbers, by their bit patterns: the exact sum, rounded to the nearest
-- double, ties to the even one.
use sinterdb.Prelude.{
  ℕ, zero, suc, ◌+◌, ◌*◌, ◌/◌, ◌%◌, ◌^◌, Bool, ◌&&◌, ◌||◌, ltb, ◌==◌, if◌then◌else◌,
}
use sinterdb.Prelude.Int.{ℤ, pos, negsuc, ◌+ℤ◌}
use sinterdb.Protocol.Number.{negative, is_nan, is_finite, negative_zero, canonical_nan}
use sinterdb.Storage.Compare.{scaled}

-- By how many bits a number is longer than a significand.
unfoldable pub excess : ℕ → ℕ → ℕ
excess zero n = 0
excess (suc fuel) n = let rest = excess fuel (n / 2) in if ltb n (2 ^ 53) then 0 else suc rest

unfoldable pub shifted : ℕ → ℕ → ℕ
shifted n bits =
    let half = n % 2 ^ bits * 2 in
    if ltb (2 ^ bits) half || ((half == 2 ^ bits) && (n / 2 ^ bits % 2 == 1))
    then n / 2 ^ bits + 1
    else n / 2 ^ bits

abbrev pub infinity_bits : ℕ
infinity_bits = 2047 * 2 ^ 52

-- The bits of n * 2 ^ -1074. A sum of two doubles has fewer than 2100 bits.
unfoldable pub nearest : ℕ → ℕ
nearest n =
    let bits = excess 2100 n in
    let result = bits * 2 ^ 52 + shifted n bits in
    if ltb result infinity_bits then result else infinity_bits

unfoldable pub rounded : Bool → ℤ → ℕ
rounded both_negative (pos zero) = if both_negative then negative_zero else 0
rounded both_negative (pos (suc n)) = nearest (suc n)
rounded both_negative (negsuc n) = 2 ^ 63 + nearest (suc n)

unfoldable pub add_numbers : ℕ → ℕ → ℕ
add_numbers a b =
    if is_nan a || is_nan b
    then canonical_nan
    else if is_finite a && is_finite b
    then rounded (negative a && negative b) (scaled a +ℤ scaled b)
    else if is_finite a
    then b
    else if is_finite b || (a == b)
    then a
    else canonical_nan
