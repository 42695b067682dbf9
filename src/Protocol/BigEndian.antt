-- ===== src/Protocol/BigEndian.antt =====
-- The big-endian integers of `DataView` and `Buffer`, as the lists of their bytes.
use native.Mathlib.Nat.{pow-suc}
use sinterdb.Prelude.{
  ℕ, zero, suc, ◌+◌, ◌-◌, ◌*◌, ◌/◌, ◌%◌, ◌^◌, ◌<◌, ◌≡◌, refl, ◌∙◌, [], ◌∷◌, ◌++◌, arith, length,
  length-append, Bytes, ltb, if◌then◌else◌,
}
use sinterdb.Prelude.Int.{ℤ, pos, negsuc}

-- The `k` low bytes of a number, the highest first: `setUint8`, `setUint16`, `setUint32`.
unfoldable pub be_bytes : ℕ → ℕ → Bytes
be_bytes zero x = []
be_bytes (suc k) x = be_bytes k (x / 256) ++ (x % 256) ∷ []

-- The number that bytes stand for, read from the left: `getUint16`, `getUint32`.
unfoldable pub be_from : ℕ → Bytes → ℕ
be_from acc [] = acc
be_from acc (b ∷ bs) = be_from (acc * 256 + b) bs

unfoldable pub be_value : Bytes → ℕ
unfolding be_from
be_value bs = be_from 0 bs

pub length-be_bytes : (k x : ℕ) → length (be_bytes k x) ≡ k
unfolding be_bytes
length-be_bytes zero x = refl
length-be_bytes (suc k) x =
    omega
      (arith, length-append (be_bytes k (x / 256)) ((x % 256) ∷ []), length-be_bytes k (x / 256))

be_from-append :
    (acc : ℕ) (bs : Bytes) (b : ℕ) → be_from acc (bs ++ b ∷ []) ≡ be_from acc bs * 256 + b
unfolding be_from
be_from-append acc [] b = refl
be_from-append acc (c ∷ bs) b = be_from-append (acc * 256 + c) bs b

div-lt : (x p : ℕ) → x < p * 256 → x / 256 < p
div-lt x p h = omega arith

-- What is written in `k` bytes is read back, if it fits.
pub be_value-be_bytes : (k x : ℕ) → x < 256 ^ k → be_value (be_bytes k x) ≡ x
unfolding be_value be_bytes be_from
be_value-be_bytes zero x h = omega arith
be_value-be_bytes (suc k) x h =
    be_from-append 0 (be_bytes k (x / 256)) (x % 256)
    ∙ omega
        (arith, be_value-be_bytes k (x / 256) (div-lt x (256 ^ k) (omega (arith, pow-suc 256 k))))

-- `setInt32` and `setBigInt64` store an integer modulo `m`, which is 2 ^ 32 or 2 ^ 64.
unfoldable pub to_unsigned : ℕ → ℤ → ℕ
to_unsigned m (pos n) = n % m
to_unsigned m (negsuc n) = m - 1 - n % m

-- `getInt32` and `getBigInt64`: the upper half of the range stands for the negative numbers.
unfoldable pub to_signed : ℕ → ℕ → ℤ
to_signed m x = if ltb x (m / 2) then pos x else negsuc (m - 1 - x)

abbrev pub FitsHalf : ℕ → ℤ → Type 0
FitsHalf m (pos n) = n < m / 2
FitsHalf m (negsuc n) = n < m / 2

abbrev pub u32 : ℕ
u32 = 2 ^ 32

abbrev pub u64 : ℕ
u64 = 2 ^ 64

pub to_signed-to_unsigned_32 : (z : ℤ) → FitsHalf u32 z → to_signed u32 (to_unsigned u32 z) ≡ z
unfolding to_signed to_unsigned
to_signed-to_unsigned_32 (pos n) h = ground arith
to_signed-to_unsigned_32 (negsuc n) h = ground arith

pub to_signed-to_unsigned_64 : (z : ℤ) → FitsHalf u64 z → to_signed u64 (to_unsigned u64 z) ≡ z
unfolding to_signed to_unsigned
to_signed-to_unsigned_64 (pos n) h = ground arith
to_signed-to_unsigned_64 (negsuc n) h = ground arith

pub to_unsigned-lt_32 : (z : ℤ) → to_unsigned u32 z < u32
unfolding to_unsigned
to_unsigned-lt_32 (pos n) = omega arith
to_unsigned-lt_32 (negsuc n) = omega arith

pub to_unsigned-lt_64 : (z : ℤ) → to_unsigned u64 z < u64
unfolding to_unsigned
to_unsigned-lt_64 (pos n) = omega arith
to_unsigned-lt_64 (negsuc n) = omega arith
