-- ===== src/Prelude/Text.antt =====
-- JavaScript strings as the lists of their UTF-16 code units, and byte arrays as lists of bytes.
use Prim.Native.Nat.{ℕ}
use Prim.Native.Char.{code}
use Prim.Native.String.{String}
use mathlib.Core.Path.{◌≡◌, refl}
use mathlib.Core.Bool.{Bool, true, false, ◌&&◌}
use mathlib.Core.List.{List, [], ◌∷◌}
use native.Mathlib.Omega.{arith}
use sinterdb.Prelude.Tests.{◌==◌, if◌then◌else◌}

abbrev pub Bytes : Type 0
Bytes = List ℕ

abbrev pub Str : Type 0
Str = List ℕ

-- The code units of a literal whose characters are all in the basic plane.
abbrev pub units : String → Str
units String.[] = []
units (String.◌∷◌ c s) = code c ∷ units s

-- `===` on strings, and the comparison of two byte arrays for equality.
unfoldable pub str_eq : List ℕ → List ℕ → Bool
str_eq [] [] = true
str_eq (x ∷ xs) (y ∷ ys) = (x == y) && str_eq xs ys
str_eq _ _ = false

pub str_eq→≡ : (xs ys : List ℕ) → str_eq xs ys ≡ true → xs ≡ ys
unfolding str_eq
str_eq→≡ [] [] h = refl
str_eq→≡ (x ∷ xs) (y ∷ ys) h = ground (arith, str_eq→≡ xs ys)
str_eq→≡ [] (y ∷ ys) h = cc
str_eq→≡ (x ∷ xs) [] h = cc

pub str_eq_refl : (xs : List ℕ) → str_eq xs xs ≡ true
unfolding str_eq
str_eq_refl [] = refl
str_eq_refl (x ∷ xs) = ground (arith, str_eq_refl xs)

-- `s.startsWith(c)` for one code unit `c`.
abbrev pub starts_with : ℕ → Str → Bool
starts_with c [] = false
starts_with c (x ∷ xs) = x == c

-- Whether a list of strings holds one.
unfoldable pub contains : List Str → Str → Bool
contains [] k = false
contains (x ∷ xs) k = if str_eq x k then true else contains xs k
