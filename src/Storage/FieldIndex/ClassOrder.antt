-- ===== src/Storage/FieldIndex/ClassOrder.antt =====
-- `compareSameClass` of packages/storage/src/indexing/values.ts orders the values of one class.
use mathlib.Core.Path.{subst}
use sinterdb.Prelude.{
  ◌≡◌, refl, ap, true, none, some, List, [], ◌∷◌, map, Bytes, Str, arith, Bool-cases, inl, inr, ℕ,
}
use sinterdb.Prelude.Int.{ℤ, pos}
use sinterdb.Protocol.Number.{is_finite}
use sinterdb.Protocol.Document.{Value, number, bigint, str, date, binary, id}
use sinterdb.Storage.Compare.{Comparison, compare_ℤ, scaled}
use sinterdb.Storage.Compare.Order.{compare_key, compare_units-key}
use sinterdb.Storage.Predicate.{compare_values}
use sinterdb.Storage.IndexValue.{
  ValueClass, strings, numbers, bigints, dates, binaries, ids, value_class_of,
}

-- What a value of a class is.
abbrev pub Shape : ValueClass → Value → Type 0
Shape strings v = (s : Str) × (v ≡ str s)
Shape numbers v = (b : ℕ) × (v ≡ number b) × (is_finite b ≡ true)
Shape bigints v = (z : ℤ) × (v ≡ bigint z)
Shape dates v = (z : ℤ) × (v ≡ date z)
Shape binaries v = (bytes : Bytes) × (v ≡ binary bytes)
Shape ids v = (bytes : Bytes) × (v ≡ id bytes)

pub Shape-of : (v : Value) (c : ValueClass) → value_class_of v ≡ some c → Shape c v
unfolding value_class_of
Shape-of (str s) c h = let e : strings ≡ c = cc in subst (λ c. Shape c (str s)) e (s, refl)
Shape-of (number b) c h = elim (Bool-cases (is_finite b)) [
  | inl f ↦
      let h' : some numbers ≡ some c = rw f at h in
      let e : numbers ≡ c = cc in subst (λ c. Shape c (number b)) e (b, refl, f)
  | inr f ↦ let h' : none ≡ some c = rw f at h in cc
]
Shape-of (bigint z) c h = let e : bigints ≡ c = cc in subst (λ c. Shape c (bigint z)) e (z, refl)
Shape-of (date z) c h = let e : dates ≡ c = cc in subst (λ c. Shape c (date z)) e (z, refl)
Shape-of (binary bytes) c h =
    let e : binaries ≡ c = cc in subst (λ c. Shape c (binary bytes)) e (bytes, refl)
Shape-of (id bytes) c h = let e : ids ≡ c = cc in subst (λ c. Shape c (id bytes)) e (bytes, refl)
Shape-of _ c h = cc

pub class_key : Value → List ℤ
class_key (str s) = map pos s
class_key (number b) = scaled b ∷ []
class_key (bigint z) = z ∷ []
class_key (date z) = z ∷ []
class_key (binary bytes) = map pos bytes
class_key (id bytes) = map pos bytes
class_key _ = []

compare_one : (a b : ℤ) → some (compare_ℤ a b) ≡ some (compare_key (a ∷ []) (b ∷ []))
unfolding compare_key
compare_one a b = ground arith

-- Values of one class are compared by their keys.
pub compare_values-key :
    (c : ValueClass) (a b : Value)
    → value_class_of a ≡ some c
    → value_class_of b ≡ some c
    → compare_values a b ≡ some (compare_key (class_key a) (class_key b))
unfolding compare_values class_key
compare_values-key c a b ha hb = by_shape c a b (Shape-of a c ha) (Shape-of b c hb)
  where
    by_shape :
        (c : ValueClass) (a b : Value)
        → Shape c a
        → Shape c b
        → compare_values a b ≡ some (compare_key (class_key a) (class_key b))
    by_shape strings a b (s, e) (t, f) = rw e (rw f (ap (λ k. some k) (compare_units-key s t)))
    by_shape numbers a b (s, e, p) (t, f, q) =
        rw e (rw f (rw p (rw q (compare_one (scaled s) (scaled t)))))
    by_shape bigints a b (s, e) (t, f) = rw e (rw f (compare_one s t))
    by_shape dates a b (s, e) (t, f) = rw e (rw f (compare_one s t))
    by_shape binaries a b (s, e) (t, f) = rw e (rw f (ap (λ k. some k) (compare_units-key s t)))
    by_shape ids a b (s, e) (t, f) = rw e (rw f (ap (λ k. some k) (compare_units-key s t)))

-- What compares at all with a value of a class is of the class.
pub class_of_compared :
    (c : ValueClass) (a b : Value) (k : Comparison)
    → value_class_of b ≡ some c
    → compare_values a b ≡ some k
    → value_class_of a ≡ some c
unfolding compare_values value_class_of
class_of_compared c a b k hb h = by_shape c b (Shape-of b c hb) h
  where
    to_string :
        (a : Value) (t : Str) → compare_values a (str t) ≡ some k → value_class_of a ≡ some strings
    to_string (str s) t h = refl
    to_string _ t h = cc

    to_number :
        (a : Value) (t : ℕ) → compare_values a (number t) ≡ some k → value_class_of a ≡ some numbers
    to_number (number s) t h = elim (Bool-cases (is_finite s)) [
      | inl e ↦ rw e refl
      | inr e ↦ let h' : none ≡ some k = rw e at h in cc
    ]
    to_number _ t h = cc

    to_bigint :
        (a : Value) (t : ℤ) → compare_values a (bigint t) ≡ some k → value_class_of a ≡ some bigints
    to_bigint (bigint s) t h = refl
    to_bigint _ t h = cc

    to_date :
        (a : Value) (t : ℤ) → compare_values a (date t) ≡ some k → value_class_of a ≡ some dates
    to_date (date s) t h = refl
    to_date _ t h = cc

    to_binary :
        (a : Value) (t : Bytes)
        → compare_values a (binary t) ≡ some k
        → value_class_of a ≡ some binaries
    to_binary (binary s) t h = refl
    to_binary _ t h = cc

    to_id : (a : Value) (t : Bytes) → compare_values a (id t) ≡ some k → value_class_of a ≡ some ids
    to_id (id s) t h = refl
    to_id _ t h = cc

    by_shape :
        (c : ValueClass) (b : Value)
        → Shape c b
        → compare_values a b ≡ some k
        → value_class_of a ≡ some c
    by_shape strings b (t, e) h = to_string a t (rw e at h)
    by_shape numbers b (t, e, p) h = to_number a t (rw e at h)
    by_shape bigints b (t, e) h = to_bigint a t (rw e at h)
    by_shape dates b (t, e) h = to_date a t (rw e at h)
    by_shape binaries b (t, e) h = to_binary a t (rw e at h)
    by_shape ids b (t, e) h = to_id a t (rw e at h)
