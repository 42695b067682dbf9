-- ===== src/Storage/FieldIndex/Entries.antt =====
-- The sorted entries of one class in an index of packages/storage/src/indexing/field-index.ts: what
-- inserting, removing and reading a range do to them.
use mathlib.Core.Path.{subst}
use sinterdb.Prelude.{
  ℕ, zero, suc, ◌≡◌, refl, sym, ap, ◌∙◌, ◌⊎◌, inl, inr, Bool, true, false, not, Option, none, some,
  List, [], ◌∷◌, ◌++◌, ok, drop, All,
}
use sinterdb.Protocol.Document.{Value}
use sinterdb.Protocol.Encoder.{encode_document_value}
use sinterdb.Protocol.Canonical.{Lossless}
use sinterdb.Storage.Compare.{Comparison, less, same, greater, is_greater, is_less}
use sinterdb.Storage.Compare.Order.{compare_key, IsOrder-key, le_trans, le_less, not_less}
use sinterdb.Storage.Predicate.{compare_values}
use sinterdb.Storage.IndexValue.{
  ValueClass, value_class_of, OrderedEntry, below_zero, at_most_zero, is_below,
}
use sinterdb.Storage.FieldIndex.ClassOrder.{class_key, compare_values-key}

-- An entry of a class under the key of its value.
abbrev pub Stands : ValueClass → OrderedEntry → Type 0
Stands c e =
    (value_class_of e.value ≡ some c)
    × (encode_document_value e.value ≡ ok e.key)
    × Lossless e.value

abbrev pub AtMost : Value → Value → Type 0
AtMost a b = at_most_zero (compare_values a b) ≡ true

abbrev pub IsAscending : List OrderedEntry → Type 0
IsAscending [] = Unit
IsAscending (e ∷ es) = All (λ (x : OrderedEntry). AtMost e.value x.value) es × IsAscending es

abbrev pub Occurs : OrderedEntry → List OrderedEntry → Type 0
Occurs e [] = ⊥
Occurs e (x ∷ xs) = (x ≡ e) ⊎ Occurs e xs

pub All-Occurs {κ} :
    (P : OrderedEntry → Type κ) (e : OrderedEntry) (es : List OrderedEntry)
    → All P es
    → Occurs e es
    → P e
All-Occurs P e [] all at_e = elim at_e [ ]
All-Occurs P e (x ∷ xs) all (inl h) = subst P h all.0
All-Occurs P e (x ∷ xs) all (inr h) = All-Occurs P e xs all.1 h

pub Occurs-split :
    (e : OrderedEntry) (xs ys : List OrderedEntry) → Occurs e (xs ++ ys) → Occurs e xs ⊎ Occurs e ys
Occurs-split e [] ys h = inr h
Occurs-split e (x ∷ xs) ys (inl h) = inl (inl h)
Occurs-split e (x ∷ xs) ys (inr h) = elim (Occurs-split e xs ys h) [
  | inl k ↦ inl (inr k)
  | inr k ↦ inr k
]

pub Occurs-left : (e : OrderedEntry) (xs ys : List OrderedEntry) → Occurs e xs → Occurs e (xs ++ ys)
Occurs-left e [] ys h = elim h [ ]
Occurs-left e (x ∷ xs) ys (inl h) = inl h
Occurs-left e (x ∷ xs) ys (inr h) = inr (Occurs-left e xs ys h)

pub Occurs-right :
    (e : OrderedEntry) (xs ys : List OrderedEntry) → Occurs e ys → Occurs e (xs ++ ys)
Occurs-right e [] ys h = h
Occurs-right e (x ∷ xs) ys h = inr (Occurs-right e xs ys h)

pub All-drop {κ} :
    (P : OrderedEntry → Type κ) (n : ℕ) (es : List OrderedEntry) → All P es → All P (drop n es)
All-drop P zero es all = all
All-drop P (suc n) [] all = tt
All-drop P (suc n) (e ∷ es) all = All-drop P n es all.1

-- Comparisons in a class, by keys.
module _ (c : ValueClass) (a b : Value) (ha : value_class_of a ≡ some c)
    (hb : value_class_of b ≡ some c) where
  abbrev by_keys : Comparison
  by_keys = compare_key (class_key a) (class_key b)

  pub is_below-key : below_zero (compare_values a b) ≡ is_less by_keys
  is_below-key = rw (compare_values-key c a b ha hb) (step by_keys)
    where
      step : (k : Comparison) → below_zero (some k) ≡ is_less k
      step less = refl
      step same = refl
      step greater = refl

  pub at_most-key : at_most_zero (compare_values a b) ≡ not (is_greater by_keys)
  at_most-key = rw (compare_values-key c a b ha hb) (step by_keys)
    where
      step : (k : Comparison) → at_most_zero (some k) ≡ not (is_greater k)
      step less = refl
      step same = refl
      step greater = refl

not-true : (b : Bool) → not b ≡ true → b ≡ false
not-true false h = refl
not-true true h = cc

not-false : (b : Bool) → not b ≡ false → b ≡ true
not-false true h = refl
not-false false h = cc

module _ (c : ValueClass) (x y v : Value) (hx : value_class_of x ≡ some c)
    (hy : value_class_of y ≡ some c) (hv : value_class_of v ≡ some c) where
  pub AtMost-trans : AtMost x y → AtMost y v → AtMost x v
  AtMost-trans h k =
      at_most-key c x v hx hv
      ∙ ap not (
          le_trans compare_key IsOrder-key (class_key x) (class_key y) (class_key v)
            (not-true _ (sym (at_most-key c x y hx hy) ∙ h))
            (not-true _ (sym (at_most-key c y v hy hv) ∙ k)))

  pub AtMost-below : AtMost x y → is_below v y ≡ true → is_below v x ≡ true
  AtMost-below h k =
      is_below-key c x v hx hv
      ∙ le_less compare_key IsOrder-key (class_key x) (class_key y) (class_key v)
          (not-true _ (sym (at_most-key c x y hx hy) ∙ h)) (sym (is_below-key c y v hy hv) ∙ k)

pub not_below-AtMost :
    (c : ValueClass) (x v : Value)
    → value_class_of x ≡ some c
    → value_class_of v ≡ some c
    → is_below v x ≡ false
    → AtMost v x
not_below-AtMost c x v hx hv h =
    at_most-key c v x hv hx
    ∙ ap not (
        not_less compare_key IsOrder-key (class_key x) (class_key v)
          (sym (is_below-key c x v hx hv) ∙ h))

pub below-AtMost : (c : ValueClass) (x v : Value) → is_below v x ≡ true → AtMost x v
below-AtMost c x v h = step (compare_values x v) h
  where
    step : (k : Option Comparison) → below_zero k ≡ true → at_most_zero k ≡ true
    step (some less) h = refl
    step (some same) h = cc
    step (some greater) h = cc
    step none h = cc
