-- ===== src/Storage/Sort/Order.antt =====
-- The order that packages/storage/src/sort.ts puts values in, by keys.
use mathlib.Core.Path.{ap₂}
use sinterdb.Prelude.{
  ◌≡◌, refl, Bool, true, false, Option, none, some, List, [], ◌∷◌, arith, Str, Option-cases, inl,
  inr,
}
use sinterdb.Prelude.Int.{ℤ, pos}
use sinterdb.Protocol.Document.{
  Value, Fields, null, bool, number, bigint, str, date, invalid_date, binary, id, array, document,
  get,
}
use sinterdb.Storage.Compare.{
  Comparison, Numeric, nan, minus_infinity, finite, infinity, numeric, scale, less_than,
  is_nan_value,
}
use sinterdb.Storage.Compare.Order.{
  IsOrder, IsOrder-key, IsOrder-pull, compare_key, compare_units-key, IsOrder-ext, IsOrder-same,
  IsOrder-flip, IsOrder-or_else,
}
use sinterdb.Storage.Sort.Meaning.{numeric_key, key_of, resolved_rest, resolved}
use sinterdb.Storage.Sort.{
  SortKey, ranked, rank_of, compare_ordered, compare_numbers, compare_ranked, compare_sort_values,
  compare_document_values, directed, compare_by, to_number, sort_values, resolve_sort_value,
  resolve_sort_rest,
}

compare_finite :
    (a b : ℤ)
    → compare_ordered (finite a) (finite b)
      ≡ compare_key (numeric_key (finite a)) (numeric_key (finite b))
unfolding compare_ordered less_than compare_key
compare_finite a b = ground arith

compare_ordered-key :
    (a b : Bool)
    → compare_ordered (to_number a) (to_number b)
      ≡ compare_key (numeric_key (to_number a)) (numeric_key (to_number b))
compare_ordered-key true true = compare_finite (pos 1) (pos 1)
compare_ordered-key true false = compare_finite (pos 1) (pos 0)
compare_ordered-key false true = compare_finite (pos 0) (pos 1)
compare_ordered-key false false = compare_finite (pos 0) (pos 0)

compare_numbers-key :
    (a b : Numeric) → compare_numbers a b ≡ compare_key (numeric_key a) (numeric_key b)
unfolding compare_numbers compare_ordered is_nan_value less_than compare_key
compare_numbers-key (finite a) (finite b) = compare_finite a b
compare_numbers-key nan nan = refl
compare_numbers-key nan minus_infinity = refl
compare_numbers-key nan (finite b) = refl
compare_numbers-key nan infinity = refl
compare_numbers-key minus_infinity nan = refl
compare_numbers-key minus_infinity minus_infinity = refl
compare_numbers-key minus_infinity (finite b) = refl
compare_numbers-key minus_infinity infinity = refl
compare_numbers-key (finite a) nan = refl
compare_numbers-key (finite a) minus_infinity = refl
compare_numbers-key (finite a) infinity = refl
compare_numbers-key infinity nan = refl
compare_numbers-key infinity minus_infinity = refl
compare_numbers-key infinity (finite b) = refl
compare_numbers-key infinity infinity = refl

-- What follows the rank decides between keys of one rank.
pub compare_sort_values-key :
    (a b : Option Value)
    → compare_sort_values (ranked a) (ranked b) ≡ compare_key (key_of a) (key_of b)
unfolding compare_sort_values compare_ranked rank_of key_of compare_key
compare_sort_values-key (some (number a)) (some (number b)) =
    compare_numbers-key (numeric a) (numeric b)
compare_sort_values-key (some (number a)) (some (bigint b)) =
    compare_numbers-key (numeric a) (finite (scale b))
compare_sort_values-key (some (bigint a)) (some (number b)) =
    compare_numbers-key (finite (scale a)) (numeric b)
compare_sort_values-key (some (bigint a)) (some (bigint b)) =
    compare_numbers-key (finite (scale a)) (finite (scale b))
compare_sort_values-key (some (str a)) (some (str b)) = compare_units-key a b
compare_sort_values-key (some (bool a)) (some (bool b)) = compare_ordered-key a b
compare_sort_values-key (some (date a)) (some (date b)) = compare_numbers-key (finite a) (finite b)
compare_sort_values-key (some (date a)) (some invalid_date) = compare_numbers-key (finite a) nan
compare_sort_values-key (some invalid_date) (some (date b)) = compare_numbers-key nan (finite b)
compare_sort_values-key (some invalid_date) (some invalid_date) = compare_numbers-key nan nan
compare_sort_values-key (some (binary a)) (some (binary b)) = compare_units-key a b
compare_sort_values-key (some (id a)) (some (id b)) = compare_units-key a b
compare_sort_values-key none (some null) = refl
compare_sort_values-key (some null) (some null) = refl
compare_sort_values-key (some (array vs)) (some null) = refl
compare_sort_values-key (some (document fs)) (some null) = refl
compare_sort_values-key _ _ = refl

IsOrder-ranked : IsOrder (λ (a b : Option Value). compare_sort_values (ranked a) (ranked b))
IsOrder-ranked =
    IsOrder-ext (λ (a b : Option Value). compare_sort_values (ranked a) (ranked b))
      compare_sort_values-key (IsOrder-pull key_of compare_key IsOrder-key)

-- `compareDocumentValues` is a total order up to what it does not tell apart: turned round it gives
-- the opposite answer, it is transitive, and values that compare as equal compare alike with all others.
pub compare_document_values-IsOrder : IsOrder compare_document_values
unfolding compare_document_values
compare_document_values-IsOrder =
    IsOrder-pull (λ (v : Value). some v)
      (λ (a b : Option Value). compare_sort_values (ranked a) (ranked b)) IsOrder-ranked

resolve_sort_rest-ranked :
    (v : Value) (segments : List Str)
    → resolve_sort_rest v segments ≡ ranked (resolved_rest v segments)
unfolding resolve_sort_rest resolved_rest
resolve_sort_rest-ranked v [] = refl
resolve_sort_rest-ranked (document fs) (segment ∷ segments) = elim (Option-cases (get segment fs)) [
  | inl e ↦ rw (e, resolve_sort_rest, resolved_rest) refl
  | inr (v, e) ↦ rw (e, resolve_sort_rest, resolved_rest) (resolve_sort_rest-ranked v segments)
]
resolve_sort_rest-ranked null (segment ∷ segments) = refl
resolve_sort_rest-ranked _ (segment ∷ segments) = refl

pub resolve_sort_value-ranked :
    (segments : List Str) (fs : Fields)
    → resolve_sort_value fs segments ≡ ranked (resolved segments fs)
unfolding resolve_sort_value resolved
resolve_sort_value-ranked [] fs = refl
resolve_sort_value-ranked (segment ∷ segments) fs = elim (Option-cases (get segment fs)) [
  | inl e ↦ rw (e, resolve_sort_value, resolved) refl
  | inr (v, e) ↦ rw (e, resolve_sort_value, resolved) (resolve_sort_rest-ranked v segments)
]

abbrev pub compare_at : List Str → Fields → Fields → Comparison
compare_at segments a b =
    compare_sort_values (resolve_sort_value a segments) (resolve_sort_value b segments)

IsOrder-at : (segments : List Str) → IsOrder (compare_at segments)
IsOrder-at segments =
    IsOrder-ext (compare_at segments)
      (λ a b.
        ap₂ compare_sort_values (resolve_sort_value-ranked segments a)
          (resolve_sort_value-ranked segments b))
      (IsOrder-pull (resolved segments)
        (λ (a b : Option Value). compare_sort_values (ranked a) (ranked b)) IsOrder-ranked)

IsOrder-directed :
    (descending : Bool) (compare : Fields → Fields → Comparison)
    → IsOrder compare
    → IsOrder (λ a b. directed descending (compare a b))
IsOrder-directed false compare o = o
IsOrder-directed true compare o = IsOrder-flip compare o

-- The order of two documents under the keys of a sort.
abbrev pub compare_documents : List SortKey → Fields → Fields → Comparison
compare_documents keys a b = compare_by keys (sort_values keys a) (sort_values keys b)

pub IsOrder-documents : (keys : List SortKey) → IsOrder (compare_documents keys)
unfolding compare_by
IsOrder-documents [] = IsOrder-same
IsOrder-documents (key ∷ keys) =
    IsOrder-or_else (λ a b. directed key.descending (compare_at key.segments a b))
      (compare_documents keys)
      (IsOrder-directed key.descending (compare_at key.segments) (IsOrder-at key.segments))
      (IsOrder-documents keys)
