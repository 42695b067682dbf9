-- ===== src/Storage/Sort.antt =====
-- packages/storage/src/sort.ts. A direction is whether it is -1. `Array.prototype.sort` is stable, and
-- is modelled by insertion.
pub mod Meaning
pub mod Order
pub mod Laws
mod Tests
use sinterdb.Prelude.{
  ℕ, Bool, true, false, not, ◌&&◌, ◌||◌, Option, none, some, List, [], ◌∷◌, map, Str, Result, ok,
  ◌>>=◌, ◌>>◌, require, if◌then◌else◌, ◌==◌, ltb, length, contains,
}
use sinterdb.Prelude.Int.{ℤ}
use sinterdb.Protocol.Document.{
  Value, Fields, null, bool, number, bigint, str, date, invalid_date, binary, id, array, document,
  get,
}
use sinterdb.Storage.Errors.{StorageError, invalid_find_options}
use sinterdb.Storage.Compare.{
  Comparison, less, same, greater, flip, or_else, is_greater, compare_units, Numeric, nan, finite,
  numeric, scale, less_than, is_nan_value,
}
use sinterdb.Storage.IndexSpec.{split}
use sinterdb.Storage.Filter.{are_path_segments}

pub record SortKey : Type 0 where
  pub segments : List Str
  pub descending : Bool

pub record SortValue : Type 0 where
  pub rank : ℕ
  pub value : Option Value

abbrev pub rank_missing : ℕ
rank_missing = 0

abbrev pub rank_document : ℕ
rank_document = 9

unfoldable pub rank_of : Value → ℕ
rank_of null = 1
rank_of (number b) = 2
rank_of (bigint z) = 2
rank_of (str s) = 3
rank_of (binary bytes) = 4
rank_of (id bytes) = 5
rank_of (bool b) = 6
rank_of (date z) = 7
rank_of invalid_date = 7
rank_of (array vs) = 8
rank_of (document fs) = 9

-- The two objects that `resolveSortValue` returns.
abbrev pub ranked : Option Value → SortValue
ranked none = record { rank = rank_missing; value = none }
ranked (some v) = record { rank = rank_of v; value = some v }

unfoldable pub resolve_sort_rest : Value → List Str → SortValue
resolve_sort_rest v [] = ranked (some v)
resolve_sort_rest (document fs) (segment ∷ segments) = elim (get segment fs) [
  | none ↦ ranked none
  | some v ↦ resolve_sort_rest v segments
]
resolve_sort_rest _ (segment ∷ segments) = ranked none

unfoldable pub resolve_sort_value : Fields → List Str → SortValue
resolve_sort_value fs [] = ranked none
resolve_sort_value fs (segment ∷ segments) = elim (get segment fs) [
  | none ↦ ranked none
  | some v ↦ resolve_sort_rest v segments
]

unfoldable pub compare_ordered : Numeric → Numeric → Comparison
compare_ordered left right =
    if less_than left right then less else if less_than right left then greater else same

unfoldable pub compare_numbers : Numeric → Numeric → Comparison
compare_numbers left right =
    if is_nan_value left || is_nan_value right
    then (if is_nan_value left && is_nan_value right
        then same
        else if is_nan_value left
        then less
        else greater)
    else compare_ordered left right

abbrev pub to_number : Bool → Numeric
to_number false = finite (ℤ.pos 0)
to_number true = finite (ℤ.pos 1)

-- The switch on the rank, which the two values have in common.
unfoldable pub compare_ranked : Option Value → Option Value → Comparison
compare_ranked (some (number a)) (some (number b)) = compare_numbers (numeric a) (numeric b)
compare_ranked (some (number a)) (some (bigint b)) = compare_numbers (numeric a) (finite (scale b))
compare_ranked (some (bigint a)) (some (number b)) = compare_numbers (finite (scale a)) (numeric b)
compare_ranked (some (bigint a)) (some (bigint b)) =
    compare_numbers (finite (scale a)) (finite (scale b))
compare_ranked (some (str a)) (some (str b)) = compare_units a b
compare_ranked (some (bool a)) (some (bool b)) = compare_ordered (to_number a) (to_number b)
compare_ranked (some (date a)) (some (date b)) = compare_numbers (finite a) (finite b)
compare_ranked (some (date a)) (some invalid_date) = compare_numbers (finite a) nan
compare_ranked (some invalid_date) (some (date b)) = compare_numbers nan (finite b)
compare_ranked (some invalid_date) (some invalid_date) = compare_numbers nan nan
compare_ranked (some (binary a)) (some (binary b)) = compare_units a b
compare_ranked (some (id a)) (some (id b)) = compare_units a b
compare_ranked _ _ = same

unfoldable pub compare_sort_values : SortValue → SortValue → Comparison
compare_sort_values left right =
    if not (left.rank == right.rank)
    then (if ltb left.rank right.rank then less else greater)
    else compare_ranked left.value right.value

unfoldable pub compare_document_values : Value → Value → Comparison
compare_document_values left right = compare_sort_values (ranked (some left)) (ranked (some right))

unfoldable pub parse_entries : List Str → List (Str × Bool) → Result StorageError (List SortKey)
parse_entries seen [] = ok []
parse_entries seen ((path, descending) ∷ entries) = do
  require (not (length path == 0)) invalid_find_options
  require (not (contains seen path)) invalid_find_options
  require (are_path_segments (split path)) invalid_find_options
  keys ← parse_entries (path ∷ seen) entries
  ok (record { segments = split path; descending = descending } ∷ keys)

unfoldable pub parse_sort_specification : List (Str × Bool) → Result StorageError (List SortKey)
parse_sort_specification entries = do
  require (not (length entries == 0)) invalid_find_options
  parse_entries [] entries

-- `comparison * direction`.
abbrev pub directed : Bool → Comparison → Comparison
directed false c = c
directed true c = flip c

unfoldable pub compare_by : List SortKey → List SortValue → List SortValue → Comparison
compare_by (key ∷ keys) (l ∷ ls) (r ∷ rs) =
    or_else (directed key.descending (compare_sort_values l r)) (compare_by keys ls rs)
compare_by _ _ _ = same

-- `array.sort(compare)`.
module _ {ℓ} {A : Type ℓ} (compare : A → A → Comparison) where
  unfoldable pub insert_by : A → List A → List A
  insert_by x [] = x ∷ []
  insert_by x (y ∷ ys) = if is_greater (compare x y) then y ∷ insert_by x ys else x ∷ y ∷ ys

  unfoldable pub sort_by : List A → List A
  sort_by [] = []
  sort_by (x ∷ xs) = insert_by x (sort_by xs)

abbrev pub sort_values : List SortKey → Fields → List SortValue
sort_values keys doc = map (λ key. resolve_sort_value doc key.segments) keys

abbrev pub Decorated : Type 0
Decorated = List SortValue × Fields

abbrev pub compare_decorated : List SortKey → Decorated → Decorated → Comparison
compare_decorated keys left right = compare_by keys left.0 right.0

abbrev pub decorate : List SortKey → Fields → Decorated
decorate keys doc = (sort_values keys doc, doc)

abbrev pub undecorate : Decorated → Fields
undecorate entry = entry.1

unfoldable pub sort_documents : List SortKey → List Fields → List Fields
sort_documents keys docs =
    map undecorate (sort_by (compare_decorated keys) (map (decorate keys) docs))

unfoldable pub compile_sort : List (Str × Bool) → Result StorageError (List Fields → List Fields)
compile_sort specification = do
  keys ← parse_sort_specification specification
  ok (sort_documents keys)
