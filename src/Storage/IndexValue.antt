-- ===== src/Storage/IndexValue.antt =====
-- packages/storage/src/indexing/values.ts, and the sets, maps and sorted arrays of field-index.ts. Sets
-- and maps are lists in the order of insertion.
use sinterdb.Prelude.{
  ℕ, zero, suc, ◌+◌, ◌/◌, ◌%◌, ◌^◌, Bool, true, false, Option, none, some, List, [], ◌∷◌, ◌++◌,
  Bytes, Str, str_eq, if◌then◌else◌, ltb, length, get_elem?, take, drop, contains,
}
use sinterdb.Protocol.Errors.{Throws}
use sinterdb.Protocol.Number.{is_finite}
use sinterdb.Protocol.Document.{Value, number, bigint, str, date, binary, id}
use sinterdb.Protocol.Encoder.{encode_document_value}
use sinterdb.Storage.Compare.{Comparison, less, same, greater}
use sinterdb.Storage.Predicate.{compare_values}

pub data ValueClass : Type 0 where
  strings numbers bigints dates binaries ids : ValueClass

abbrev pub class_eq : ValueClass → ValueClass → Bool
class_eq strings strings = true
class_eq numbers numbers = true
class_eq bigints bigints = true
class_eq dates dates = true
class_eq binaries binaries = true
class_eq ids ids = true
class_eq _ _ = false

-- `unsorted.add(valueClass)`.
unfoldable pub class_add : ValueClass → List ValueClass → List ValueClass
class_add c [] = c ∷ []
class_add c (d ∷ cs) = if class_eq c d then d ∷ cs else d ∷ class_add c cs

-- The bytes, which the source keeps as a latin1 string.
abbrev pub canonical_key : Value → Throws Bytes
canonical_key value = encode_document_value value

unfoldable pub value_class_of : Value → Option ValueClass
value_class_of (str s) = some strings
value_class_of (number b) = if is_finite b then some numbers else none
value_class_of (bigint z) = some bigints
value_class_of (date z) = some dates
value_class_of (id bytes) = some ids
value_class_of (binary bytes) = some binaries
value_class_of _ = none

-- `compareSameClass(a, b)` is -1, 0, 1 or undefined; these are `< 0`, `<= 0` and `=== 0` of it.
abbrev pub below_zero : Option Comparison → Bool
below_zero (some less) = true
below_zero (some same) = false
below_zero (some greater) = false
below_zero none = false

abbrev pub at_most_zero : Option Comparison → Bool
at_most_zero (some less) = true
at_most_zero (some same) = true
at_most_zero (some greater) = false
at_most_zero none = false

abbrev pub is_zero : Option Comparison → Bool
is_zero (some less) = false
is_zero (some same) = true
is_zero (some greater) = false
is_zero none = false

-- A comparator's undefined counts as 0 in `sort`.
abbrev pub as_comparator : Option Comparison → Comparison
as_comparator none = same
as_comparator (some c) = c

pub record IndexBound : Type 0 where
  pub value : Value
  pub inclusive : Bool

pub record OrderedEntry : Type 0 where
  pub value : Value
  pub key : Bytes

abbrev pub KeyMap : Type 0
KeyMap = List (Bytes × List Str)

-- `set.add(k)` and `set.delete(k)`.
unfoldable pub set_add : Str → List Str → List Str
set_add k ks = if contains ks k then ks else ks ++ k ∷ []

unfoldable pub set_delete : Str → List Str → List Str
set_delete k [] = []
set_delete k (j ∷ ks) = let rest = set_delete k ks in if str_eq j k then rest else j ∷ rest

-- `map.get(key)`, `map.set(key, docs)` and `map.delete(key)`.
unfoldable pub map_get : Bytes → KeyMap → Option (List Str)
map_get key [] = none
map_get key ((k, docs) ∷ m) = if str_eq k key then some docs else map_get key m

unfoldable pub map_set : Bytes → List Str → KeyMap → KeyMap
map_set key docs [] = (key, docs) ∷ []
map_set key docs ((k, old) ∷ m) =
    if str_eq k key then (k, docs) ∷ m else (k, old) ∷ map_set key docs m

unfoldable pub map_delete : Bytes → KeyMap → KeyMap
map_delete key [] = []
map_delete key ((k, old) ∷ m) =
    if str_eq k key then map_delete key m else (k, old) ∷ map_delete key m

unfoldable pub set_class :
    ValueClass
    → List OrderedEntry
    → (ValueClass → List OrderedEntry)
    → ValueClass
    → List OrderedEntry
set_class c entries ordered d = if class_eq c d then entries else ordered d

-- The loop of `lowerBound` and `upperBound`: `test` says whether to go on behind the middle.
unfoldable pub middle_of : ℕ → ℕ → ℕ
middle_of low high = ((low + high) % 2 ^ 32) / 2

unfoldable pub passes : (Value → Bool) → List OrderedEntry → ℕ → Bool
passes test entries position = elim (get_elem? entries position) [
  | none ↦ false
  | some entry ↦ test entry.value
]

unfoldable pub bisect : (Value → Bool) → List OrderedEntry → ℕ → ℕ → ℕ → ℕ
bisect test entries zero low high = low
bisect test entries (suc fuel) low high = elim (ltb low high) [
  | true ↦ elim (passes test entries (middle_of low high)) [
    | true ↦ bisect test entries fuel (middle_of low high + 1) high
    | false ↦ bisect test entries fuel low (middle_of low high)
  ]
  | false ↦ low
]

abbrev pub is_below : Value → Value → Bool
is_below value entry = below_zero (compare_values entry value)

abbrev pub is_at_most : Value → Value → Bool
is_at_most value entry = at_most_zero (compare_values entry value)

unfoldable pub lower_bound : List OrderedEntry → Value → ℕ
lower_bound entries value = bisect (is_below value) entries (length entries + 1) 0 (length entries)

unfoldable pub upper_bound : List OrderedEntry → Value → ℕ
upper_bound entries value =
    bisect (is_at_most value) entries (length entries + 1) 0 (length entries)

-- `entries.splice(position, 0, entry)`.
abbrev pub splice_in : ℕ → OrderedEntry → List OrderedEntry → List OrderedEntry
splice_in position entry entries = take position entries ++ entry ∷ drop position entries
