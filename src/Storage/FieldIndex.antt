-- ===== src/Storage/FieldIndex.antt =====
-- packages/storage/src/indexing/field-index.ts. The sorted entries are given for each class of values.
pub mod ClassOrder
pub mod Bisect
pub mod Entries
pub mod Ascending
pub mod Range
pub mod Invariant
pub mod Maps
pub mod Added
pub mod Runs
pub mod Removed
pub mod Tracks
pub mod Untracked
pub mod Listing
pub mod Entered
pub mod Left
pub mod Lives
pub mod Unique
pub mod Tests
use sinterdb.Prelude.{
  ℕ, ◌+◌, ◌-◌, Bool, true, false, not, ◌&&◌, Option, none, some, List, [], ◌∷◌, ◌++◌, Bytes, Str,
  str_eq, ok, ◌>>=◌, if◌then◌else◌, ltb, ◌==◌, length, take, drop, contains,
}
use sinterdb.Protocol.Errors.{Throws}
use sinterdb.Protocol.Document.{Value, Fields, array}
use sinterdb.Storage.Predicate.{found, missing, resolve_field, compare_values}
use sinterdb.Storage.IndexSpec.{IndexSpec, split}
use sinterdb.Storage.Sort.{sort_by}
use sinterdb.Storage.IndexValue.{
  ValueClass, class_add, canonical_key, value_class_of, as_comparator, is_zero, IndexBound,
  OrderedEntry, KeyMap, set_add, set_delete, map_get, map_set, map_delete, set_class, lower_bound,
  upper_bound, splice_in,
}

pub record FieldIndex : Type 0 where
  pub spec : IndexSpec
  pub by_value : KeyMap
  pub missing_docs : List Str
  pub ordered : ValueClass → List OrderedEntry
  pub unsorted : List ValueClass
  pub array_values : ℕ
  pub indexed_documents : ℕ

unfoldable pub new_index : IndexSpec → FieldIndex
new_index spec = record {
  spec = spec;
  by_value = [];
  missing_docs = [];
  ordered = λ c. [];
  unsorted = [];
  array_values = 0;
  indexed_documents = 0;
}

abbrev pub segments_of : FieldIndex → List Str
segments_of index = split index.spec.path

abbrev pub has_array_values : FieldIndex → Bool
has_array_values index = ltb 0 index.array_values

unfoldable pub insert_ordered : Value → Bytes → Bool → FieldIndex → FieldIndex
insert_ordered value key bulk index = elim (value_class_of value) [
  | none ↦ index
  | some c ↦
      let entries = index.ordered c in
      if bulk
      then record index {
        ordered = set_class c (entries ++ record { value = value; key = key } ∷ []) index.ordered;
        unsorted = class_add c index.unsorted;
      }
      else record index {
        ordered =
            set_class c
              (splice_in (lower_bound entries value) (record { value = value; key = key }) entries)
              index.ordered;
      }
]

-- The entries that compare as equal are looked through from the first one on.
unfoldable pub remove_run : Value → Bytes → List OrderedEntry → List OrderedEntry
remove_run value key [] = []
remove_run value key (entry ∷ entries) =
    if is_zero (compare_values entry.value value)
    then (if str_eq entry.key key then entries else entry ∷ remove_run value key entries)
    else entry ∷ entries

unfoldable pub remove_ordered : Value → Bytes → FieldIndex → FieldIndex
remove_ordered value key index = elim (value_class_of value) [
  | none ↦ index
  | some c ↦
      let entries = index.ordered c in
      let start = lower_bound entries value in
      record index {
        ordered =
            set_class c (take start entries ++ remove_run value key (drop start entries))
              index.ordered;
      }
]

abbrev pub is_array : Value → Bool
is_array (array vs) = true
is_array _ = false

-- Adding a document whose field is found, with the key of its value.
unfoldable pub add_found : Str → Value → Bytes → Bool → FieldIndex → FieldIndex
add_found doc_key value key bulk index =
    let placed : FieldIndex = elim (map_get key index.by_value) [
      | none ↦
          insert_ordered value key bulk
            (record index { by_value = map_set key (doc_key ∷ []) index.by_value })
      | some docs ↦ record index { by_value = map_set key (set_add doc_key docs) index.by_value }
    ] in
    record placed {
      array_values = if is_array value then placed.array_values + 1 else placed.array_values;
      indexed_documents = placed.indexed_documents + 1;
    }

unfoldable pub add : Str → Fields → Bool → FieldIndex → Throws FieldIndex
add doc_key doc bulk index = elim (resolve_field doc (segments_of index)) [
  | missing ↦ ok (
      if index.spec.sparse then index else record index {
        missing_docs = set_add doc_key index.missing_docs;
        indexed_documents = index.indexed_documents + 1;
      })
  | found value ↦ do key ← canonical_key value; ok (add_found doc_key value key bulk index)
]

unfoldable pub remove_found : Str → Value → Bytes → FieldIndex → FieldIndex
remove_found doc_key value key index = elim (map_get key index.by_value) [
  | none ↦ index
  | some docs ↦
      if not (contains docs doc_key)
      then index
      else let left = set_delete doc_key docs in
        let placed : FieldIndex =
          if length left == 0
          then remove_ordered value key (record index { by_value = map_delete key index.by_value })
          else record index { by_value = map_set key left index.by_value } in
        record placed {
          array_values = if is_array value then placed.array_values - 1 else placed.array_values;
          indexed_documents = placed.indexed_documents - 1;
        }
]

unfoldable pub remove : Str → Fields → FieldIndex → Throws FieldIndex
remove doc_key doc index = elim (resolve_field doc (segments_of index)) [
  | missing ↦ ok (
      if not index.spec.sparse && contains index.missing_docs doc_key
      then record index {
        missing_docs = set_delete doc_key index.missing_docs;
        indexed_documents = index.indexed_documents - 1;
      }
      else index)
  | found value ↦ do key ← canonical_key value; ok (remove_found doc_key value key index)
]

unfoldable pub finish_classes :
    List ValueClass → (ValueClass → List OrderedEntry) → ValueClass → List OrderedEntry
finish_classes [] ordered = ordered
finish_classes (c ∷ cs) ordered = finish_classes cs (
    set_class c
      (sort_by
        (λ (left right : OrderedEntry). as_comparator (compare_values left.value right.value))
        (ordered c))
      ordered)

unfoldable pub finish_bulk : FieldIndex → FieldIndex
finish_bulk index = record index {
  ordered = finish_classes index.unsorted index.ordered;
  unsorted = [];
}

unfoldable pub has_other : Str → List Str → Bool
has_other doc_key [] = false
has_other doc_key (k ∷ ks) = if str_eq k doc_key then has_other doc_key ks else true

-- Whether adding the document would break a unique index; the description is left out.
unfoldable pub conflict_for : Str → Fields → FieldIndex → Throws Bool
conflict_for doc_key doc index =
    if not index.spec.unique then ok false else elim (resolve_field doc (segments_of index)) [
      | missing ↦ ok (not index.spec.sparse && has_other doc_key index.missing_docs)
      | found value ↦ do
        key ← canonical_key value
        ok (elim (map_get key index.by_value) [ none ↦ false | some docs ↦ has_other doc_key docs ])
    ]

unfoldable pub lookup_equal : Value → FieldIndex → Throws (Option (List Str))
lookup_equal value index = do key ← canonical_key value; ok (map_get key index.by_value)

abbrev pub size_of : Option (List Str) → ℕ
size_of none = 0
size_of (some docs) = length docs

unfoldable pub estimate_equal : Value → FieldIndex → Throws ℕ
estimate_equal value index = do docs ← lookup_equal value index; ok (size_of docs)

unfoldable pub range_start : List OrderedEntry → Option IndexBound → ℕ
range_start entries none = 0
range_start entries (some bound) =
    if bound.inclusive then lower_bound entries bound.value else upper_bound entries bound.value

unfoldable pub range_end : List OrderedEntry → Option IndexBound → ℕ
range_end entries none = length entries
range_end entries (some bound) =
    if bound.inclusive then upper_bound entries bound.value else lower_bound entries bound.value

-- The entries from `start` to before `end`; there are none if `end` is not behind `start`.
unfoldable pub range_entries :
    ValueClass → Option IndexBound → Option IndexBound → FieldIndex → List OrderedEntry
range_entries c lower upper index =
    let entries = index.ordered c in
    let start = range_start entries lower in
    take (range_end entries upper - start) (drop start entries)

unfoldable pub add_all : List Str → List Str → List Str
add_all [] result = result
add_all (k ∷ ks) result = add_all ks (set_add k result)

unfoldable pub collect_keys : KeyMap → List OrderedEntry → List Str → List Str
collect_keys m [] result = result
collect_keys m (entry ∷ entries) result =
    collect_keys m entries
      (elim (map_get entry.key m) [ none ↦ result | some docs ↦ add_all docs result ])

unfoldable pub lookup_range :
    ValueClass → Option IndexBound → Option IndexBound → FieldIndex → List Str
lookup_range c lower upper index =
    collect_keys index.by_value (range_entries c lower upper index) []
