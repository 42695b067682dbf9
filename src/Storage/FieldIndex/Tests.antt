-- ===== src/Storage/FieldIndex/Tests.antt =====
-- An index of packages/storage/src/indexing/field-index.ts with two documents.
use sinterdb.Prelude.{
  ◌≡◌, refl, true, false, none, List, [], ◌∷◌, Bytes, Str, units, ok, str_eq, arith, ap, ◌∙◌, Bool,
}
use sinterdb.Protocol.Document.{Value, Fields, id, str, field, end, get, has_own}
use sinterdb.Protocol.Encoder.{encode_document_value}
use sinterdb.Protocol.Canonical.{LosslessFields, canonical, plain, prefixed}
use sinterdb.Protocol.BigEndian.{be_bytes}
use sinterdb.Protocol.Canonical.Accepts.{encode_iff}
use sinterdb.Protocol.CustomId.{to_hex_string, hex_digit}
use sinterdb.Protocol.Utf8.{
  utf8_encode, is_well_formed, encode_points, encode_point, code_points, no_surrogate,
}
use sinterdb.Storage.IndexSpec.{IndexSpec, split}
use sinterdb.Storage.Predicate.{found, resolve_field, resolve_value, compare_values}
use sinterdb.Storage.FieldIndex.{
  remove, remove_found, finish_bulk, FieldIndex, new_index, segments_of, insert_ordered, add,
  add_found, conflict_for,
}
use sinterdb.Storage.Compare.{compare_units}
use sinterdb.Storage.FieldIndex.Bisect.{IsMonotone, lead, bisect-lead}
use sinterdb.Storage.FieldIndex.Added.{HasRoom}
use sinterdb.Storage.IndexValue.{
  strings, numbers, bigints, dates, binaries, ids, value_class_of, map_get, map_set, set_class,
  lower_bound, bisect, OrderedEntry, is_below,
}
use sinterdb.Storage.FieldIndex.Tracks.{Stored}
use sinterdb.Storage.FieldIndex.Listing.{Lists}
use sinterdb.Storage.FieldIndex.Lives.{Lives, begun, entered, left, finished, Lives-Lists}
use sinterdb.Storage.FieldIndex.Unique.{
  Evolves, created, added, removed, Keeps, Evolves-Keeps, Lives-AreApart, AreApart,
}

abbrev pub spec : IndexSpec
spec = record {
  name = units "a_1";
  path = units "a";
  descending = false;
  unique = true;
  sparse = false;
}

abbrev pub first_id : Bytes
first_id = 1 ∷ 0 ∷ 0 ∷ 0 ∷ 0 ∷ 0 ∷ 0 ∷ 0 ∷ 0 ∷ 0 ∷ 0 ∷ 0 ∷ 0 ∷ 0 ∷ 0 ∷ 0 ∷ []

abbrev pub second_id : Bytes
second_id = 2 ∷ 0 ∷ 0 ∷ 0 ∷ 0 ∷ 0 ∷ 0 ∷ 0 ∷ 0 ∷ 0 ∷ 0 ∷ 0 ∷ 0 ∷ 0 ∷ 0 ∷ 0 ∷ []

abbrev pub doc_of : Bytes → Str → Fields
doc_of bytes s = field (units "_id") (id bytes) (field (units "a") (str s) end)

abbrev key_x : Bytes
key_x = 7 ∷ 0 ∷ 0 ∷ 0 ∷ 1 ∷ 0x78 ∷ []

abbrev pub key_y : Bytes
key_y = 7 ∷ 0 ∷ 0 ∷ 0 ∷ 1 ∷ 0x79 ∷ []

x_encoded : encode_document_value (str (units "x")) ≡ ok key_x
unfolding plain prefixed be_bytes utf8_encode encode_points encode_point code_points no_surrogate
    is_well_formed canonical
x_encoded = (encode_iff (str (units "x")) key_x).1 ((omega arith, refl), omega arith, refl)

pub y_encoded : encode_document_value (str (units "y")) ≡ ok key_y
unfolding plain prefixed be_bytes utf8_encode encode_points encode_point code_points no_surrogate
    is_well_formed canonical
y_encoded = (encode_iff (str (units "y")) key_y).1 ((omega arith, refl), omega arith, refl)

doc_x-Lossless : LosslessFields (doc_of first_id (units "x"))
unfolding has_own str_eq
doc_x-Lossless = (
  ((omega arith, (omega arith, (omega arith, tt))), ground arith),
  refl,
  refl,
  (((omega arith, tt), ground arith), refl, ((omega arith, tt), ground arith), tt),
)

pub doc_y-Lossless : LosslessFields (doc_of second_id (units "y"))
unfolding has_own str_eq
doc_y-Lossless = (
  ((omega arith, (omega arith, (omega arith, tt))), ground arith),
  refl,
  refl,
  (((omega arith, tt), ground arith), refl, ((omega arith, tt), ground arith), tt),
)

resolved :
    (bytes : Bytes) (s : Str) → resolve_field (doc_of bytes s) (split (units "a")) ≡ found (str s)
unfolding split resolve_field resolve_value get str_eq
resolved bytes s = refl

module _ (k : Str) (d : Fields) (index : FieldIndex) (value : Value) (key : Bytes)
    (is_found : resolve_field d (segments_of index) ≡ found value)
    (encodes : encode_document_value value ≡ ok key) where
  adding : (bulk : Bool) → add k d bulk index ≡ ok (add_found k value key bulk index)
  unfolding add
  adding bulk = rw (is_found, add) (rw encodes refl)

  removing : remove k d index ≡ ok (remove_found k value key index)
  unfolding remove
  removing = rw (is_found, remove) (rw encodes refl)

  without_conflict :
      index.spec.unique ≡ true
      → map_get key index.by_value ≡ none
      → conflict_for k d index ≡ ok false
  unfolding conflict_for
  without_conflict unique free =
      rw (unique, conflict_for)
        (rw (is_found, conflict_for) (rw encodes (rw (free, conflict_for) refl)))

abbrev holding_x : FieldIndex
holding_x = add_found (to_hex_string first_id) (str (units "x")) key_x false (new_index spec)

abbrev pub holding_both : FieldIndex
holding_both = add_found (to_hex_string second_id) (str (units "y")) key_y false holding_x

in_new :
    resolve_field (doc_of first_id (units "x")) (segments_of (new_index spec))
    ≡ found (str (units "x"))
unfolding new_index
in_new = resolved first_id (units "x")

stored_x : Evolves spec holding_x ((to_hex_string first_id, doc_of first_id (units "x")) ∷ [])
unfolding new_index map_get
stored_x =
    added created (to_hex_string first_id) (doc_of first_id (units "x")) holding_x tt doc_x-Lossless
      (λ c. omega arith)
      (without_conflict (to_hex_string first_id) (doc_of first_id (units "x")) (new_index spec)
        (str (units "x")) key_x in_new x_encoded refl refl)
      (adding (to_hex_string first_id) (doc_of first_id (units "x")) (new_index spec)
        (str (units "x")) key_x in_new x_encoded false)

spec_kept : holding_x.spec ≡ spec
unfolding add_found new_index map_get insert_ordered value_class_of
spec_kept = refl

in_first :
    resolve_field (doc_of second_id (units "y")) (segments_of holding_x) ≡ found (str (units "y"))
in_first =
    ap (λ (s : IndexSpec). resolve_field (doc_of second_id (units "y")) (split s.path)) spec_kept
    ∙ resolved second_id (units "y")

y_free : map_get key_y holding_x.by_value ≡ none
unfolding add_found new_index map_get map_set insert_ordered value_class_of str_eq
y_free = refl

room_left : HasRoom holding_x
unfolding add_found new_index map_get insert_ordered value_class_of set_class lower_bound bisect
room_left strings = omega arith
room_left numbers = omega arith
room_left bigints = omega arith
room_left dates = omega arith
room_left binaries = omega arith
room_left ids = omega arith

other_keys : str_eq (to_hex_string second_id) (to_hex_string first_id) ≡ false
unfolding str_eq to_hex_string hex_digit
other_keys = refl

abbrev pub both : List Stored
both =
    (to_hex_string second_id, doc_of second_id (units "y"))
    ∷ (to_hex_string first_id, doc_of first_id (units "x"))
    ∷ []

pub stored_both : Evolves spec holding_both both
stored_both =
    added stored_x (to_hex_string second_id) (doc_of second_id (units "y")) holding_both
      (other_keys, tt) doc_y-Lossless room_left
      (without_conflict (to_hex_string second_id) (doc_of second_id (units "y")) holding_x
        (str (units "y")) key_y in_first y_encoded (ap (λ (s : IndexSpec). s.unique) spec_kept)
        y_free)
      (adding (to_hex_string second_id) (doc_of second_id (units "y")) holding_x (str (units "y"))
        key_y in_first y_encoded false)

both_spec : holding_both.spec ≡ spec
unfolding add_found new_index map_get map_set insert_ordered value_class_of str_eq
both_spec = refl

at_field :
    (index : FieldIndex) (bytes : Bytes) (s : Str)
    → index.spec ≡ spec
    → resolve_field (doc_of bytes s) (segments_of index) ≡ found (str s)
at_field index bytes s h =
    ap (λ (sp : IndexSpec). resolve_field (doc_of bytes s) (split sp.path)) h ∙ resolved bytes s

keys_apart : str_eq (to_hex_string first_id) (to_hex_string second_id) ≡ false
unfolding str_eq to_hex_string hex_digit
keys_apart = refl

abbrev without_x : FieldIndex
without_x = remove_found (to_hex_string first_id) (str (units "x")) key_x holding_both

abbrev only_y : List Stored
only_y = (to_hex_string second_id, doc_of second_id (units "y")) ∷ []

Evolves-Keeps_example : Keeps spec without_x only_y
Evolves-Keeps_example = Evolves-Keeps (
    removed only_y [] only_y (to_hex_string first_id) (doc_of first_id (units "x")) without_x
      stored_both (keys_apart, tt) refl
      (removing (to_hex_string first_id) (doc_of first_id (units "x")) holding_both
        (str (units "x")) key_x (at_field holding_both first_id (units "x") both_spec) x_encoded))

-- The first document is loaded in bulk, the second one is added, and the first one is removed.
abbrev loaded_x : FieldIndex
loaded_x = add_found (to_hex_string first_id) (str (units "x")) key_x true (new_index spec)

abbrev built : FieldIndex
built = finish_bulk loaded_x

abbrev grown_y : FieldIndex
grown_y = add_found (to_hex_string second_id) (str (units "y")) key_y false built

abbrev left_y : FieldIndex
left_y = remove_found (to_hex_string first_id) (str (units "x")) key_x grown_y

built_spec : built.spec ≡ spec
unfolding finish_bulk add_found new_index map_get insert_ordered value_class_of
built_spec = refl

grown_spec : grown_y.spec ≡ spec
unfolding finish_bulk add_found new_index map_get map_set insert_ordered value_class_of str_eq
grown_spec = refl

built_free : map_get key_y built.by_value ≡ none
unfolding finish_bulk add_found new_index map_get map_set insert_ordered value_class_of str_eq
built_free = refl

lived : Lives spec left_y only_y
unfolding new_index map_get
lived =
    left only_y [] only_y (to_hex_string first_id) (doc_of first_id (units "x")) left_y
      (entered
        (finished (
          entered begun true (to_hex_string first_id) (doc_of first_id (units "x")) loaded_x tt
            (without_conflict (to_hex_string first_id) (doc_of first_id (units "x"))
              (new_index spec) (str (units "x")) key_x in_new x_encoded refl refl)
            (adding (to_hex_string first_id) (doc_of first_id (units "x")) (new_index spec)
              (str (units "x")) key_x in_new x_encoded true)))
        false (to_hex_string second_id) (doc_of second_id (units "y")) grown_y (other_keys, tt)
        (without_conflict (to_hex_string second_id) (doc_of second_id (units "y")) built
          (str (units "y")) key_y (at_field built second_id (units "y") built_spec) y_encoded
          (ap (λ (s : IndexSpec). s.unique) built_spec) built_free)
        (adding (to_hex_string second_id) (doc_of second_id (units "y")) built (str (units "y"))
          key_y (at_field built second_id (units "y") built_spec) y_encoded false))
      (keys_apart, tt) refl
      (removing (to_hex_string first_id) (doc_of first_id (units "x")) grown_y (str (units "x"))
        key_x (at_field grown_y first_id (units "x") grown_spec) x_encoded)

Lives-Lists_example : Lists spec left_y only_y
Lives-Lists_example = Lives-Lists lived

Lives-AreApart_example : AreApart spec only_y
Lives-AreApart_example = Lives-AreApart refl lived

-- The search for the first entry that is not below "y".
abbrev entries : List OrderedEntry
entries =
    record { value = str (units "x"); key = key_x }
    ∷ record { value = str (units "y"); key = key_y }
    ∷ []

below-IsMonotone : IsMonotone (is_below (str (units "y"))) entries
unfolding compare_values compare_units
below-IsMonotone = (λ h. (refl, tt), (λ h. tt, tt))

bisect-lead_example :
    bisect (is_below (str (units "y"))) entries 3 0 2 ≡ lead (is_below (str (units "y"))) entries
bisect-lead_example =
    bisect-lead (is_below (str (units "y"))) entries below-IsMonotone (omega arith)
