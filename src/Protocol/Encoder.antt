-- ===== src/Protocol/Encoder.antt =====
-- packages/protocol/src/document-encoder.ts. Values are finite trees, so the check for cycles
-- (`activeContainers`) never fires and is left out.
use sinterdb.Prelude.{
  ℕ, zero, suc, ◌^◌, Bool, true, false, not, ◌&&◌, none, some, List, [], ◌∷◌, Bytes, Str, ok, err,
  ◌>>=◌, ◌>>◌, require, leb, ltb, ◌==◌, if◌then◌else◌, length,
}
use sinterdb.Prelude.Int.{ℤ, pos, negsuc, sub_ℕ}
use sinterdb.Protocol.Number.{is_nan, canonical_nan, negative_zero, integer_value, is_safe}
use sinterdb.Protocol.Utf8.{is_well_formed, utf8_encode}
use sinterdb.Protocol.Errors.{
  Throws, document_too_deep, integer_out_of_range, invalid_date, invalid_document_value,
}
use sinterdb.Protocol.Writer.{
  Writer, new_writer, write_uint8, write_uint32, write_int32, write_big_int64, write_float64,
  write_big_uint64, write_bytes, finish,
}
use sinterdb.Protocol.Document.{
  Value, Items, Fields, null, bool, number, bigint, str, date, invalid_date, binary, id, array,
  document, nil, cons, end, field, items_length, max_document_depth,
}

-- Whether an integer lies between -2 ^ k and 2 ^ k - 1, for `half` the power.
abbrev pub fits : ℕ → ℤ → Bool
fits half (pos n) = ltb n half
fits half (negsuc n) = ltb n half

unfoldable pub write_integer : ℕ → ℤ → Writer → Throws Writer
write_integer value z w =
    if not (value == negative_zero) && fits (2 ^ 31) z
    then (do w1 ← write_uint8 0x03 w; write_int32 z w1)
    else if is_safe z && not (value == negative_zero)
    then (do w1 ← write_uint8 0x04 w; write_big_int64 z w1)
    else (do w1 ← write_uint8 0x05 w; write_float64 value w1)

unfoldable pub write_number : ℕ → Writer → Throws Writer
write_number value w =
    if is_nan value
    then (do w1 ← write_uint8 0x05 w; write_big_uint64 canonical_nan w1)
    else elim (integer_value value) [
      | some z ↦ write_integer value z w
      | none ↦ do w1 ← write_uint8 0x05 w; write_float64 value w1
    ]

unfoldable pub write_big_int : ℤ → Writer → Throws Writer
write_big_int value w = do
  require (fits (2 ^ 63) value) integer_out_of_range
  w1 ← write_uint8 0x06 w
  write_big_int64 value w1

unfoldable pub encode_string : Str → Throws Bytes
encode_string value =
    if is_well_formed value then ok (utf8_encode value) else err invalid_document_value

unfoldable pub write_length_prefixed_bytes : Bytes → Writer → Throws Writer
write_length_prefixed_bytes value w = do w1 ← write_uint32 (length value) w; write_bytes value w1

unfoldable pub compare_bytes : Bytes → Bytes → ℤ
compare_bytes [] [] = pos 0
compare_bytes [] (y ∷ ys) = sub_ℕ 0 (length (y ∷ ys))
compare_bytes (x ∷ xs) [] = pos (length (x ∷ xs))
compare_bytes (x ∷ xs) (y ∷ ys) = if x == y then compare_bytes xs ys else sub_ℕ x y

abbrev pub is_positive : ℤ → Bool
is_positive (pos zero) = false
is_positive (pos (suc n)) = true
is_positive (negsuc n) = false

-- `Array.prototype.sort` is stable: insertion before the first entry with a greater or equal key.
module _ {ℓ} {A : Type ℓ} where
  unfoldable pub insert_entry : Bytes → A → List (Bytes × A) → List (Bytes × A)
  insert_entry k a [] = (k, a) ∷ []
  insert_entry k a ((j, b) ∷ entries) =
      if is_positive (compare_bytes k j)
      then (j, b) ∷ insert_entry k a entries
      else (k, a) ∷ (j, b) ∷ entries

  unfoldable pub sort_entries : List (Bytes × A) → List (Bytes × A)
  unfolding insert_entry
  sort_entries [] = []
  sort_entries ((k, a) ∷ entries) = insert_entry k a (sort_entries entries)

-- The loop over the sorted fields; each entry carries the encoded key and the write of the value.
unfoldable pub write_fields : List (Bytes × (Writer → Throws Writer)) → Writer → Throws Writer
write_fields [] w = ok w
write_fields ((key, write) ∷ entries) w = do
  w1 ← write_length_prefixed_bytes key w
  w2 ← write w1
  write_fields entries w2

abbrev pub check_depth : ℕ → Throws (Unit {0})
check_depth depth = require (leb depth max_document_depth) document_too_deep

unfoldable mutual
  pub write_value : Value → ℕ → Writer → Throws Writer
  write_value null depth w = do check_depth depth; write_uint8 0x00 w
  write_value (bool true) depth w = do check_depth depth; write_uint8 0x02 w
  write_value (bool false) depth w = do check_depth depth; write_uint8 0x01 w
  write_value (number b) depth w = do check_depth depth; write_number b w
  write_value (bigint z) depth w = do check_depth depth; write_big_int z w
  write_value (str s) depth w = do
    check_depth depth
    w1 ← write_uint8 0x07 w
    bytes ← encode_string s
    write_length_prefixed_bytes bytes w1
  write_value invalid_date depth w = do check_depth depth; err invalid_date
  write_value (date z) depth w = do check_depth depth; w1 ← write_uint8 0x09 w; write_big_int64 z w1
  write_value (binary bytes) depth w = do
    check_depth depth
    w1 ← write_uint8 0x08 w
    write_length_prefixed_bytes bytes w1
  write_value (id bytes) depth w = do
    check_depth depth
    w1 ← write_uint8 0x0c w
    write_bytes bytes w1
  write_value (array vs) depth w = do
    check_depth depth
    w1 ← write_uint8 0x0a w
    w2 ← write_uint32 (items_length vs) w1
    write_items vs (suc depth) w2
  write_value (document fs) depth w = do
    check_depth depth
    entries ← field_entries fs (suc depth)
    w1 ← write_uint8 0x0b w
    w2 ← write_uint32 (length entries) w1
    write_fields (sort_entries entries) w2

  pub write_items : Items → ℕ → Writer → Throws Writer
  write_items nil depth w = ok w
  write_items (cons v vs) depth w = do w1 ← write_value v depth w; write_items vs depth w1

  -- `Object.keys(value).map(…)`: every key is encoded before anything of the document is written.
  pub field_entries : Fields → ℕ → Throws (List (Bytes × (Writer → Throws Writer)))
  field_entries end depth = ok []
  field_entries (field k v fs) depth = do
    key ← encode_string k
    entries ← field_entries fs depth
    ok ((key, write_value v depth) ∷ entries)

unfoldable pub encode_document_value : Value → Throws Bytes
encode_document_value value = do w ← write_value value 0 new_writer; ok (finish w)
