-- ===== src/Server/DocumentSize.antt =====
-- packages/server/src/document-size.ts: an upper bound for the encoded size of a value.
pub mod Bound
use sinterdb.Prelude.{ℕ, ◌+◌, length}
use sinterdb.Protocol.Utf8.{utf8_encode}
use sinterdb.Protocol.Document.{
  Value, Items, Fields, null, bool, number, bigint, str, date, invalid_date, binary, id, array,
  document, nil, cons, end, field,
}

abbrev pub tag_bytes : ℕ
tag_bytes = 1

abbrev pub length_bytes : ℕ
length_bytes = 4

abbrev pub widest_number_bytes : ℕ
widest_number_bytes = 8

abbrev pub custom_id_bytes : ℕ
custom_id_bytes = 16

-- The sums of the two loops start after the tag and the length.
unfoldable mutual
  pub estimate_encoded_size : Value → ℕ
  estimate_encoded_size null = tag_bytes
  estimate_encoded_size (bool b) = tag_bytes
  estimate_encoded_size (number b) = tag_bytes + widest_number_bytes
  estimate_encoded_size (bigint z) = tag_bytes + widest_number_bytes
  estimate_encoded_size (str s) = tag_bytes + length_bytes + length (utf8_encode s)
  estimate_encoded_size (date z) = tag_bytes + widest_number_bytes
  estimate_encoded_size invalid_date = tag_bytes + widest_number_bytes
  estimate_encoded_size (binary bytes) = tag_bytes + length_bytes + length bytes
  estimate_encoded_size (id bytes) = tag_bytes + custom_id_bytes
  estimate_encoded_size (array vs) = tag_bytes + length_bytes + items_size vs
  estimate_encoded_size (document fs) = tag_bytes + length_bytes + fields_size fs

  pub items_size : Items → ℕ
  items_size nil = 0
  items_size (cons v vs) = estimate_encoded_size v + items_size vs

  pub fields_size : Fields → ℕ
  fields_size end = 0
  fields_size (field k v fs) =
      length_bytes + length (utf8_encode k) + estimate_encoded_size v + fields_size fs
