-- ===== src/Protocol/Canonical/Accepts.antt =====
-- What the encoder does not accept, it does not write.
use sinterdb.Prelude.{
  ℕ, suc, ◌^◌, ◌≤◌, ◌≡◌, ap, ◌↔◌, inl, inr, true, false, List, [], ◌∷◌, Bytes, Str, ok, ◌>>=◌, ◌>>◌,
  >>=-eq-ok, require-eq-ok, leb, length, arith, Bool-cases,
}
use sinterdb.Prelude.Int.{ℤ}
use sinterdb.Protocol.Utf8.{is_well_formed}
use sinterdb.Protocol.Errors.{Throws, max_payload_size}
use sinterdb.Protocol.Writer.{Writer, new_writer, write_uint8, finish}
use sinterdb.Protocol.Writer.Append.{new_writer-Represents, finish-Represents}
use sinterdb.Protocol.Document.{
  Value, Items, Fields, null, bool, number, bigint, str, date, invalid_date, binary, id, array,
  document, nil, cons, end, field, max_document_depth,
}
use sinterdb.Protocol.Encoder.{
  fits, write_big_int, encode_string, write_length_prefixed_bytes, compare_bytes, is_positive,
  insert_entry, sort_entries, write_fields, check_depth, write_value, write_items, field_entries,
  encode_document_value,
}
use sinterdb.Protocol.Canonical.{
  plain, canonical, InDepth, Encodable, EncodableItems, EncodableFields,
}
use sinterdb.Protocol.Canonical.Encode.{value-Appends}

abbrev Entries : Type 0
Entries = List (Bytes × (Writer → Throws Writer))

abbrev Succeeds : (Writer → Throws Writer) → Type 0
Succeeds write = (w : Writer) × (w' : Writer) × (write w ≡ ok w')

abbrev AllSucceed : Entries → Type 0
AllSucceed [] = Unit
AllSucceed ((k, write) ∷ entries) = Succeeds write × AllSucceed entries

depth_of_ok :
    (depth : ℕ) (result : Throws Writer) {w : Writer}
    → (check_depth depth >> result) ≡ ok w
    → InDepth depth × (result ≡ ok w)
depth_of_ok depth result h =
    let (shallow, rest) = require-eq-ok (leb depth max_document_depth) _ result h in
    (ground arith, rest)

formed_of_ok : (s : Str) {bytes : Bytes} → encode_string s ≡ ok bytes → is_well_formed s ≡ true
unfolding encode_string
formed_of_ok s h = ground arith

AllSucceed-insert :
    (k : Bytes) (write : Writer → Throws Writer) (entries : Entries)
    → AllSucceed (insert_entry k write entries)
    → Succeeds write × AllSucceed entries
unfolding insert_entry
AllSucceed-insert k write [] h = h
AllSucceed-insert k write ((j, other) ∷ entries) h =
    elim (Bool-cases (is_positive (compare_bytes k j))) [
      | inl later ↦
          let (here, rest) = rw later at h in
          let (mine, others) = AllSucceed-insert k write entries rest in (mine, (here, others))
      | inr first ↦ rw first at h
    ]

AllSucceed-sort : (entries : Entries) → AllSucceed (sort_entries entries) → AllSucceed entries
unfolding sort_entries
AllSucceed-sort [] h = tt
AllSucceed-sort ((k, write) ∷ entries) h =
    let (mine, others) = AllSucceed-insert k write (sort_entries entries) h in
    (mine, AllSucceed-sort entries others)

write_fields-AllSucceed :
    (entries : Entries) (w : Writer) {w' : Writer}
    → write_fields entries w ≡ ok w'
    → AllSucceed entries
unfolding write_fields
write_fields-AllSucceed [] w h = tt
write_fields-AllSucceed ((k, write) ∷ entries) w h =
    let (w1, e1, h1) =
      >>=-eq-ok (write_length_prefixed_bytes k w) (λ u. write u >>= write_fields entries) h in
    let (w2, e2, h2) = >>=-eq-ok (write w1) (write_fields entries) h1 in
    ((w1, w2, e2), write_fields-AllSucceed entries w2 h2)

document-AllSucceed :
    (fs : Fields) (depth : ℕ) (w w' : Writer)
    → write_value (document fs) depth w ≡ ok w'
    → InDepth depth
      × ((entries : Entries) × (field_entries fs (suc depth) ≡ ok entries) × AllSucceed entries)
unfolding write_value
document-AllSucceed fs depth w w' h =
    let (shallow, h1) = depth_of_ok depth _ h in
    let (entries, e, h2) = >>=-eq-ok (field_entries fs (suc depth)) _ h1 in
    let (w1, e1, h3) = >>=-eq-ok (write_uint8 0x0b w) _ h2 in
    let (w2, e2, h4) = >>=-eq-ok _ (write_fields (sort_entries entries)) h3 in
    (shallow, (entries, e, AllSucceed-sort entries (write_fields-AllSucceed _ w2 h4)))

array-Succeeds :
    (vs : Items) (depth : ℕ) (w w' : Writer)
    → write_value (array vs) depth w ≡ ok w'
    → InDepth depth × Succeeds (write_items vs (suc depth))
unfolding write_value
array-Succeeds vs depth w w' h =
    let (shallow, h1) = depth_of_ok depth _ h in
    let (w1, e1, h2) = >>=-eq-ok (write_uint8 0x0a w) _ h1 in
    let (w2, e2, h3) = >>=-eq-ok _ (write_items vs (suc depth)) h2 in (shallow, (w2, w', h3))

string-Encodable :
    (s : Str) (depth : ℕ) (w w' : Writer)
    → write_value (str s) depth w ≡ ok w'
    → InDepth depth × (is_well_formed s ≡ true)
unfolding write_value
string-Encodable s depth w w' h =
    let (shallow, h1) = depth_of_ok depth _ h in
    let (w1, e1, h2) = >>=-eq-ok (write_uint8 0x07 w) _ h1 in
    let (bytes, e2, h3) = >>=-eq-ok (encode_string s) _ h2 in (shallow, formed_of_ok s e2)

field-split :
    (k : Str) (v : Value) (fs : Fields) (depth : ℕ) (entries : Entries)
    → field_entries (field k v fs) depth ≡ ok entries
    → AllSucceed entries
    → (is_well_formed k ≡ true)
      × Succeeds (write_value v depth)
      × ((rest : Entries) × (field_entries fs depth ≡ ok rest) × AllSucceed rest)
unfolding write_value
field-split k v fs depth entries h all =
    let (key, e1, h1) = >>=-eq-ok (encode_string k) _ h in
    let (rest, e2, h2) = >>=-eq-ok (field_entries fs depth) _ h1 in
    let same : (key, write_value v depth) ∷ rest ≡ entries = cc in
    let split = rw (← same) at all in (formed_of_ok k e1, split.0, (rest, e2, split.1))

big_int-Encodable :
    (z : ℤ) (depth : ℕ) (w w' : Writer)
    → write_value (bigint z) depth w ≡ ok w'
    → InDepth depth × (fits (2 ^ 63) z ≡ true)
unfolding write_value write_big_int
big_int-Encodable z depth w w' h =
    let (shallow, h1) = depth_of_ok depth _ h in
    let (inside, h2) = require-eq-ok (fits (2 ^ 63) z) _ _ h1 in (shallow, inside)

mutual
  unfolding write_value

  value-Encodable : (v : Value) (depth : ℕ) → Succeeds (write_value v depth) → Encodable v depth
  value-Encodable null depth (w, w', h) = (depth_of_ok depth _ h).0
  value-Encodable (bool true) depth (w, w', h) = (depth_of_ok depth _ h).0
  value-Encodable (bool false) depth (w, w', h) = (depth_of_ok depth _ h).0
  value-Encodable (number b) depth (w, w', h) = (depth_of_ok depth _ h).0
  value-Encodable (bigint z) depth (w, w', h) = big_int-Encodable z depth w w' h
  value-Encodable (str s) depth (w, w', h) = string-Encodable s depth w w' h
  value-Encodable (date z) depth (w, w', h) = (depth_of_ok depth _ h).0
  value-Encodable invalid_date depth (w, w', h) = let (shallow, h1) = depth_of_ok depth _ h in cc
  value-Encodable (binary bytes) depth (w, w', h) = (depth_of_ok depth _ h).0
  value-Encodable (id bytes) depth (w, w', h) = (depth_of_ok depth _ h).0
  value-Encodable (array vs) depth (w, w', h) =
      let (shallow, (w1, w2, h1)) = array-Succeeds vs depth w w' h in
      (shallow, items-Encodable vs (suc depth) (w1, w2, h1))
  value-Encodable (document fs) depth (w, w', h) =
      let (shallow, (entries, e, all)) = document-AllSucceed fs depth w w' h in
      (shallow, fields-Encodable fs (suc depth) entries e all)

  items-Encodable :
      (vs : Items) (depth : ℕ) → Succeeds (write_items vs depth) → EncodableItems vs depth
  items-Encodable nil depth h = tt
  items-Encodable (cons v vs) depth (w, w', h) =
      let (w1, e1, h1) = >>=-eq-ok (write_value v depth w) (write_items vs depth) h in
      (value-Encodable v depth (w, w1, e1), items-Encodable vs depth (w1, w', h1))

  fields-Encodable :
      (fs : Fields) (depth : ℕ) (entries : Entries)
      → field_entries fs depth ≡ ok entries
      → AllSucceed entries
      → EncodableFields fs depth
  fields-Encodable end depth entries h all = tt
  fields-Encodable (field k v fs) depth entries h all =
      let (formed, mine, (rest, e, others)) = field-split k v fs depth entries h all in
      (formed, value-Encodable v depth mine, fields-Encodable fs depth rest e others)

abbrev pub IsEncodingOf : Bytes → Value → Type 0
IsEncodingOf bytes v =
    Encodable v 0
    × (length (plain (canonical v)) ≤ max_payload_size)
    × (bytes ≡ plain (canonical v))

IsEncodingOf-ok :
    (v : Value) (bytes : Bytes) → encode_document_value v ≡ ok bytes → IsEncodingOf bytes v
unfolding encode_document_value
IsEncodingOf-ok v bytes h =
    let (w, e, h1) = >>=-eq-ok (write_value v 0 new_writer) (λ u. ok (finish u)) h in
    let accepted = value-Encodable v 0 (new_writer, w, e) in
    elim (value-Appends v 0 accepted new_writer [] new_writer-Represents) [
      | inl (fits, (w2, e2, r)) ↦
          let same : w2 ≡ w = cc in
          let shown : finish w2 ≡ plain (canonical v) = finish-Represents w2 _ r in
          (accepted, omega arith, cc)
      | inr (full, e2) ↦ cc
    ]

ok_of_encoding :
    (v : Value) (bytes : Bytes) → IsEncodingOf bytes v → encode_document_value v ≡ ok bytes
unfolding encode_document_value
ok_of_encoding v bytes (accepted, small, e) =
    elim (value-Appends v 0 accepted new_writer [] new_writer-Represents) [
      | inl (fits, (w2, e2, r)) ↦ rw (e2, e) (ap ok (finish-Represents w2 _ r))
      | inr (full, e2) ↦ absurd (omega arith)
    ]

-- The encoder returns bytes exactly for the values that it accepts, if their canonical encoding is
-- not longer than the payload limit; and then it returns that encoding.
pub encode_iff :
    (v : Value) (bytes : Bytes) → (encode_document_value v ≡ ok bytes) ↔ IsEncodingOf bytes v
encode_iff v bytes = (IsEncodingOf-ok v bytes, ok_of_encoding v bytes)
