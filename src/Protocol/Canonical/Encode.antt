-- ===== src/Protocol/Canonical/Encode.antt =====
-- The encoder writes exactly the canonical bytes of what it accepts.
use sinterdb.Prelude.{
  ℕ, suc, ◌^◌, ◌≡◌, refl, sym, ap, ◌∙◌, inl, inr, true, false, not, ◌&&◌, List, [], ◌∷◌, ◌++◌,
  Bytes, Str, ok, ◌>>=◌, ◌>>◌, leb, ◌==◌, length, arith, Bool-cases, Option-cases,
}
use sinterdb.Prelude.Int.{ℤ}
use sinterdb.Protocol.BigEndian.{be_bytes}
use sinterdb.Protocol.Number.{is_nan, canonical_nan, negative_zero, integer_value, is_safe}
use sinterdb.Protocol.Utf8.{is_well_formed, utf8_encode}
use sinterdb.Protocol.Errors.{Throws}
use sinterdb.Protocol.Writer.{
  Writer, write_uint8, write_uint32, write_int32, write_big_int64, write_float64, write_big_uint64,
  write_bytes,
}
use sinterdb.Protocol.Document.{
  Value, Items, Fields, null, bool, number, bigint, str, date, invalid_date, binary, id, array,
  document, nil, cons, end, field, items_length, fields_length, max_document_depth,
}
use sinterdb.Protocol.Encoder.{
  fits, write_integer, write_number, write_big_int, encode_string, write_length_prefixed_bytes,
  compare_bytes, is_positive, insert_entry, sort_entries, write_fields, check_depth, write_value,
  write_items, field_entries,
}
use sinterdb.Protocol.Canonical.{
  integer_bytes, number_bytes, plain, plain_items, plain_fields, insert_field, canonical,
  canonical_items, canonical_fields, InDepth, Encodable, EncodableItems, EncodableFields,
}
use sinterdb.Protocol.Canonical.Appends.{
  Appends, Appends-pure, Appends-bind, write_uint8-Appends, write_uint32-Appends,
  write_int32-Appends, write_big_int64-Appends, write_float64-Appends, write_big_uint64-Appends,
  write_bytes-Appends, write_prefixed-Appends,
}

-- A tag, and then the rest.
tagged :
    (tag : ℕ) (write : Writer → Throws Writer) (bytes : Bytes)
    → Appends write bytes
    → Appends (λ w. write_uint8 tag w >>= write) (be_bytes 1 tag ++ bytes)
tagged tag write bytes h = Appends-bind (write_uint8 tag) write _ _ (write_uint8-Appends tag) h

write_integer-Appends : (b : ℕ) (z : ℤ) → Appends (write_integer b z) (integer_bytes b z)
unfolding write_integer integer_bytes
write_integer-Appends b z = elim (Bool-cases (not (b == negative_zero) && fits (2 ^ 31) z)) [
  | inl small ↦ rw small (tagged 0x03 (write_int32 z) _ (write_int32-Appends z))
  | inr large ↦ elim (Bool-cases (is_safe z && not (b == negative_zero))) [
    | inl safe ↦ rw (large, safe) (tagged 0x04 (write_big_int64 z) _ (write_big_int64-Appends z))
    | inr unsafe ↦ rw (large, unsafe) (tagged 0x05 (write_float64 b) _ (write_float64-Appends b))
  ]
]

write_number-Appends : (b : ℕ) → Appends (write_number b) (number_bytes b)
unfolding write_number number_bytes
write_number-Appends b = elim (Bool-cases (is_nan b)) [
  | inl nan ↦
      rw nan
        (tagged 0x05 (write_big_uint64 canonical_nan) _ (write_big_uint64-Appends canonical_nan))
  | inr real ↦ elim (Option-cases (integer_value b)) [
    | inl fraction ↦ rw (real, fraction) (tagged 0x05 (write_float64 b) _ (write_float64-Appends b))
    | inr (z, integer) ↦ rw (real, integer) (write_integer-Appends b z)
  ]
]

checked :
    (depth : ℕ) (write : Writer → Throws Writer) (bytes : Bytes)
    → InDepth depth
    → Appends write bytes
    → Appends (λ w. check_depth depth >> write w) bytes
checked depth write bytes h a w acc r =
    let shallow : leb depth max_document_depth ≡ true = ground arith in rw shallow (a w acc r)

abbrev Entries : Type 0
Entries = List (Bytes × (Writer → Throws Writer))

-- Each entry has the encoded key of its field, and writes its value.
abbrev Implements : Entries → Fields → Type 0
Implements [] end = Unit
Implements [] (field k v fs) = ⊥
Implements (e ∷ entries) end = ⊥
Implements ((key, write) ∷ entries) (field k v fs) =
    (key ≡ utf8_encode k) × Appends write (plain v) × Implements entries fs

length-Implements :
    (entries : Entries) (fs : Fields) → Implements entries fs → length entries ≡ fields_length fs
unfolding fields_length
length-Implements [] end h = refl
length-Implements [] (field k v fs) h = absurd h
length-Implements (e ∷ entries) end h = absurd h
length-Implements (e ∷ entries) (field k v fs) h = ap suc (length-Implements entries fs h.2)

insert-Implements :
    (key : Bytes) (write : Writer → Throws Writer) (entries : Entries) (k : Str) (v : Value)
    (fs : Fields)
    → key ≡ utf8_encode k
    → Appends write (plain v)
    → Implements entries fs
    → Implements (insert_entry key write entries) (insert_field k v fs)
unfolding insert_entry insert_field
insert-Implements key write [] k v end e a h = (e, a, tt)
insert-Implements key write [] k v (field j u fs) e a h = absurd h
insert-Implements key write (x ∷ entries) k v end e a h = absurd h
insert-Implements key write ((key2, write2) ∷ entries) k v (field j u fs) e a (e2, a2, h) =
    elim (Bool-cases (is_positive (compare_bytes key key2))) [
      | inl later ↦
          let same : is_positive (compare_bytes (utf8_encode k) (utf8_encode j)) ≡ true =
            rw (← e, ← e2) later in
          rw (later, same) (e2, a2, insert-Implements key write entries k v fs e a h)
      | inr first ↦
          let same : is_positive (compare_bytes (utf8_encode k) (utf8_encode j)) ≡ false =
            rw (← e, ← e2) first in
          rw (first, same) (e, a, (e2, a2, h))
    ]

write_fields-Appends :
    (entries : Entries) (fs : Fields)
    → Implements entries fs
    → Appends (write_fields entries) (plain_fields fs)
unfolding write_fields plain
write_fields-Appends [] end h = Appends-pure
write_fields-Appends [] (field k v fs) h = absurd h
write_fields-Appends (e ∷ entries) end h = absurd h
write_fields-Appends ((key, write) ∷ entries) (field k v fs) (e, a, h) =
    Appends-bind (write_length_prefixed_bytes key) (λ w. write w >>= write_fields entries) _ _
      (rw (← e) (write_prefixed-Appends key))
      (Appends-bind write (write_fields entries) (plain v) _ a (write_fields-Appends entries fs h))

module _ {ℓ} {A : Type ℓ} where
  length-insert_entry :
      (k : Bytes) (a : A) (entries : List (Bytes × A))
      → length (insert_entry k a entries) ≡ suc (length entries)
  unfolding insert_entry
  length-insert_entry k a [] = refl
  length-insert_entry k a ((j, b) ∷ entries) = elim (Bool-cases (is_positive (compare_bytes k j))) [
    | inl later ↦ rw later (ap suc (length-insert_entry k a entries))
    | inr first ↦ rw first
  ]

  length-sort_entries :
      (entries : List (Bytes × A)) → length (sort_entries entries) ≡ length entries
  unfolding sort_entries
  length-sort_entries [] = refl
  length-sort_entries ((k, a) ∷ entries) =
      length-insert_entry k a (sort_entries entries) ∙ ap suc (length-sort_entries entries)

record Encodes (fs : Fields) (depth : ℕ) : Type 0 where
  entries : Entries
  encoded : field_entries fs depth ≡ ok entries
  sorted : Implements (sort_entries entries) (canonical_fields fs)

document-Appends :
    (fs : Fields) (depth : ℕ)
    → InDepth depth
    → Encodes fs (suc depth)
    → Appends (write_value (document fs) depth) (plain (document (canonical_fields fs)))
unfolding write_value plain
document-Appends fs depth h e = checked depth _ _ h (
    rw e.encoded (
      tagged 0x0b (λ w. write_uint32 (length e.entries) w >>= write_fields (sort_entries e.entries))
        _
        (Appends-bind (write_uint32 (length e.entries)) (write_fields (sort_entries e.entries)) _ _
          (rw (← count) (write_uint32-Appends (length e.entries)))
          (write_fields-Appends (sort_entries e.entries) (canonical_fields fs) e.sorted))))
  where
    count : length e.entries ≡ fields_length (canonical_fields fs)
    count =
        sym (length-sort_entries e.entries)
        ∙ length-Implements (sort_entries e.entries) (canonical_fields fs) e.sorted

string-Appends :
    (s : Str) (depth : ℕ)
    → InDepth depth
    → is_well_formed s ≡ true
    → Appends (write_value (str s) depth) (plain (str s))
unfolding write_value plain encode_string
string-Appends s depth h formed = checked depth _ _ h (
    rw formed (
      tagged 0x07 (write_length_prefixed_bytes (utf8_encode s)) _
        (write_prefixed-Appends (utf8_encode s))))

items_length-canonical : (vs : Items) → items_length (canonical_items vs) ≡ items_length vs
unfolding items_length canonical
items_length-canonical nil = refl
items_length-canonical (cons v vs) = ap suc (items_length-canonical vs)

field_step :
    (k : Str) (v : Value) (fs : Fields) (depth : ℕ)
    → is_well_formed k ≡ true
    → Appends (write_value v depth) (plain (canonical v))
    → Encodes fs depth
    → Encodes (field k v fs) depth
field_step k v fs depth formed a e = record {
  entries = (utf8_encode k, write_value v depth) ∷ e.entries;
  encoded = unfold write_value encode_string in rw (formed, e.encoded);
  sorted =
      unfold sort_entries canonical in
      insert-Implements (utf8_encode k) (write_value v depth) (sort_entries e.entries) k
        (canonical v) (canonical_fields fs) refl a e.sorted;
}

end_step : (depth : ℕ) → Encodes end depth
end_step depth = record {
  entries = [];
  encoded = unfold write_value in refl;
  sorted = unfold sort_entries canonical in tt;
}

mutual
  unfolding write_value plain canonical write_big_int

  pub value-Appends :
      (v : Value) (depth : ℕ)
      → Encodable v depth
      → Appends (write_value v depth) (plain (canonical v))
  value-Appends null depth h = checked depth _ _ h (write_uint8-Appends 0x00)
  value-Appends (bool true) depth h = checked depth _ _ h (write_uint8-Appends 0x02)
  value-Appends (bool false) depth h = checked depth _ _ h (write_uint8-Appends 0x01)
  value-Appends (number b) depth h = checked depth _ _ h (write_number-Appends b)
  value-Appends (bigint z) depth h =
      checked depth _ _ h.0 (rw h.1 (tagged 0x06 (write_big_int64 z) _ (write_big_int64-Appends z)))
  value-Appends (str s) depth h = string-Appends s depth h.0 h.1
  value-Appends (date z) depth h =
      checked depth _ _ h (tagged 0x09 (write_big_int64 z) _ (write_big_int64-Appends z))
  value-Appends invalid_date depth h = absurd h
  value-Appends (binary bytes) depth h =
      checked depth _ _ h
        (tagged 0x08 (write_length_prefixed_bytes bytes) _ (write_prefixed-Appends bytes))
  value-Appends (id bytes) depth h =
      checked depth _ _ h (tagged 0x0c (write_bytes bytes) _ (write_bytes-Appends bytes))
  value-Appends (array vs) depth h = checked depth _ _ h.0 (
      tagged 0x0a (λ w. write_uint32 (items_length vs) w >>= write_items vs (suc depth)) _
        (Appends-bind (write_uint32 (items_length vs)) (write_items vs (suc depth)) _ _
          (rw (items_length-canonical vs) (write_uint32-Appends (items_length vs)))
          (items-Appends vs (suc depth) h.1)))
  value-Appends (document fs) depth h =
      document-Appends fs depth h.0 (fields-Encodes fs (suc depth) h.1)

  items-Appends :
      (vs : Items) (depth : ℕ)
      → EncodableItems vs depth
      → Appends (write_items vs depth) (plain_items (canonical_items vs))
  items-Appends nil depth h = Appends-pure
  items-Appends (cons v vs) depth h =
      Appends-bind (write_value v depth) (write_items vs depth) _ _ (value-Appends v depth h.0)
        (items-Appends vs depth h.1)

  fields-Encodes : (fs : Fields) (depth : ℕ) → EncodableFields fs depth → Encodes fs depth
  fields-Encodes end depth h = end_step depth
  fields-Encodes (field k v fs) depth (formed, h, hs) =
      let e = fields-Encodes fs depth hs in
      field_step k v fs depth formed (value-Appends v depth h) e
