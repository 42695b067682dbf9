-- ===== src/Server/DocumentSize/Bound.antt =====
-- The estimate never falls below the size of the encoding.
use sinterdb.Prelude.{
  ℕ, ◌+◌, ◌^◌, ◌≤◌, ◌≡◌, refl, inl, inr, true, false, not, ◌&&◌, Bytes, Str, ok, ◌++◌, ◌==◌, length,
  length-append, Bool-cases, Option-cases, arith,
}
use sinterdb.Prelude.Int.{ℤ}
use sinterdb.Protocol.BigEndian.{be_bytes, length-be_bytes, to_unsigned, u32, u64}
use sinterdb.Protocol.Number.{is_nan, canonical_nan, negative_zero, integer_value, is_safe}
use sinterdb.Protocol.Utf8.{utf8_encode}
use sinterdb.Protocol.Document.{
  Value, Items, Fields, null, bool, number, bigint, str, date, invalid_date, binary, id, array,
  document, nil, cons, end, field, items_length, fields_length, custom_id_byte_length,
}
use sinterdb.Protocol.Encoder.{fits, compare_bytes, is_positive, encode_document_value}
use sinterdb.Protocol.Canonical.{
  prefixed, integer_bytes, number_bytes, plain, plain_items, plain_fields, insert_field, canonical,
  canonical_items, canonical_fields,
}
use sinterdb.Protocol.Canonical.Accepts.{encode_iff}
use sinterdb.Server.DocumentSize.{estimate_encoded_size, items_size, fields_size}

length-prefixed : (bytes : Bytes) → length (prefixed bytes) ≡ 4 + length bytes
unfolding prefixed
length-prefixed bytes =
    omega (arith, length-append (be_bytes 4 (length bytes)) bytes, length-be_bytes 4 (length bytes))

length-field :
    (k : Str) (v : Value) (fs : Fields)
    → length (plain_fields (field k v fs))
      ≡ 4 + length (utf8_encode k) + length (plain v) + length (plain_fields fs)
unfolding plain
length-field k v fs = omega (
  arith,
  length-prefixed (utf8_encode k),
  length-append (prefixed (utf8_encode k)) (plain v ++ plain_fields fs),
  length-append (plain v) (plain_fields fs),
)

length-insert :
    (k : Str) (v : Value) (fs : Fields)
    → length (plain_fields (insert_field k v fs)) ≡ length (plain_fields (field k v fs))
unfolding insert_field plain
length-insert k v end = refl
length-insert k v (field j u fs) =
    elim (Bool-cases (is_positive (compare_bytes (utf8_encode k) (utf8_encode j)))) [
      | inl later ↦ rw later (
          omega (
            arith,
            length-insert k v fs,
            length-field j u (insert_field k v fs),
            length-field j u fs,
            length-field k v fs,
            length-field k v (field j u fs),
          ))
      | inr first ↦ rw first refl
    ]

-- A tag, and an integer of four or eight bytes.
length-tagged : (tag size x : ℕ) → length (be_bytes 1 tag ++ be_bytes size x) ≡ 1 + size
length-tagged tag size x = omega (
  arith,
  length-append (be_bytes 1 tag) (be_bytes size x),
  length-be_bytes 1 tag,
  length-be_bytes size x,
)

integer_bytes-le : (b : ℕ) (z : ℤ) → length (integer_bytes b z) ≤ 9
unfolding integer_bytes
integer_bytes-le b z = elim (Bool-cases (not (b == negative_zero) && fits (2 ^ 31) z)) [
  | inl short ↦ rw short (omega (arith, length-tagged 0x03 4 (to_unsigned u32 z)))
  | inr long ↦ elim (Bool-cases (is_safe z && not (b == negative_zero))) [
    | inl safe ↦ rw long (rw safe (omega (arith, length-tagged 0x04 8 (to_unsigned u64 z))))
    | inr other ↦ rw long (rw other (omega (arith, length-tagged 0x05 8 b)))
  ]
]

number_bytes-le : (b : ℕ) → length (number_bytes b) ≤ 9
unfolding number_bytes
number_bytes-le b = elim (Bool-cases (is_nan b)) [
  | inl nan ↦ rw nan (omega (arith, length-tagged 0x05 8 canonical_nan))
  | inr finite ↦ elim (Option-cases (integer_value b)) [
    | inl no_integer ↦ rw finite (rw no_integer (omega (arith, length-tagged 0x05 8 b)))
    | inr (z, is) ↦ rw finite (rw is (integer_bytes-le b z))
  ]
]

-- Ids hold 16 bytes.
abbrev mutual
  pub HasIds : Value → Type 0
  HasIds (id bytes) = length bytes ≡ custom_id_byte_length
  HasIds (array vs) = HasIdsItems vs
  HasIds (document fs) = HasIdsFields fs
  HasIds _ = Unit

  pub HasIdsItems : Items → Type 0
  HasIdsItems nil = Unit
  HasIdsItems (cons v vs) = HasIds v × HasIdsItems vs

  pub HasIdsFields : Fields → Type 0
  HasIdsFields end = Unit
  HasIdsFields (field k v fs) = HasIds v × HasIdsFields fs

mutual
  unfolding plain canonical estimate_encoded_size

  plain-le : (v : Value) → HasIds v → length (plain (canonical v)) ≤ estimate_encoded_size v
  plain-le null h = omega (arith, length-be_bytes 1 0x00)
  plain-le (bool true) h = omega (arith, length-be_bytes 1 0x02)
  plain-le (bool false) h = omega (arith, length-be_bytes 1 0x01)
  plain-le (number b) h = number_bytes-le b
  plain-le (bigint z) h = omega (arith, length-tagged 0x06 8 (to_unsigned u64 z))
  plain-le (str s) h = omega (
    arith,
    length-append (be_bytes 1 0x07) (prefixed (utf8_encode s)),
    length-be_bytes 1 0x07,
    length-prefixed (utf8_encode s),
  )
  plain-le (date z) h = omega (arith, length-tagged 0x09 8 (to_unsigned u64 z))
  plain-le invalid_date h = omega arith
  plain-le (binary bytes) h = omega (
    arith,
    length-append (be_bytes 1 0x08) (prefixed bytes),
    length-be_bytes 1 0x08,
    length-prefixed bytes,
  )
  plain-le (id bytes) h =
      omega (arith, length-append (be_bytes 1 0x0c) bytes, length-be_bytes 1 0x0c, h)
  plain-le (array vs) h =
      let vs1 = canonical_items vs in
      omega (
        arith,
        length-append (be_bytes 1 0x0a) (be_bytes 4 (items_length vs1) ++ plain_items vs1),
        length-tagged 0x0a 4 (items_length vs1),
        length-append (be_bytes 1 0x0a) (be_bytes 4 (items_length vs1)),
        length-append (be_bytes 4 (items_length vs1)) (plain_items vs1),
        items-le vs h,
      )
  plain-le (document fs) h =
      let fs1 = canonical_fields fs in
      omega (
        arith,
        length-append (be_bytes 1 0x0b) (be_bytes 4 (fields_length fs1) ++ plain_fields fs1),
        length-tagged 0x0b 4 (fields_length fs1),
        length-append (be_bytes 1 0x0b) (be_bytes 4 (fields_length fs1)),
        length-append (be_bytes 4 (fields_length fs1)) (plain_fields fs1),
        fields-le fs h,
      )

  items-le :
      (vs : Items) → HasIdsItems vs → length (plain_items (canonical_items vs)) ≤ items_size vs
  items-le nil h = omega arith
  items-le (cons v vs) h = omega (
    arith,
    length-append (plain (canonical v)) (plain_items (canonical_items vs)),
    plain-le v h.0,
    items-le vs h.1,
  )

  fields-le :
      (fs : Fields) → HasIdsFields fs → length (plain_fields (canonical_fields fs)) ≤ fields_size fs
  fields-le end h = omega arith
  fields-le (field k v fs) h = omega (
    arith,
    length-insert k (canonical v) (canonical_fields fs),
    length-field k (canonical v) (canonical_fields fs),
    plain-le v h.0,
    fields-le fs h.1,
  )

-- The estimate of a value whose ids have 16 bytes is not below the number of bytes that the encoder
-- writes for it.
pub encode-le_estimate :
    (v : Value) (bytes : Bytes)
    → HasIds v
    → encode_document_value v ≡ ok bytes
    → length bytes ≤ estimate_encoded_size v
encode-le_estimate v bytes ids h =
    let (accepted, small, e) = (encode_iff v bytes).0 h in rw e (plain-le v ids)
