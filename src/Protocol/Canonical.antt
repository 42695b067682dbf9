-- ===== src/Protocol/Canonical.antt =====
-- The canonical encoding that the encoder is to produce, described without the writer: the fields of
-- every document are put in the order of their encoded keys, and the bytes are joined.
pub mod Appends
pub mod Encode
pub mod Accepts
pub mod Collect
pub mod Decode
pub mod RoundTrip
use sinterdb.Prelude.{
  ℕ, suc, ◌+◌, ◌^◌, ◌≤◌, ◌<◌, ◌≡◌, ◌≢◌, Bool, true, false, not, ◌&&◌, none, some, List, [], ◌∷◌,
  ◌++◌, Bytes, Str, ◌==◌, if◌then◌else◌, length,
}
use sinterdb.Prelude.Int.{ℤ}
use sinterdb.Protocol.BigEndian.{be_bytes, to_unsigned, u32, u64}
use sinterdb.Protocol.Number.{is_nan, canonical_nan, negative_zero, integer_value, is_safe}
use sinterdb.Protocol.Number
use sinterdb.Protocol.Utf8.RoundTrip.{AreUnits, HasNoBom}
use sinterdb.Protocol.Decoder.{is_time}
use sinterdb.Protocol.Utf8.{is_well_formed, utf8_encode}
use sinterdb.Protocol.Document.{
  Value, Items, Fields, null, bool, number, bigint, str, date, invalid_date, binary, id, array,
  document, nil, cons, end, field, items_length, fields_length, max_document_depth, has_own,
  custom_id_byte_length,
}
use sinterdb.Protocol.Encoder.{fits, compare_bytes, is_positive}

unfoldable pub prefixed : Bytes → Bytes
prefixed bytes = be_bytes 4 (length bytes) ++ bytes

unfoldable pub integer_bytes : ℕ → ℤ → Bytes
integer_bytes b z =
    if not (b == negative_zero) && fits (2 ^ 31) z
    then be_bytes 1 0x03 ++ be_bytes 4 (to_unsigned u32 z)
    else if is_safe z && not (b == negative_zero)
    then be_bytes 1 0x04 ++ be_bytes 8 (to_unsigned u64 z)
    else be_bytes 1 0x05 ++ be_bytes 8 b

unfoldable pub number_bytes : ℕ → Bytes
number_bytes b =
    if is_nan b then be_bytes 1 0x05 ++ be_bytes 8 canonical_nan else elim (integer_value b) [
      | some z ↦ integer_bytes b z
      | none ↦ be_bytes 1 0x05 ++ be_bytes 8 b
    ]

-- The bytes of a value with its fields in the order in which they stand.
unfoldable mutual
  pub plain : Value → Bytes
  plain null = be_bytes 1 0x00
  plain (bool true) = be_bytes 1 0x02
  plain (bool false) = be_bytes 1 0x01
  plain (number b) = number_bytes b
  plain (bigint z) = be_bytes 1 0x06 ++ be_bytes 8 (to_unsigned u64 z)
  plain (str s) = be_bytes 1 0x07 ++ prefixed (utf8_encode s)
  plain (date z) = be_bytes 1 0x09 ++ be_bytes 8 (to_unsigned u64 z)
  plain invalid_date = []
  plain (binary bytes) = be_bytes 1 0x08 ++ prefixed bytes
  plain (id bytes) = be_bytes 1 0x0c ++ bytes
  plain (array vs) = be_bytes 1 0x0a ++ (be_bytes 4 (items_length vs) ++ plain_items vs)
  plain (document fs) = be_bytes 1 0x0b ++ (be_bytes 4 (fields_length fs) ++ plain_fields fs)

  pub plain_items : Items → Bytes
  plain_items nil = []
  plain_items (cons v vs) = plain v ++ plain_items vs

  pub plain_fields : Fields → Bytes
  plain_fields end = []
  plain_fields (field k v fs) = prefixed (utf8_encode k) ++ (plain v ++ plain_fields fs)

unfoldable pub insert_field : Str → Value → Fields → Fields
insert_field k v end = field k v end
insert_field k v (field j u fs) =
    if is_positive (compare_bytes (utf8_encode k) (utf8_encode j))
    then field j u (insert_field k v fs)
    else field k v (field j u fs)

-- The value with the fields of its documents sorted, at every level.
unfoldable mutual
  pub canonical : Value → Value
  canonical (array vs) = array (canonical_items vs)
  canonical (document fs) = document (canonical_fields fs)
  canonical null = null
  canonical (bool b) = bool b
  canonical (number b) = number b
  canonical (bigint z) = bigint z
  canonical (str s) = str s
  canonical (date z) = date z
  canonical invalid_date = invalid_date
  canonical (binary bytes) = binary bytes
  canonical (id bytes) = id bytes

  pub canonical_items : Items → Items
  canonical_items nil = nil
  canonical_items (cons v vs) = cons (canonical v) (canonical_items vs)

  pub canonical_fields : Fields → Fields
  canonical_fields end = end
  canonical_fields (field k v fs) = insert_field k (canonical v) (canonical_fields fs)

-- What the encoder accepts at a depth: no deeper nesting than 100, strings without lone surrogates,
-- 64-bit integers, valid dates.
abbrev InDepth : ℕ → Type 0
InDepth depth = depth ≤ max_document_depth

abbrev mutual
  pub Encodable : Value → ℕ → Type 0
  Encodable (str s) depth = InDepth depth × (is_well_formed s ≡ true)
  Encodable (bigint z) depth = InDepth depth × (fits (2 ^ 63) z ≡ true)
  Encodable invalid_date depth = ⊥
  Encodable (array vs) depth = InDepth depth × EncodableItems vs (suc depth)
  Encodable (document fs) depth = InDepth depth × EncodableFields fs (suc depth)
  Encodable null depth = InDepth depth
  Encodable (bool b) depth = InDepth depth
  Encodable (number b) depth = InDepth depth
  Encodable (date z) depth = InDepth depth
  Encodable (binary bytes) depth = InDepth depth
  Encodable (id bytes) depth = InDepth depth

  pub EncodableItems : Items → ℕ → Type 0
  EncodableItems nil depth = Unit
  EncodableItems (cons v vs) depth = Encodable v depth × EncodableItems vs depth

  pub EncodableFields : Fields → ℕ → Type 0
  EncodableFields end depth = Unit
  EncodableFields (field k v fs) depth =
      (is_well_formed k ≡ true) × Encodable v depth × EncodableFields fs depth

-- What the decoder gives back unchanged: doubles with the one NaN, strings of code units with no byte
-- order mark in front, dates in range, ids of 16 bytes, and documents whose keys differ.
abbrev pub LosslessString : Str → Type 0
LosslessString s = AreUnits s × HasNoBom s

abbrev mutual
  pub Lossless : Value → Type 0
  Lossless (number b) = (b < 2 ^ 64) × (Number.canonical b ≡ b)
  Lossless (str s) = LosslessString s
  Lossless (date z) = is_time z ≡ true
  Lossless (id bytes) = length bytes ≡ custom_id_byte_length
  Lossless (array vs) = LosslessItems vs
  Lossless (document fs) = LosslessFields fs
  Lossless null = Unit
  Lossless (bool b) = Unit
  Lossless (bigint z) = Unit
  Lossless invalid_date = Unit
  Lossless (binary bytes) = Unit

  pub LosslessItems : Items → Type 0
  LosslessItems nil = Unit
  LosslessItems (cons v vs) = Lossless v × LosslessItems vs

  pub LosslessFields : Fields → Type 0
  LosslessFields end = Unit
  LosslessFields (field k v fs) =
      LosslessString k × (has_own k fs ≡ false) × Lossless v × LosslessFields fs
