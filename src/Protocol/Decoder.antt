-- ===== src/Protocol/Decoder.antt =====
-- packages/protocol/src/document-decoder.ts. The recursion is on the levels of nesting that are
-- still allowed: 101 at the top, and 0 where the source finds `depth > MAX_DOCUMENT_DEPTH`.
use sinterdb.Prelude.{
  ℕ, zero, suc, ◌+◌, Bool, true, false, none, some, Bytes, Str, ok, err, ◌>>=◌, ◌>>◌, require, leb,
  ltb, ◌==◌, if◌then◌else◌, length,
}
use sinterdb.Prelude.Int.{ℤ, pos, negsuc}
use sinterdb.Protocol.Number.{of_ℤ, is_safe}
use sinterdb.Protocol.Utf8.{utf8_decode}
use sinterdb.Protocol.Errors.{
  Throws, document_too_deep, integer_out_of_range, invalid_date, invalid_document_value,
  invalid_utf8, unknown_value_tag, duplicate_document_key, trailing_data, payload_too_large,
  max_payload_size,
}
use sinterdb.Protocol.Reader.{
  Reader, remaining, read_bytes, read_uint8, read_uint32, read_int32, read_big_int64, read_float64,
}
use sinterdb.Protocol.Document.{
  Value, Items, Fields, null, bool, number, bigint, str, date, binary, id, array, document, nil,
  cons, end, field, has_own, max_document_depth, custom_id_byte_length,
}

-- What is read, and the reader after it.
abbrev pub Read {ℓ} : Type ℓ → Type ℓ
Read A = Reader → Throws (A × Reader)

unfoldable pub read_length_prefixed_bytes : Read Bytes
read_length_prefixed_bytes r = do (size, r1) ← read_uint32 r; read_bytes size r1

unfoldable pub decode_string : Bytes → Throws Str
decode_string bytes = elim (utf8_decode bytes) [ some s ↦ ok s | none ↦ err invalid_utf8 ]

unfoldable pub read_string : Read Str
read_string r = do (bytes, r1) ← read_length_prefixed_bytes r; s ← decode_string bytes; ok (s, r1)

unfoldable pub read_int64 : Read ℕ
read_int64 r = do
  (z, r1) ← read_big_int64 r
  require (is_safe z) integer_out_of_range
  ok (of_ℤ z, r1)

-- `new Date(ms)` is valid up to 8.64e15 milliseconds from the epoch.
abbrev pub max_time : ℕ
max_time = 8_640_000_000_000_000

abbrev pub is_time : ℤ → Bool
is_time (pos n) = leb n max_time
is_time (negsuc n) = leb (suc n) max_time

unfoldable pub read_date : Read Value
read_date r = do (z, r1) ← read_big_int64 r; require (is_time z) invalid_date; ok (date z, r1)

-- The two loops, over the number of rounds left; `read` reads one value.
unfoldable pub read_items : Read Value → ℕ → Read Items
read_items read zero r = ok (nil, r)
read_items read (suc n) r = do (v, r1) ← read r; (vs, r2) ← read_items read n r1; ok (cons v vs, r2)

-- `Object.defineProperty` on a new key adds it behind the others.
unfoldable pub add_field : Str → Value → Fields → Fields
add_field k v end = field k v end
add_field k v (field j w fs) = field j w (add_field k v fs)

unfoldable pub read_fields : Read Value → ℕ → Fields → Read Fields
read_fields read zero fs r = ok (fs, r)
read_fields read (suc n) fs r = do
  (key, r1) ← read_string r
  if has_own key fs
      then err duplicate_document_key
      else do (v, r2) ← read r1; read_fields read n (add_field key v fs) r2

unfoldable pub read_array : Read Value → Read Value
read_array read r = do (n, r1) ← read_uint32 r; (vs, r2) ← read_items read n r1; ok (array vs, r2)

unfoldable pub read_document : Read Value → Read Value
read_document read r = do
  (n, r1) ← read_uint32 r
  (fs, r2) ← read_fields read n end r1
  ok (document fs, r2)

unfoldable pub convert {ℓ κ} : {A : Type ℓ} {B : Type κ} → (A → B) → Read A → Read B
convert f read r = do (a, r1) ← read r; ok (f a, r1)

-- The switch on the tag; `read` reads a value one level deeper.
unfoldable pub read_tagged : Read Value → ℕ → Read Value
read_tagged read tag =
    if tag == 0x00
    then (λ r. ok (null, r))
    else if tag == 0x01
    then (λ r. ok (bool false, r))
    else if tag == 0x02
    then (λ r. ok (bool true, r))
    else if tag == 0x03
    then convert (λ z. number (of_ℤ z)) read_int32
    else if tag == 0x04
    then convert number read_int64
    else if tag == 0x05
    then convert number read_float64
    else if tag == 0x06
    then convert bigint read_big_int64
    else if tag == 0x07
    then convert str read_string
    else if tag == 0x08
    then convert binary read_length_prefixed_bytes
    else if tag == 0x09
    then read_date
    else if tag == 0x0c
    then convert id (read_bytes custom_id_byte_length)
    else if tag == 0x0a
    then read_array read
    else if tag == 0x0b
    then read_document read
    else (λ r. err unknown_value_tag)

unfoldable pub read_value : ℕ → Read Value
read_value zero r = err document_too_deep
read_value (suc levels) r = do (tag, r1) ← read_uint8 r; read_tagged (read_value levels) tag r1

unfoldable pub decode_document_value : Bytes → Throws Value
decode_document_value payload =
    if ltb max_payload_size (length payload) then err payload_too_large else do
      (value, r) ← read_value (max_document_depth + 1) (record { source = payload; offset = 0 })
      require (remaining r == 0) trailing_data
      ok value

unfoldable pub decode_document : Bytes → Throws Fields
decode_document payload = do
  value ← decode_document_value payload
  elim value [ document fs ↦ ok fs | _ ↦ err invalid_document_value ]
