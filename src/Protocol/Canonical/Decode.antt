-- ===== src/Protocol/Canonical/Decode.antt =====
-- The decoder reads the plain bytes of a value back.
use mathlib.Core.Bool.{false≢true}
use sinterdb.Prelude.{
  ℕ, suc, ◌^◌, ◌<◌, ◌≡◌, refl, sym, ap, ◌∙◌, inl, inr, Bool, true, false, not, ◌&&◌, some, [], ◌++◌,
  append-nil, append_assoc, Bytes, Str, ok, ◌>>=◌, ◌>>◌, require, ◌==◌, length, length-append,
  arith, Bool-cases, Option-cases,
}
use sinterdb.Prelude.Int.{ℤ, pos, negsuc}
use sinterdb.Protocol.BigEndian.{be_bytes, u32, u64, FitsHalf}
use sinterdb.Protocol.Number
use sinterdb.Protocol.Number.{is_nan, canonical_nan, negative_zero, integer_value, is_safe, of_ℤ}
use sinterdb.Protocol.Number.Exact.{of_ℤ-integer_value}
use sinterdb.Protocol.Utf8.{is_well_formed, utf8_encode}
use sinterdb.Protocol.Utf8.RoundTrip.{utf8_decode-utf8_encode}
use sinterdb.Protocol.Errors.{ProtocolErrorCode}
use sinterdb.Protocol.Reader.{
  read_bytes, read_uint8, read_uint32, read_int32, read_big_int64, read_float64,
}
use sinterdb.Protocol.Reader.Rest.{
  Reads, read_bytes-Reads, Reads-bind, Reads-map, Reads-eq, read_uint8-Reads, read_uint32-Reads,
  read_int32-Reads, read_big_int64-Reads, read_float64-Reads,
}
use sinterdb.Protocol.Document.{
  Value, Items, Fields, number, bigint, str, date, binary, id, array, document, cons, end, field,
  items_length, fields_length, has_own, custom_id_byte_length,
}
use sinterdb.Protocol.Encoder.{fits}
use sinterdb.Protocol.Decoder.{
  Read, read_length_prefixed_bytes, decode_string, read_string, read_int64, is_time, read_date,
  read_items, add_field, read_fields, read_array, read_document, convert, read_tagged, read_value,
}
use sinterdb.Protocol.Canonical.{
  prefixed, integer_bytes, number_bytes, plain, plain_items, plain_fields, LosslessString,
}

-- The bound on what is read, under which every length and count fits 32 bits.
abbrev pub IsSmall : Bytes → Type 0
IsSmall bytes = length bytes < u32

pub IsSmall-left : (bs cs : Bytes) → IsSmall (bs ++ cs) → IsSmall bs
IsSmall-left bs cs h = omega (arith, length-append bs cs)

pub IsSmall-right : (bs cs : Bytes) → IsSmall (bs ++ cs) → IsSmall cs
IsSmall-right bs cs h = omega (arith, length-append bs cs)

prefixed-Reads :
    (bytes : Bytes) → length bytes < u32 → Reads read_length_prefixed_bytes (prefixed bytes) bytes
unfolding read_length_prefixed_bytes prefixed
prefixed-Reads bytes h =
    Reads-bind read_uint32 read_bytes _ bytes (length bytes) bytes
      (read_uint32-Reads (length bytes) h) (read_bytes-Reads (length bytes) bytes refl)

decode_string-utf8_encode :
    (s : Str) → LosslessString s → is_well_formed s ≡ true → decode_string (utf8_encode s) ≡ ok s
unfolding decode_string
decode_string-utf8_encode s (u, b) formed = rw (utf8_decode-utf8_encode s u formed b, decode_string)

pub string-Reads :
    (s : Str)
    → LosslessString s
    → is_well_formed s ≡ true
    → length (utf8_encode s) < u32
    → Reads read_string (prefixed (utf8_encode s)) s
unfolding read_string
string-Reads s l formed small r tail h =
    let (r1, e1, h1) = prefixed-Reads (utf8_encode s) small r tail h in
    (r1, rw e1 (rw (decode_string-utf8_encode s l formed) refl), h1)

-- A read that is followed by a check of the value.
Reads-check {ℓ κ} :
    {A : Type ℓ} {B : Type κ} (m : Read A) (test : A → Bool) (f : A → B) (e : ProtocolErrorCode)
    (bs : Bytes) (a : A)
    → Reads m bs a
    → test a ≡ true
    → Reads (λ r. m r >>= λ p. require (test p.0) e >> ok (f p.0, p.1)) bs (f a)
Reads-check m test f e bs a first passes r tail h =
    let (r1, e1, h1) = first r tail h in (r1, rw e1 (rw passes refl), h1)

tagged-Reads :
    (levels tag : ℕ) (bytes : Bytes) (v : Value)
    → tag < 256
    → Reads (read_tagged (read_value levels) tag) bytes v
    → Reads (read_value (suc levels)) (be_bytes 1 tag ++ bytes) v
unfolding read_value
tagged-Reads levels tag bytes v h inner =
    Reads-bind read_uint8 (read_tagged (read_value levels)) _ bytes tag v (read_uint8-Reads tag h)
      inner

pub bare-Reads :
    (levels tag : ℕ) (v : Value)
    → tag < 256
    → Reads (read_tagged (read_value levels) tag) [] v
    → Reads (read_value (suc levels)) (be_bytes 1 tag) v
bare-Reads levels tag v h inner = rw append-nil at (tagged-Reads levels tag [] v h inner)

float-Reads :
    (levels b : ℕ)
    → b < u64
    → Number.canonical b ≡ b
    → Reads (read_value (suc levels)) (be_bytes 1 0x05 ++ be_bytes 8 b) (number b)
unfolding read_tagged convert
float-Reads levels b h c =
    tagged-Reads levels 0x05 _ _ (omega arith)
      (Reads-eq _ _ (Reads-map read_float64 number _ _ (read_float64-Reads b h)) (ap number c))

fits-FitsHalf_32 : (z : ℤ) → fits (2 ^ 31) z ≡ true → FitsHalf u32 z
fits-FitsHalf_32 (pos n) h = ground arith
fits-FitsHalf_32 (negsuc n) h = ground arith

fits-is_safe : (z : ℤ) → fits (2 ^ 31) z ≡ true → is_safe z ≡ true
fits-is_safe (pos n) h = ground arith
fits-is_safe (negsuc n) h = ground arith

is_safe-FitsHalf : (z : ℤ) → is_safe z ≡ true → FitsHalf u64 z
is_safe-FitsHalf (pos n) h = ground arith
is_safe-FitsHalf (negsuc n) h = ground arith

fits-FitsHalf_64 : (z : ℤ) → fits (2 ^ 63) z ≡ true → FitsHalf u64 z
fits-FitsHalf_64 (pos n) h = ground arith
fits-FitsHalf_64 (negsuc n) h = ground arith

is_time-FitsHalf : (z : ℤ) → is_time z ≡ true → FitsHalf u64 z
is_time-FitsHalf (pos n) h = ground arith
is_time-FitsHalf (negsuc n) h = ground arith

&&-split : (a b : Bool) → (a && b) ≡ true → (a ≡ true) × (b ≡ true)
&&-split true true h = (refl, refl)
&&-split true false h = (refl, h)
&&-split false b h = (h, absurd (false≢true h))

integer-Reads :
    (levels b : ℕ) (z : ℤ)
    → b < u64
    → Number.canonical b ≡ b
    → integer_value b ≡ some z
    → Reads (read_value (suc levels)) (integer_bytes b z) (number b)
unfolding integer_bytes read_tagged convert read_int64
integer-Reads levels b z h c e = elim (Bool-cases (not (b == negative_zero) && fits (2 ^ 31) z)) [
  | inl small ↦
      let (nz, fit) = &&-split (not (b == negative_zero)) (fits (2 ^ 31) z) small in
      rw small (
        tagged-Reads levels 0x03 _ _ (omega arith) (
          Reads-eq _ _
            (Reads-map read_int32 (λ n. number (of_ℤ n)) _ _
              (read_int32-Reads z (fits-FitsHalf_32 z fit)))
            (ap number (of_ℤ-integer_value b z h (ground arith) e (fits-is_safe z fit)))))
  | inr large ↦ elim (Bool-cases (is_safe z && not (b == negative_zero))) [
    | inl safe ↦
        let (exact, nz) = &&-split (is_safe z) (not (b == negative_zero)) safe in
        rw (large, safe)
          (tagged-Reads levels 0x04 _ _ (omega arith) (
            Reads-eq _ _
              (Reads-map read_int64 number _ _ (
                Reads-check read_big_int64 is_safe of_ℤ _ _ z
                  (read_big_int64-Reads z (is_safe-FitsHalf z exact)) exact))
              (ap number (of_ℤ-integer_value b z h (ground arith) e exact))))
    | inr unsafe ↦ rw (large, unsafe) (float-Reads levels b h c)
  ]
]

nan_is : (b : ℕ) → is_nan b ≡ true → Number.canonical b ≡ b → canonical_nan ≡ b
unfolding Number.canonical
nan_is b nan c = ground arith

pub number-Reads :
    (levels b : ℕ)
    → b < u64
    → Number.canonical b ≡ b
    → Reads (read_value (suc levels)) (number_bytes b) (number b)
unfolding number_bytes
number-Reads levels b h c = elim (Bool-cases (is_nan b)) [
  | inl nan ↦ rw nan (rw (nan_is b nan c) (float-Reads levels b h c))
  | inr real ↦ elim (Option-cases (integer_value b)) [
    | inl fraction ↦ rw (real, fraction) (float-Reads levels b h c)
    | inr (z, integer) ↦ rw (real, integer) (integer-Reads levels b z h c integer)
  ]
]

pub prefixed-IsSmall : (bytes : Bytes) → IsSmall (prefixed bytes) → IsSmall bytes
unfolding prefixed
prefixed-IsSmall bytes h = IsSmall-right (be_bytes 4 (length bytes)) bytes h

pub string-value-Reads :
    (levels : ℕ) (s : Str)
    → is_well_formed s ≡ true
    → LosslessString s
    → IsSmall (plain (str s))
    → Reads (read_value (suc levels)) (plain (str s)) (str s)
unfolding plain read_tagged convert
string-value-Reads levels s formed l small = tagged-Reads levels 0x07 _ _ (omega arith) (
    Reads-map read_string str _ _ (
      string-Reads s l formed
        (prefixed-IsSmall (utf8_encode s) (IsSmall-right (be_bytes 1 0x07) _ small))))

pub binary-Reads :
    (levels : ℕ) (bytes : Bytes)
    → IsSmall (plain (binary bytes))
    → Reads (read_value (suc levels)) (plain (binary bytes)) (binary bytes)
unfolding plain read_tagged convert
binary-Reads levels bytes small = tagged-Reads levels 0x08 _ _ (omega arith) (
    Reads-map read_length_prefixed_bytes binary _ _
      (prefixed-Reads bytes (prefixed-IsSmall bytes (IsSmall-right (be_bytes 1 0x08) _ small))))

pub bigint-Reads :
    (levels : ℕ) (z : ℤ)
    → fits (2 ^ 63) z ≡ true
    → Reads (read_value (suc levels)) (plain (bigint z)) (bigint z)
unfolding plain read_tagged convert
bigint-Reads levels z h =
    tagged-Reads levels 0x06 _ _ (omega arith)
      (Reads-map read_big_int64 bigint _ _ (read_big_int64-Reads z (fits-FitsHalf_64 z h)))

pub date-Reads :
    (levels : ℕ) (z : ℤ)
    → is_time z ≡ true
    → Reads (read_value (suc levels)) (plain (date z)) (date z)
unfolding plain read_tagged read_date
date-Reads levels z h = tagged-Reads levels 0x09 _ _ (omega arith) (
    Reads-check read_big_int64 is_time date _ _ z (read_big_int64-Reads z (is_time-FitsHalf z h)) h)

pub id-Reads :
    (levels : ℕ) (bytes : Bytes)
    → length bytes ≡ custom_id_byte_length
    → Reads (read_value (suc levels)) (plain (id bytes)) (id bytes)
unfolding plain read_tagged convert
id-Reads levels bytes e = tagged-Reads levels 0x0c _ _ (omega arith) (
    Reads-map (read_bytes custom_id_byte_length) id _ _
      (read_bytes-Reads custom_id_byte_length bytes (sym e)))

pub array-Reads :
    (levels : ℕ) (vs : Items)
    → items_length vs < u32
    → Reads (read_items (read_value levels) (items_length vs)) (plain_items vs) vs
    → Reads (read_value (suc levels)) (plain (array vs)) (array vs)
unfolding plain read_tagged read_array
array-Reads levels vs small h = tagged-Reads levels 0x0a _ _ (omega arith) (
    Reads-bind read_uint32 (λ n r. read_items (read_value levels) n r >>= λ p. ok (array p.0, p.1))
      _ _ (items_length vs) _ (read_uint32-Reads (items_length vs) small)
      (Reads-map (read_items (read_value levels) (items_length vs)) array _ _ h))

pub document-Reads :
    (levels : ℕ) (fs : Fields)
    → fields_length fs < u32
    → Reads (read_fields (read_value levels) (fields_length fs) end) (plain_fields fs) fs
    → Reads (read_value (suc levels)) (plain (document fs)) (document fs)
unfolding plain read_tagged read_document
document-Reads levels fs small h = tagged-Reads levels 0x0b _ _ (omega arith) (
    Reads-bind read_uint32
      (λ n r. read_fields (read_value levels) n end r >>= λ p. ok (document p.0, p.1)) _ _
      (fields_length fs) _ (read_uint32-Reads (fields_length fs) small)
      (Reads-map (read_fields (read_value levels) (fields_length fs) end) document _ _ h))

pub cons-Reads :
    (read : Read Value) (v : Value) (vs : Items) (bs cs : Bytes)
    → Reads read bs v
    → Reads (read_items read (items_length vs)) cs vs
    → Reads (read_items read (items_length (cons v vs))) (bs ++ cs) (cons v vs)
unfolding read_items items_length
cons-Reads read v vs bs cs h hs =
    Reads-bind read (λ u r. read_items read (items_length vs) r >>= λ p. ok (cons u p.0, p.1)) bs cs
      v _ h (Reads-map (read_items read (items_length vs)) (cons v) cs vs hs)

pub field-Reads :
    (read : Read Value) (k : Str) (v : Value) (fs acc all : Fields) (bs cs ds : Bytes)
    → has_own k acc ≡ false
    → Reads read_string bs k
    → Reads read cs v
    → Reads (read_fields read (fields_length fs) (add_field k v acc)) ds all
    → Reads (read_fields read (fields_length (field k v fs)) acc) (bs ++ (cs ++ ds)) all
unfolding read_fields fields_length
field-Reads read k v fs acc all bs cs ds new hk hv hs r tail h =
    let (r1, e1, h1) = hk r ((cs ++ ds) ++ tail) (h ∙ append_assoc bs (cs ++ ds) tail) in
    let (r2, e2, h2) =
      Reads-bind read (λ u. read_fields read (fields_length fs) (add_field k u acc)) cs ds v all hv
        hs r1 tail h1 in
    (r2, rw e1 (rw new e2), h2)
