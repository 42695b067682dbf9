-- ===== src/Protocol/Canonical/RoundTrip.antt =====
-- Encoding and then decoding gives the value back, with the fields of its documents sorted.
use sinterdb.Prelude.{
  ℕ, zero, suc, ◌+◌, ◌≤◌, ◌≡◌, refl, sym, ap, ◌∙◌, ◌↔◌, inl, inr, Bool, true, false, [], ◌++◌,
  append-nil, Bytes, Str, ok, ltb, ◌==◌, length, length-drop, arith, Bool-cases, str_eq,
}
use sinterdb.Protocol.BigEndian.{be_bytes}
use sinterdb.Protocol.Utf8.{utf8_encode}
use sinterdb.Protocol.Errors.{max_payload_size}
use sinterdb.Protocol.Reader.{Reader, remaining}
use sinterdb.Protocol.Reader.Rest.{Reads, rest, Reads-pure, Reads-eq}
use sinterdb.Protocol.Document.{
  Value, Items, Fields, null, bool, number, bigint, str, date, invalid_date, binary, id, array,
  document, nil, cons, end, field, items_length, fields_length, has_own, max_document_depth,
}
use sinterdb.Protocol.Encoder.{compare_bytes, is_positive, encode_document_value}
use sinterdb.Protocol.Decoder.{
  read_items, read_fields, add_field, read_tagged, read_value, decode_document_value,
}
use sinterdb.Protocol.Canonical.{
  prefixed, plain, plain_items, plain_fields, insert_field, canonical, canonical_items,
  canonical_fields, Encodable, EncodableItems, EncodableFields, Lossless, LosslessItems,
  LosslessFields,
}
use sinterdb.Protocol.Canonical.Collect.{
  join_fields, join-end, Disjoint, Disjoint-end, Disjoint-add_field, items_length-le,
  fields_length-le, str_eq-sym,
}
use sinterdb.Protocol.Canonical.Decode.{
  IsSmall, IsSmall-left, IsSmall-right, prefixed-IsSmall, string-Reads, bare-Reads, number-Reads,
  string-value-Reads, binary-Reads, bigint-Reads, date-Reads, id-Reads, array-Reads, document-Reads,
  cons-Reads, field-Reads,
}
use sinterdb.Protocol.Canonical.Accepts.{encode_iff}

null-Reads : (levels : ℕ) → Reads (read_value (suc levels)) (plain null) null
unfolding plain read_tagged
null-Reads levels = bare-Reads levels 0x00 null (omega arith) (Reads-pure null)

bool-Reads : (levels : ℕ) (b : Bool) → Reads (read_value (suc levels)) (plain (bool b)) (bool b)
unfolding plain read_tagged
bool-Reads levels true = bare-Reads levels 0x02 (bool true) (omega arith) (Reads-pure (bool true))
bool-Reads levels false =
    bare-Reads levels 0x01 (bool false) (omega arith) (Reads-pure (bool false))

-- The parts of a small encoding are small.
array-IsSmall : (vs : Items) → IsSmall (plain (array vs)) → IsSmall (plain_items vs)
unfolding plain
array-IsSmall vs h =
    IsSmall-right (be_bytes 4 (items_length vs)) (plain_items vs)
      (IsSmall-right (be_bytes 1 0x0a) _ h)

document-IsSmall : (fs : Fields) → IsSmall (plain (document fs)) → IsSmall (plain_fields fs)
unfolding plain
document-IsSmall fs h =
    IsSmall-right (be_bytes 4 (fields_length fs)) (plain_fields fs)
      (IsSmall-right (be_bytes 1 0x0b) _ h)

abbrev Levels : ℕ → ℕ → Type 0
Levels depth levels = depth + levels ≡ max_document_depth + 1

depth_of_Encodable : (v : Value) (depth : ℕ) → Encodable v depth → depth ≤ max_document_depth
depth_of_Encodable (str s) depth h = h.0
depth_of_Encodable (bigint z) depth h = h.0
depth_of_Encodable (array vs) depth h = h.0
depth_of_Encodable (document fs) depth h = h.0
depth_of_Encodable invalid_date depth h = absurd h
depth_of_Encodable _ depth h = h

too_deep {ℓ} : {A : Type ℓ} (v : Value) (depth : ℕ) → Levels depth 0 → Encodable v depth → A
too_deep v depth d h = absurd (omega (arith, depth_of_Encodable v depth h))

mutual
  unfolding plain read_items read_fields items_length fields_length

  value-Reads :
      (v : Value) (depth levels : ℕ)
      → Levels depth (suc levels)
      → Encodable v depth
      → Lossless v
      → IsSmall (plain v)
      → Reads (read_value (suc levels)) (plain v) v
  value-Reads null depth levels d h l s = null-Reads levels
  value-Reads (bool b) depth levels d h l s = bool-Reads levels b
  value-Reads (number b) depth levels d h l s = number-Reads levels b l.0 l.1
  value-Reads (bigint z) depth levels d h l s = bigint-Reads levels z h.1
  value-Reads (str t) depth levels d h l s = string-value-Reads levels t h.1 l s
  value-Reads (date z) depth levels d h l s = date-Reads levels z l
  value-Reads invalid_date depth levels d h l s = absurd h
  value-Reads (binary bytes) depth levels d h l s = binary-Reads levels bytes s
  value-Reads (id bytes) depth levels d h l s = id-Reads levels bytes l
  value-Reads (array vs) depth levels d h l s =
      let small = array-IsSmall vs s in
      array-Reads levels vs (omega (arith, items_length-le vs (suc depth) h.1))
        (items-Reads vs (suc depth) levels (omega arith) h.1 l small)
  value-Reads (document fs) depth levels d h l s =
      let small = document-IsSmall fs s in
      document-Reads levels fs (omega (arith, fields_length-le fs)) (
        Reads-eq _ _
          (fields-Reads fs end (suc depth) levels (omega arith) h.1 l (Disjoint-end fs) small)
          (join-end fs))

  items-Reads :
      (vs : Items) (depth levels : ℕ)
      → Levels depth levels
      → EncodableItems vs depth
      → LosslessItems vs
      → IsSmall (plain_items vs)
      → Reads (read_items (read_value levels) (items_length vs)) (plain_items vs) vs
  items-Reads nil depth levels d h l s = Reads-pure nil
  items-Reads (cons v vs) depth zero d h l s = too_deep v depth d h.0
  items-Reads (cons v vs) depth (suc levels) d h l s =
      cons-Reads (read_value (suc levels)) v vs (plain v) (plain_items vs)
        (value-Reads v depth levels d h.0 l.0 (IsSmall-left (plain v) (plain_items vs) s))
        (items-Reads vs depth (suc levels) d h.1 l.1 (IsSmall-right (plain v) (plain_items vs) s))

  fields-Reads :
      (fs acc : Fields) (depth levels : ℕ)
      → Levels depth levels
      → EncodableFields fs depth
      → LosslessFields fs
      → Disjoint acc fs
      → IsSmall (plain_fields fs)
      → Reads
          (read_fields (read_value levels) (fields_length fs) acc)
          (plain_fields fs)
          (join_fields acc fs)
  fields-Reads end acc depth levels d h l j s = Reads-pure acc
  fields-Reads (field k v fs) acc depth zero d h l j s = too_deep v depth d h.1
  fields-Reads (field k v fs) acc depth (suc levels) d h l j s =
      let key_small = IsSmall-left (prefixed (utf8_encode k)) (plain v ++ plain_fields fs) s in
      let value_small = IsSmall-right (prefixed (utf8_encode k)) (plain v ++ plain_fields fs) s in
      field-Reads (read_value (suc levels)) k v fs acc (join_fields acc (field k v fs))
        (prefixed (utf8_encode k)) (plain v) (plain_fields fs) j.0
        (string-Reads k l.0 h.0 (prefixed-IsSmall (utf8_encode k) key_small))
        (value-Reads v depth levels d h.1 l.2
          (IsSmall-left (plain v) (plain_fields fs) value_small))
        (fields-Reads fs (add_field k v acc) depth (suc levels) d h.2 l.3
          (Disjoint-add_field acc fs k v j.1 l.1)
          (IsSmall-right (plain v) (plain_fields fs) value_small))

-- Sorting the fields keeps what the encoder and the decoder ask for.
Encodable-insert :
    (k : Str) (v : Value) (fs : Fields) (depth : ℕ)
    → EncodableFields (field k v fs) depth
    → EncodableFields (insert_field k v fs) depth
unfolding insert_field
Encodable-insert k v end depth h = h
Encodable-insert k v (field j u fs) depth (formed, h, (formed2, h2, hs)) =
    elim (Bool-cases (is_positive (compare_bytes (utf8_encode k) (utf8_encode j)))) [
      | inl later ↦ rw later (formed2, h2, Encodable-insert k v fs depth (formed, h, hs))
      | inr first ↦ rw first (formed, h, (formed2, h2, hs))
    ]

pub has_own-insert :
    (i k : Str) (v : Value) (fs : Fields)
    → has_own i (insert_field k v fs) ≡ has_own i (field k v fs)
unfolding has_own insert_field
has_own-insert i k v end = refl
has_own-insert i k v (field j u fs) = ground (arith, has_own-insert i k v fs)

pub has_own-canonical : (i : Str) (fs : Fields) → has_own i (canonical_fields fs) ≡ has_own i fs
unfolding has_own canonical
has_own-canonical i end = refl
has_own-canonical i (field k v fs) =
    has_own-insert i k (canonical v) (canonical_fields fs)
    ∙ unfold has_own in rw (has_own-canonical i fs) refl

has_own-split :
    (i k : Str) (v : Value) (fs : Fields)
    → has_own i (field k v fs) ≡ false
    → (str_eq k i ≡ false) × (has_own i fs ≡ false)
unfolding has_own
has_own-split i k v fs h = ground arith

has_own-join :
    (i k : Str) (v : Value) (fs : Fields)
    → str_eq k i ≡ false
    → has_own i fs ≡ false
    → has_own i (field k v fs) ≡ false
unfolding has_own
has_own-join i k v fs h hs = ground arith

Lossless-insert :
    (k : Str) (v : Value) (fs : Fields)
    → LosslessFields (field k v fs)
    → LosslessFields (insert_field k v fs)
unfolding insert_field
Lossless-insert k v end h = h
Lossless-insert k v (field j u fs) (lk, new, h, (lj, newj, hu, hs)) =
    elim (Bool-cases (is_positive (compare_bytes (utf8_encode k) (utf8_encode j)))) [
      | inl later ↦
          let (differ, others) = has_own-split k j u fs new in
          let still = has_own-join j k v fs (str_eq-sym j k differ) newj in
          rw later
            (lj, has_own-insert j k v fs ∙ still, hu, Lossless-insert k v fs (lk, others, h, hs))
      | inr first ↦ rw first (lk, new, h, (lj, newj, hu, hs))
    ]

mutual
  unfolding canonical

  canonical-Encodable : (v : Value) (depth : ℕ) → Encodable v depth → Encodable (canonical v) depth
  canonical-Encodable (array vs) depth h = (h.0, canonical_items-Encodable vs (suc depth) h.1)
  canonical-Encodable (document fs) depth h = (h.0, canonical_fields-Encodable fs (suc depth) h.1)
  canonical-Encodable _ depth h = h

  canonical_items-Encodable :
      (vs : Items) (depth : ℕ) → EncodableItems vs depth → EncodableItems (canonical_items vs) depth
  canonical_items-Encodable nil depth h = h
  canonical_items-Encodable (cons v vs) depth h =
      (canonical-Encodable v depth h.0, canonical_items-Encodable vs depth h.1)

  canonical_fields-Encodable :
      (fs : Fields) (depth : ℕ)
      → EncodableFields fs depth
      → EncodableFields (canonical_fields fs) depth
  canonical_fields-Encodable end depth h = h
  canonical_fields-Encodable (field k v fs) depth h =
      Encodable-insert k (canonical v) (canonical_fields fs) depth
        (h.0, canonical-Encodable v depth h.1, canonical_fields-Encodable fs depth h.2)

mutual
  unfolding canonical

  canonical-Lossless : (v : Value) → Lossless v → Lossless (canonical v)
  canonical-Lossless (array vs) h = canonical_items-Lossless vs h
  canonical-Lossless (document fs) h = canonical_fields-Lossless fs h
  canonical-Lossless _ h = h

  canonical_items-Lossless : (vs : Items) → LosslessItems vs → LosslessItems (canonical_items vs)
  canonical_items-Lossless nil h = h
  canonical_items-Lossless (cons v vs) h =
      (canonical-Lossless v h.0, canonical_items-Lossless vs h.1)

  canonical_fields-Lossless :
      (fs : Fields) → LosslessFields fs → LosslessFields (canonical_fields fs)
  canonical_fields-Lossless end h = h
  canonical_fields-Lossless (field k v fs) h =
      Lossless-insert k (canonical v) (canonical_fields fs) (
        h.0,
        has_own-canonical k fs ∙ h.1,
        canonical-Lossless v h.2,
        canonical_fields-Lossless fs h.3,
      )

nothing_left : (r : Reader) → rest r ≡ [] → (remaining r == 0) ≡ true
nothing_left r h =
    let e : remaining r ≡ 0 = sym (length-drop r.offset r.source) ∙ ap length h in ground arith

decode-plain :
    (v : Value)
    → Encodable v 0
    → Lossless v
    → length (plain v) ≤ max_payload_size
    → decode_document_value (plain v) ≡ ok v
unfolding decode_document_value
decode-plain v h l small =
    let (r, e, done) =
      value-Reads v 0 100 refl h l (omega arith) (record { source = plain v; offset = 0 }) []
        (sym (append-nil (plain v))) in
    let fits : ltb max_payload_size (length (plain v)) ≡ false = ground arith in
    rw (fits, e, nothing_left r done)

-- Decoding what the encoder returned for a lossless value gives the value, with the fields of its
-- documents in the order of their encoded keys.
pub decode-encode :
    (v : Value) (bytes : Bytes)
    → Lossless v
    → encode_document_value v ≡ ok bytes
    → decode_document_value bytes ≡ ok (canonical v)
decode-encode v bytes l h =
    let (accepted, small, e) = (encode_iff v bytes).0 h in
    rw e
      (decode-plain (canonical v) (canonical-Encodable v 0 accepted) (canonical-Lossless v l) small)

-- Two lossless values that the encoder accepts have the same bytes exactly if they are equal once the
-- fields of their documents stand in the order of their encoded keys, at every level.
pub encode-eq_iff :
    (a b : Value) (xs ys : Bytes)
    → Lossless a
    → Lossless b
    → encode_document_value a ≡ ok xs
    → encode_document_value b ≡ ok ys
    → (xs ≡ ys) ↔ (canonical a ≡ canonical b)
encode-eq_iff a b xs ys la lb ha hb = (
  λ e.
      let same : ok (canonical a) ≡ ok (canonical b) =
        sym (decode-encode a xs la ha) ∙ ap decode_document_value e ∙ decode-encode b ys lb hb in
      cc,
  λ e. ((encode_iff a xs).0 ha).2 ∙ ap plain e ∙ sym ((encode_iff b ys).0 hb).2,
)
