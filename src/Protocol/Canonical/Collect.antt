-- ===== src/Protocol/Canonical/Collect.antt =====
-- The fields that the decoder collects, one behind the other.
use sinterdb.Prelude.{
  ℕ, ◌≤◌, ◌<◌, ◌≡◌, refl, sym, ap, ◌∙◌, true, false, Bytes, Str, arith, length, length-append, ◌^◌,
  not, ◌&&◌, ◌==◌, ◌++◌, str_eq, str_eq→≡, Bool-cases, Option-cases, inl, inr,
}
use sinterdb.Prelude.Int.{ℤ}
use sinterdb.Protocol.BigEndian.{be_bytes, length-be_bytes}
use sinterdb.Protocol.Number.{is_nan, integer_value, negative_zero, is_safe}
use sinterdb.Protocol.Utf8.{utf8_encode}
use sinterdb.Protocol.Document.{
  Value, Items, Fields, null, bool, number, bigint, str, date, invalid_date, binary, id, array,
  document, nil, cons, end, field, items_length, fields_length, has_own,
}
use sinterdb.Protocol.Encoder.{fits}
use sinterdb.Protocol.Decoder.{add_field}
use sinterdb.Protocol.Canonical.{
  prefixed, integer_bytes, number_bytes, plain, plain_items, plain_fields, Encodable,
  EncodableItems,
}

append_fields : Fields → Fields → Fields
append_fields end gs = gs
append_fields (field k v fs) gs = field k v (append_fields fs gs)

-- The fields of the second list added to the first, in turn.
abbrev pub join_fields : Fields → Fields → Fields
join_fields acc end = acc
join_fields acc (field k v fs) = join_fields (add_field k v acc) fs

append-add_field :
    (acc fs : Fields) (k : Str) (v : Value)
    → append_fields (add_field k v acc) fs ≡ append_fields acc (field k v fs)
unfolding append_fields add_field
append-add_field end fs k v = refl
append-add_field (field j u acc) fs k v = ap (field j u) (append-add_field acc fs k v)

append-end : (acc : Fields) → append_fields acc end ≡ acc
unfolding append_fields
append-end end = refl
append-end (field k v acc) = ap (field k v) (append-end acc)

join-append : (acc fs : Fields) → join_fields acc fs ≡ append_fields acc fs
join-append acc end = sym (append-end acc)
join-append acc (field k v fs) = join-append (add_field k v acc) fs ∙ append-add_field acc fs k v

pub join-end : (fs : Fields) → join_fields end fs ≡ fs
join-end fs = join-append end fs ∙ unfold append_fields in refl

-- No key of the second list is in the first.
abbrev pub Disjoint : Fields → Fields → Type 0
Disjoint acc end = Unit
Disjoint acc (field k v fs) = (has_own k acc ≡ false) × Disjoint acc fs

pub Disjoint-end : (fs : Fields) → Disjoint end fs
Disjoint-end end = tt
Disjoint-end (field k v fs) = (unfold has_own in refl, Disjoint-end fs)

pub str_eq-sym : (s t : Str) → str_eq s t ≡ false → str_eq t s ≡ false
str_eq-sym s t h = elim (Bool-cases (str_eq t s)) [
  | inr differ ↦ differ
  | inl same ↦ let e : t ≡ s = str_eq→≡ t s same in rw e (rw e at h)
]

has_own-add_field :
    (j k : Str) (v : Value) (acc : Fields)
    → has_own j acc ≡ false
    → str_eq k j ≡ false
    → has_own j (add_field k v acc) ≡ false
unfolding has_own add_field
has_own-add_field j k v end h n = rw n
has_own-add_field j k v (field i u acc) h n = ground (arith, has_own-add_field j k v acc)

pub Disjoint-add_field :
    (acc fs : Fields) (k : Str) (v : Value)
    → Disjoint acc fs
    → has_own k fs ≡ false
    → Disjoint (add_field k v acc) fs
unfolding has_own
Disjoint-add_field acc end k v d h = tt
Disjoint-add_field acc (field j u fs) k v (dj, d) h =
    let differ : str_eq j k ≡ false = ground arith in
    let others : has_own k fs ≡ false = ground arith in
    (has_own-add_field j k v acc dj (str_eq-sym j k differ), Disjoint-add_field acc fs k v d others)

-- Every accepted value takes at least a byte.
tag-pos : (tag : ℕ) (bytes : Bytes) → 0 < length (be_bytes 1 tag ++ bytes)
tag-pos tag bytes = omega (arith, length-append (be_bytes 1 tag) bytes, length-be_bytes 1 tag)

integer_bytes-pos : (b : ℕ) (z : ℤ) → 0 < length (integer_bytes b z)
unfolding integer_bytes
integer_bytes-pos b z = elim (Bool-cases (not (b == negative_zero) && fits (2 ^ 31) z)) [
  | inl small ↦ rw small (tag-pos _ _)
  | inr large ↦ elim (Bool-cases (is_safe z && not (b == negative_zero))) [
    | inl safe ↦ rw (large, safe) (tag-pos _ _)
    | inr unsafe ↦ rw (large, unsafe) (tag-pos _ _)
  ]
]

number_bytes-pos : (b : ℕ) → 0 < length (number_bytes b)
unfolding number_bytes
number_bytes-pos b = elim (Bool-cases (is_nan b)) [
  | inl nan ↦ rw nan (tag-pos _ _)
  | inr real ↦ elim (Option-cases (integer_value b)) [
    | inl fraction ↦ rw (real, fraction) (tag-pos _ _)
    | inr (z, integer) ↦ rw (real, integer) (integer_bytes-pos b z)
  ]
]

plain-pos : (v : Value) (depth : ℕ) → Encodable v depth → 0 < length (plain v)
unfolding plain
plain-pos null depth h = omega (arith, length-be_bytes 1 0x00)
plain-pos (bool true) depth h = omega (arith, length-be_bytes 1 0x02)
plain-pos (bool false) depth h = omega (arith, length-be_bytes 1 0x01)
plain-pos (number b) depth h = number_bytes-pos b
plain-pos (bigint z) depth h = tag-pos _ _
plain-pos (str s) depth h = tag-pos _ _
plain-pos (date z) depth h = tag-pos _ _
plain-pos invalid_date depth h = absurd h
plain-pos (binary bytes) depth h = tag-pos _ _
plain-pos (id bytes) depth h = tag-pos _ _
plain-pos (array vs) depth h = tag-pos _ _
plain-pos (document fs) depth h = tag-pos _ _

pub items_length-le :
    (vs : Items) (depth : ℕ) → EncodableItems vs depth → items_length vs ≤ length (plain_items vs)
unfolding items_length plain
items_length-le nil depth h = omega arith
items_length-le (cons v vs) depth (h, hs) = omega (
  arith,
  length-append (plain v) (plain_items vs),
  plain-pos v depth h,
  items_length-le vs depth hs,
)

pub fields_length-le : (fs : Fields) → fields_length fs ≤ length (plain_fields fs)
unfolding fields_length plain prefixed
fields_length-le end = omega arith
fields_length-le (field k v fs) = omega (
  arith,
  length-append (be_bytes 4 (length (utf8_encode k)) ++ utf8_encode k) (plain v ++ plain_fields fs),
  length-append (be_bytes 4 (length (utf8_encode k))) (utf8_encode k),
  length-append (plain v) (plain_fields fs),
  length-be_bytes 4 (length (utf8_encode k)),
  fields_length-le fs,
)
