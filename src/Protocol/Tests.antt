-- ===== src/Protocol/Tests.antt =====
-- The codec, the frames and the stream decoder on concrete inputs.
use sinterdb.Prelude.{◌≡◌, ◌↔◌, refl, some, [], ◌∷◌, Bytes, Str, units, str_eq, ok, arith}
use sinterdb.Protocol.Document.{Value, null, str, document, field, end, fields_length, has_own}
use sinterdb.Protocol.Encoder.{encode_document_value, compare_bytes}
use sinterdb.Protocol.Decoder.{decode_document_value}
use sinterdb.Protocol.Canonical.{Lossless, canonical, plain, prefixed, insert_field}
use sinterdb.Protocol.BigEndian.{be_bytes}
use sinterdb.Protocol.Canonical.Accepts.{IsEncodingOf, encode_iff}
use sinterdb.Protocol.Canonical.RoundTrip.{decode-encode, encode-eq_iff}
use sinterdb.Protocol.Utf8.{
  utf8_encode, utf8_decode, is_well_formed, encode_points, encode_point, code_points, no_surrogate,
}
use sinterdb.Protocol.Utf8.RoundTrip.{AreUnits, utf8_decode-bom}

-- Two documents that differ in the order of their fields.
abbrev forward : Value
forward = document (field (units "a") null (field (units "b") (str (units "x")) end))

abbrev backward : Value
backward = document (field (units "b") (str (units "x")) (field (units "a") null end))

abbrev encoded : Bytes
encoded =
    0x0b ∷ 0 ∷ 0 ∷ 0 ∷ 2 ∷ 0 ∷ 0 ∷ 0 ∷ 1 ∷ 0x61 ∷ 0 ∷ 0 ∷ 0 ∷ 0 ∷ 1 ∷ 0x62 ∷ 7 ∷ 0 ∷ 0 ∷ 0 ∷ 1
    ∷ 0x78 ∷ []

forward-IsEncodingOf : IsEncodingOf encoded forward
unfolding plain prefixed be_bytes utf8_encode encode_points encode_point code_points no_surrogate
    is_well_formed canonical insert_field compare_bytes fields_length
forward-IsEncodingOf =
    ((omega arith, (refl, omega arith, (refl, (omega arith, refl), tt))), omega arith, refl)

backward-IsEncodingOf : IsEncodingOf encoded backward
unfolding plain prefixed be_bytes utf8_encode encode_points encode_point code_points no_surrogate
    is_well_formed canonical insert_field compare_bytes fields_length
backward-IsEncodingOf =
    ((omega arith, (refl, (omega arith, refl), (refl, omega arith, tt))), omega arith, refl)

encode_iff_example : (encode_document_value forward ≡ ok encoded) ↔ IsEncodingOf encoded forward
encode_iff_example = encode_iff forward encoded

forward-encoded : encode_document_value forward ≡ ok encoded
forward-encoded = (encode_iff forward encoded).1 forward-IsEncodingOf

backward-encoded : encode_document_value backward ≡ ok encoded
backward-encoded = (encode_iff backward encoded).1 backward-IsEncodingOf

forward-Lossless : Lossless forward
unfolding has_own str_eq
forward-Lossless = (
  ((omega arith, tt), ground arith),
  refl,
  tt,
  (((omega arith, tt), ground arith), refl, ((omega arith, tt), ground arith), tt),
)

backward-Lossless : Lossless backward
unfolding has_own str_eq
backward-Lossless = (
  ((omega arith, tt), ground arith),
  refl,
  ((omega arith, tt), ground arith),
  (((omega arith, tt), ground arith), refl, tt, tt),
)

decode-encode_example : decode_document_value encoded ≡ ok (canonical backward)
decode-encode_example = decode-encode backward encoded backward-Lossless backward-encoded

encode-eq_iff_example : (encoded ≡ encoded) ↔ (canonical forward ≡ canonical backward)
encode-eq_iff_example =
    encode-eq_iff forward backward encoded encoded forward-Lossless backward-Lossless
      forward-encoded backward-encoded

-- A letter, a letter of two bytes and a pair of surrogates.
abbrev text : Str
text = 0x61 ∷ 0xe9 ∷ 0xd83d ∷ 0xde00 ∷ []

text-AreUnits : AreUnits text
text-AreUnits = (omega arith, (omega arith, (omega arith, (omega arith, tt))))

utf8_decode-bom_example : utf8_decode (utf8_encode (0xfeff ∷ text)) ≡ some text
unfolding is_well_formed code_points no_surrogate
utf8_decode-bom_example = utf8_decode-bom text text-AreUnits refl
