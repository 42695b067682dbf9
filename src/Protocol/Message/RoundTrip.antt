-- ===== src/Protocol/Message/RoundTrip.antt =====
-- Messages are read back as they were sent.
use sinterdb.Prelude.{ℕ, ◌≡◌, refl, Option, none, some, Bytes, ok, >>=-eq-ok}
use sinterdb.Protocol.Errors.{protocol_version}
use sinterdb.Protocol.Document.{Fields, document}
use sinterdb.Protocol.Decoder.{decode_document}
use sinterdb.Protocol.Canonical.{canonical, canonical_fields, LosslessFields}
use sinterdb.Protocol.Canonical.RoundTrip.{decode-encode}
use sinterdb.Protocol.Frame.RoundTrip.{decode_frame-encode_frame}
use sinterdb.Protocol.Message.{
  validate_fields, validate_message_payload, encode_message_payload, decode_message_payload,
  encode_message, decode_message,
}
use sinterdb.Protocol.Message.Shapes.{validate_fields-canonical}

-- A payload that was encoded for a kind is decoded for that kind.
decode-encode_payload :
    (kind : ℕ) (fs : Fields) (bytes : Bytes)
    → LosslessFields fs
    → encode_message_payload kind (document fs) ≡ ok bytes
    → decode_message_payload kind bytes ≡ ok (canonical_fields fs)
unfolding encode_message_payload decode_message_payload validate_message_payload decode_document
    canonical
decode-encode_payload kind fs bytes l h =
    let (checked, valid, encoded) = >>=-eq-ok (validate_fields kind fs) _ h in
    let decoded = decode-encode (document fs) bytes l encoded in
    rw decoded (rw (validate_fields-canonical fs l kind) (rw valid refl))

-- If `encodeMessage` returns bytes for a payload that is a lossless document, `decodeMessage` reads
-- them as a message of version 1 with the kind, the flags (0 if none are given), the request id and
-- the payload of the input, with its fields in the order of their encoded keys.
pub decode_message-encode_message :
    (kind request_id : ℕ) (flags : Option ℕ) (fs : Fields) (bytes : Bytes)
    → LosslessFields fs
    → encode_message
        (record { kind = kind; request_id = request_id; payload = document fs; flags = flags })
      ≡ ok bytes
    → decode_message bytes
      ≡ ok (record {
        version = protocol_version;
        kind = kind;
        flags = elim flags [ none ↦ 0 | some bits ↦ bits ];
        request_id = request_id;
        payload = canonical_fields fs;
      })
unfolding encode_message decode_message
decode_message-encode_message kind request_id flags fs bytes l h =
    let (payload, encoded, framed) = >>=-eq-ok (encode_message_payload kind (document fs)) _ h in
    rw (decode_frame-encode_frame _ bytes framed)
      (rw (decode-encode_payload kind fs payload l encoded) refl)
