-- ===== src/Protocol/Frame/RoundTrip.antt =====
-- Frames: what is encoded is decoded, and the header alone says how long a frame is.
use sinterdb.Prelude.{
  ℕ, ◌+◌, ◌≤◌, ◌≡◌, refl, true, ◌&&◌, append_assoc, leb_refl, take-append_le, drop-append_le, ◌++◌,
  Bytes, ok, require-eq-ok, leb, ◌==◌, length, drop, str_eq, length-append, length-drop, arith,
}
use sinterdb.Protocol.BigEndian.{be_bytes, be_value-be_bytes}
use sinterdb.Protocol.Errors.{protocol_version, frame_header_size, max_payload_size, max_request_id}
use sinterdb.Protocol.Frame.{
  FrameInput, FrameHeader, is_message_kind, validate_message_kind, unsupported_flags,
  validate_flags, validate_request_id, validate_payload, flags_of, encode_header, encode_frame,
  get_uint, validate_magic, read_frame_header, decode_frame, get_frame_length,
}

-- What `encode_frame` has checked.
record IsSendable (input : FrameInput) : Type 0 where
  kind : is_message_kind input.kind ≡ true
  request_id : input.request_id ≤ max_request_id
  flags : (leb (flags_of input) 0xff && (unsupported_flags (flags_of input) == 0)) ≡ true
  payload : length input.payload ≤ max_payload_size

encode_frame-eq-ok :
    (input : FrameInput) (bytes : Bytes)
    → encode_frame input ≡ ok bytes
    → IsSendable input × (bytes ≡ encode_header input ++ input.payload)
unfolding encode_frame validate_message_kind validate_request_id validate_flags validate_payload
encode_frame-eq-ok input bytes h =
    let (kind, h1) = require-eq-ok (is_message_kind input.kind) _ _ h in
    let (request_id, h2) = require-eq-ok (leb input.request_id max_request_id) _ _ h1 in
    let (flags, h3) = require-eq-ok _ _ _ h2 in
    let (payload, h4) = require-eq-ok (leb (length input.payload) max_payload_size) _ _ h3 in
    (record { kind = kind; request_id = ground arith; flags = flags; payload = ground arith }, cc)

abbrev header_of : FrameInput → FrameHeader
header_of input = record {
  version = protocol_version;
  kind = input.kind;
  flags = flags_of input;
  request_id = input.request_id;
  payload_length = length input.payload;
}

-- What a header of the given fields is read as.
read_frame_header-fields :
    (bytes : Bytes) (h : FrameHeader)
    → leb frame_header_size (length bytes) ≡ true
    → validate_magic bytes ≡ ok tt
    → get_uint 2 4 bytes ≡ h.version
    → get_uint 1 6 bytes ≡ h.kind
    → get_uint 1 7 bytes ≡ h.flags
    → get_uint 4 8 bytes ≡ h.request_id
    → get_uint 4 12 bytes ≡ h.payload_length
    → h.version ≡ protocol_version
    → validate_message_kind h.kind ≡ ok tt
    → validate_flags h.flags ≡ ok tt
    → leb h.payload_length max_payload_size ≡ true
    → read_frame_header bytes ≡ ok h
unfolding read_frame_header
read_frame_header-fields bytes h long_is magic version kind flags request_id payload is1 kind_ok
      flags_ok small_is =
    rw long_is (
      rw magic (
        rw version (
          rw kind (
            rw flags (
              rw request_id (rw payload (rw is1 (rw kind_ok (rw flags_ok (rw small_is refl))))))))))

read-encode_header :
    (input : FrameInput) (tail : Bytes)
    → IsSendable input
    → read_frame_header (encode_header input ++ tail) ≡ ok (header_of input)
unfolding encode_header validate_magic get_uint be_bytes str_eq validate_message_kind validate_flags
read-encode_header input tail s =
    read_frame_header-fields _ _ (ground arith) refl
      (be_value-be_bytes 2 protocol_version (omega arith))
      (be_value-be_bytes 1 input.kind (ground (arith, s.kind)))
      (be_value-be_bytes 1 (flags_of input) (ground (arith, s.flags)))
      (be_value-be_bytes 4 input.request_id (omega (arith, s.request_id)))
      (be_value-be_bytes 4 (length input.payload) (omega (arith, s.payload))) refl (rw s.kind refl)
      (rw s.flags refl) (ground (arith, s.payload))

drop-header :
    (input : FrameInput) (tail : Bytes)
    → drop frame_header_size (encode_header input ++ tail) ≡ tail
unfolding encode_header be_bytes
drop-header input tail = refl

length-header : (input : FrameInput) → length (encode_header input) ≡ frame_header_size
unfolding encode_header be_bytes
length-header input = refl

length_encoded :
    (input : FrameInput)
    → length (encode_header input ++ input.payload) ≡ frame_header_size + length input.payload
length_encoded input =
    omega (arith, length-append (encode_header input) input.payload, length-header input)

-- If `encodeFrame` returns bytes, `decodeFrame` reads them as a frame of version 1 with the kind,
-- the flags (0 if none are given), the request id and the payload of the input.
pub decode_frame-encode_frame :
    (input : FrameInput) (bytes : Bytes)
    → encode_frame input ≡ ok bytes
    → decode_frame bytes
      ≡ ok (record {
        version = protocol_version;
        kind = input.kind;
        flags = flags_of input;
        request_id = input.request_id;
        payload = input.payload;
      })
unfolding decode_frame
decode_frame-encode_frame input bytes h =
    let (s, bytes_is) = encode_frame-eq-ok input bytes h in
    rw bytes_is (
      rw (read-encode_header input input.payload s) (
        rw (drop-header input input.payload) (
          rw (length_encoded input)
            (rw (leb_refl (frame_header_size + length input.payload)) refl))))

get_uint-append :
    (size offset : ℕ) (bytes more : Bytes)
    → offset + size ≤ length bytes
    → get_uint size offset (bytes ++ more) ≡ get_uint size offset bytes
unfolding get_uint
get_uint-append size offset bytes more h =
    rw (drop-append_le offset bytes more (omega arith))
      (rw (take-append_le size (drop offset bytes) more (omega (arith, length-drop offset bytes))))

-- If there are 16 bytes, what follows them makes no difference to `getFrameLength`, errors included.
pub get_frame_length-append :
    (bytes more : Bytes)
    → frame_header_size ≤ length bytes
    → get_frame_length (bytes ++ more) ≡ get_frame_length bytes
unfolding get_frame_length read_frame_header validate_magic
get_frame_length-append bytes more h =
    let longer : leb frame_header_size (length (bytes ++ more)) ≡ true =
      ground (arith, length-append bytes more) in
    let long_is : leb frame_header_size (length bytes) ≡ true = ground arith in
    rw longer (
      rw long_is (
        rw (take-append_le 4 bytes more (omega arith)) (
          rw (get_uint-append 2 4 bytes more (omega arith)) (
            rw (get_uint-append 1 6 bytes more (omega arith)) (
              rw (get_uint-append 1 7 bytes more (omega arith)) (
                rw (get_uint-append 4 8 bytes more (omega arith))
                  (rw (get_uint-append 4 12 bytes more (omega arith)))))))))

-- If `encodeFrame` returns bytes, `getFrameLength` finds their number from any bytes that start with
-- them.
pub get_frame_length-encode_frame :
    (input : FrameInput) (bytes tail : Bytes)
    → encode_frame input ≡ ok bytes
    → get_frame_length (bytes ++ tail) ≡ ok (length bytes)
unfolding get_frame_length
get_frame_length-encode_frame input bytes tail h =
    let (s, bytes_is) = encode_frame-eq-ok input bytes h in
    rw bytes_is (
      rw (append_assoc (encode_header input) input.payload tail)
        (rw (read-encode_header input (input.payload ++ tail) s) (rw (length_encoded input))))
