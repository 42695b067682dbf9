-- ===== src/Protocol/Frame.antt =====
-- packages/protocol/src/frame.ts. The header's fields stand one behind the other, at the offsets
-- 0, 4, 6, 7, 8 and 12 of `FrameOffset`.
pub mod RoundTrip
use mathlib.Core.Option.{get_or}
use sinterdb.Prelude.{
  ℕ, ◌+◌, ◌-◌, ◌%◌, Bool, true, false, ◌&&◌, ◌||◌, Option, none, some, ◌++◌, Bytes, ok, err, ◌>>=◌,
  ◌>>◌, require, leb, ltb, ◌==◌, if◌then◌else◌, length, take, drop, str_eq,
}
use sinterdb.Protocol.BigEndian.{be_bytes, be_value}
use sinterdb.Protocol.Errors.{
  Throws, invalid_magic, unsupported_version, invalid_message_kind, invalid_flags,
  invalid_request_id, payload_too_large, incomplete_frame, payload_length_mismatch, protocol_magic,
  protocol_version, frame_header_size, max_payload_size, max_request_id,
}

pub record FrameInput : Type 0 where
  pub kind : ℕ
  pub request_id : ℕ
  pub payload : Bytes
  pub flags : Option ℕ

pub record Frame : Type 0 where
  pub version : ℕ
  pub kind : ℕ
  pub flags : ℕ
  pub request_id : ℕ
  pub payload : Bytes

pub record FrameHeader : Type 0 where
  pub version : ℕ
  pub kind : ℕ
  pub flags : ℕ
  pub request_id : ℕ
  pub payload_length : ℕ

-- The kinds are the numbers from 1 (`Handshake`) to 7 (`Error`).
abbrev pub is_message_kind : ℕ → Bool
is_message_kind value =
    (value == 0x01)
    || ((value == 0x02)
        || ((value == 0x03)
            || ((value == 0x04) || ((value == 0x05) || ((value == 0x06) || (value == 0x07))))))

unfoldable pub validate_message_kind : ℕ → Throws (Unit {0})
validate_message_kind value = require (is_message_kind value) invalid_message_kind

-- `flags & ~SUPPORTED_FRAME_FLAGS`, where the one supported flag is the lowest bit.
abbrev pub unsupported_flags : ℕ → ℕ
unsupported_flags flags = flags - flags % 2

unfoldable pub validate_flags : ℕ → Throws (Unit {0})
validate_flags flags = require (leb flags 0xff && (unsupported_flags flags == 0)) invalid_flags

unfoldable pub validate_request_id : ℕ → Throws (Unit {0})
validate_request_id request_id = require (leb request_id max_request_id) invalid_request_id

unfoldable pub validate_payload : Bytes → Throws (Unit {0})
validate_payload payload = require (leb (length payload) max_payload_size) payload_too_large

abbrev pub flags_of : FrameInput → ℕ
flags_of input = elim input.flags [ none ↦ 0 | some flags ↦ flags ]

unfoldable pub encode_header : FrameInput → Bytes
encode_header input =
    protocol_magic
    ++ (be_bytes 2 protocol_version
        ++ (be_bytes 1 input.kind
            ++ (be_bytes 1 (flags_of input)
                ++ (be_bytes 4 input.request_id ++ be_bytes 4 (length input.payload)))))

unfoldable pub encode_frame : FrameInput → Throws Bytes
encode_frame input = do
  validate_message_kind input.kind
  validate_request_id input.request_id
  validate_flags (flags_of input)
  validate_payload input.payload
  ok (encode_header input ++ input.payload)

-- `size` bytes from an offset, as a number.
unfoldable pub get_uint : ℕ → ℕ → Bytes → ℕ
get_uint size offset bytes = be_value (take size (drop offset bytes))

unfoldable pub validate_magic : Bytes → Throws (Unit {0})
validate_magic bytes = require (str_eq (take 4 bytes) protocol_magic) invalid_magic

unfoldable pub read_frame_header : Bytes → Throws FrameHeader
read_frame_header bytes = do
  require (leb frame_header_size (length bytes)) incomplete_frame
  validate_magic bytes
  let version = get_uint 2 4 bytes
  let kind = get_uint 1 6 bytes
  let flags = get_uint 1 7 bytes
  let request_id = get_uint 4 8 bytes
  let payload_length = get_uint 4 12 bytes
  require (version == protocol_version) unsupported_version
  validate_message_kind kind
  validate_flags flags
  require (leb payload_length max_payload_size) payload_too_large
  ok (record {
    version = version;
    kind = kind;
    flags = flags;
    request_id = request_id;
    payload_length = payload_length;
  })

unfoldable pub decode_frame : Bytes → Throws Frame
decode_frame bytes = do
  header ← read_frame_header bytes
  let expected_length = frame_header_size + header.payload_length
  require (leb expected_length (length bytes)) incomplete_frame
  require (leb (length bytes) expected_length) payload_length_mismatch
  ok (record {
    version = header.version;
    kind = header.kind;
    flags = header.flags;
    request_id = header.request_id;
    payload = drop frame_header_size bytes;
  })

unfoldable pub get_frame_length : Bytes → Throws ℕ
get_frame_length bytes = do
  header ← read_frame_header bytes
  ok (frame_header_size + header.payload_length)
