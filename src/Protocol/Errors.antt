-- ===== src/Protocol/Errors.antt =====
-- packages/protocol/src/errors.ts and constants.ts.
use sinterdb.Prelude.{ℕ, ◌*◌, Result, Bytes, [], ◌∷◌}

pub data ProtocolErrorCode : Type 0 where
  invalid_magic unsupported_version invalid_message_kind invalid_flags invalid_request_id :
      ProtocolErrorCode
  invalid_payload payload_too_large incomplete_frame payload_length_mismatch : ProtocolErrorCode
  invalid_document_value integer_out_of_range invalid_date document_too_deep cyclic_document :
      ProtocolErrorCode
  unexpected_end unknown_value_tag invalid_utf8 duplicate_document_key trailing_data :
      ProtocolErrorCode
  invalid_message_payload : ProtocolErrorCode

-- A function that may throw a `ProtocolError`.
abbrev pub Throws {ℓ} : Type ℓ → Type ℓ
Throws A = Result ProtocolErrorCode A

abbrev pub protocol_magic : Bytes
protocol_magic = 0x53 ∷ 0x4e ∷ 0x54 ∷ 0x52 ∷ []

abbrev pub protocol_version : ℕ
protocol_version = 1

abbrev pub frame_header_size : ℕ
frame_header_size = 16

abbrev pub max_payload_size : ℕ
max_payload_size = 16 * 1024 * 1024

abbrev pub min_request_id : ℕ
min_request_id = 1

abbrev pub max_request_id : ℕ
max_request_id = 0xffffffff
