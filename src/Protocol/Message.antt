-- ===== src/Protocol/Message.antt =====
-- packages/protocol/src/message-codec.ts, message-frame.ts and messages.ts: the payload of each kind
-- of message, and messages in frames.

pub mod Shapes
pub mod RoundTrip
use sinterdb.Prelude.{
  ℕ, Bool, true, false, not, ◌&&◌, ◌||◌, Option, none, some, ◌∷◌, Bytes, Str, units, str_eq, ok,
  err, ◌>>=◌, ◌>>◌, require, leb, ◌==◌, if◌then◌else◌,
}
use sinterdb.Prelude.Int.{ℤ, pos, negsuc}
use sinterdb.Protocol.Number.{integer_value}
use sinterdb.Protocol.Errors.{Throws, invalid_message_payload, invalid_message_kind}
use sinterdb.Protocol.Document.{
  Value, Items, Fields, bool, number, str, date, array, document, nil, cons, get, has_own,
}
use sinterdb.Protocol.Encoder.{encode_document_value}
use sinterdb.Protocol.Decoder.{decode_document}
use sinterdb.Protocol.Frame.{encode_frame, decode_frame}

-- The shapes that the validators test, of a property that may be missing.
unfoldable pub is_document : Option Value → Bool
is_document (some (document fs)) = true
is_document _ = false

unfoldable pub is_non_empty_string : Option Value → Bool
is_non_empty_string (some (str (c ∷ s))) = true
is_non_empty_string _ = false

abbrev pub is_up_to : ℕ → ℤ → Bool
is_up_to maximum (pos n) = leb n maximum
is_up_to maximum (negsuc n) = false

unfoldable pub is_unsigned_integer : Option Value → ℕ → Bool
is_unsigned_integer (some (number b)) maximum = elim (integer_value b) [
  | none ↦ false
  | some z ↦ is_up_to maximum z
]
is_unsigned_integer _ maximum = false

unfoldable pub is_zero : Option Value → Bool
is_zero (some (number b)) = elim (integer_value b) [ none ↦ false | some z ↦ is_up_to 0 z ]
is_zero _ = false

unfoldable pub is_string : Str → Option Value → Bool
is_string s (some (str t)) = str_eq t s
is_string s _ = false

unfoldable pub are_strings : Items → Bool
are_strings nil = true
are_strings (cons (str s) vs) = are_strings vs
are_strings _ = false

unfoldable pub is_array_of_strings : Option Value → Bool
is_array_of_strings (some (array vs)) = are_strings vs
is_array_of_strings _ = false

unfoldable pub is_date : Option Value → Bool
is_date (some (date z)) = true
is_date _ = false

unfoldable pub is_boolean : Option Value → Bool
is_boolean (some (bool b)) = true
is_boolean _ = false

abbrev pub max_uint16 : ℕ
max_uint16 = 0xffff

abbrev pub max_uint32 : ℕ
max_uint32 = 0xffffffff

abbrev pub max_safe_integer : ℕ
max_safe_integer = 9007199254740991

unfoldable pub validate_handshake : Fields → Throws (Unit {0})
validate_handshake payload = do
  require
      (is_string (units "client") (get (units "role") payload)
        || is_string (units "server") (get (units "role") payload))
      invalid_message_payload
  require
      (is_unsigned_integer (get (units "protocolVersion") payload) max_uint16
        && not (is_zero (get (units "protocolVersion") payload)))
      invalid_message_payload
  require (is_non_empty_string (get (units "product") payload)) invalid_message_payload
  require (is_non_empty_string (get (units "productVersion") payload)) invalid_message_payload
  require (is_array_of_strings (get (units "capabilities") payload)) invalid_message_payload

unfoldable pub validate_ping : Fields → Throws (Unit {0})
validate_ping payload = require (is_date (get (units "sentAt") payload)) invalid_message_payload

unfoldable pub validate_command : Fields → Throws (Unit {0})
validate_command payload = do
  require (is_non_empty_string (get (units "command") payload)) invalid_message_payload
  require
      (not (has_own (units "database") payload)
        || is_non_empty_string (get (units "database") payload))
      invalid_message_payload
  require (is_document (get (units "parameters") payload)) invalid_message_payload

unfoldable pub validate_result : Fields → Throws (Unit {0})
validate_result payload = require (has_own (units "value") payload) invalid_message_payload

unfoldable pub validate_stream_item : Fields → Throws (Unit {0})
validate_stream_item payload = do
  require (is_unsigned_integer (get (units "sequence") payload) max_safe_integer)
      invalid_message_payload
  require (has_own (units "value") payload) invalid_message_payload

unfoldable pub validate_stream_end : Fields → Throws (Unit {0})
validate_stream_end payload =
    require (is_unsigned_integer (get (units "count") payload) max_safe_integer)
      invalid_message_payload

unfoldable pub validate_error : Fields → Throws (Unit {0})
validate_error payload = do
  require (is_unsigned_integer (get (units "code") payload) max_uint32) invalid_message_payload
  require (is_non_empty_string (get (units "name") payload)) invalid_message_payload
  require (is_non_empty_string (get (units "message") payload)) invalid_message_payload
  require (is_boolean (get (units "retryable") payload)) invalid_message_payload
  require (not (has_own (units "details") payload) || is_document (get (units "details") payload))
      invalid_message_payload

unfoldable pub validate_fields : ℕ → Fields → Throws (Unit {0})
validate_fields kind payload =
    if kind == 0x01
    then validate_handshake payload
    else if kind == 0x02
    then validate_ping payload
    else if kind == 0x03
    then validate_command payload
    else if kind == 0x04
    then validate_result payload
    else if kind == 0x05
    then validate_stream_item payload
    else if kind == 0x06
    then validate_stream_end payload
    else if kind == 0x07
    then validate_error payload
    else err invalid_message_kind

unfoldable pub validate_message_payload : ℕ → Value → Throws (Unit {0})
validate_message_payload kind (document payload) = validate_fields kind payload
validate_message_payload kind _ = err invalid_message_payload

unfoldable pub encode_message_payload : ℕ → Value → Throws Bytes
encode_message_payload kind payload = do
  validate_message_payload kind payload
  encode_document_value payload

unfoldable pub decode_message_payload : ℕ → Bytes → Throws Fields
decode_message_payload kind encoded = do
  payload ← decode_document encoded
  validate_message_payload kind (document payload)
  ok payload

pub record MessageInput : Type 0 where
  pub kind : ℕ
  pub request_id : ℕ
  pub payload : Value
  pub flags : Option ℕ

pub record DecodedMessage : Type 0 where
  pub version : ℕ
  pub kind : ℕ
  pub flags : ℕ
  pub request_id : ℕ
  pub payload : Fields

unfoldable pub encode_message : MessageInput → Throws Bytes
encode_message input = do
  payload ← encode_message_payload input.kind input.payload
  encode_frame (record {
    kind = input.kind;
    request_id = input.request_id;
    payload = payload;
    flags = input.flags;
  })

unfoldable pub decode_message : Bytes → Throws DecodedMessage
decode_message encoded = do
  frame ← decode_frame encoded
  payload ← decode_message_payload frame.kind frame.payload
  ok (record {
    version = frame.version;
    kind = frame.kind;
    flags = frame.flags;
    request_id = frame.request_id;
    payload = payload;
  })
