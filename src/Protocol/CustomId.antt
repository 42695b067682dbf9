-- ===== src/Protocol/CustomId.antt =====
-- packages/protocol/src/custom-id.ts. An id is the list of its bytes; the clock and the random bytes
-- are arguments.
pub mod Hex
mod Tests
use sinterdb.Prelude.{
  ℕ, zero, suc, ◌+◌, ◌-◌, ◌*◌, ◌/◌, ◌%◌, Bool, true, false, ◌&&◌, ◌||◌, Option, none, some, [], ◌∷◌,
  ◌++◌, Bytes, Str, Result, ok, err, ◌>>=◌, ◌>>◌, require, leb, ◌==◌, if◌then◌else◌, length, take,
  str_eq,
}
use sinterdb.Protocol.BigEndian.{be_bytes, be_value}
use sinterdb.Protocol.Document.{custom_id_byte_length}

pub data CustomIdError : Type 0 where
  type_error range_error : CustomIdError

abbrev pub custom_id_hex_length : ℕ
custom_id_hex_length = custom_id_byte_length * 2

abbrev pub timestamp_byte_length : ℕ
timestamp_byte_length = 6

abbrev pub max_timestamp : ℕ
max_timestamp = 0xffffffffffff

unfoldable pub write_timestamp : ℕ → Result CustomIdError Bytes
write_timestamp value = do
  require (leb value max_timestamp) range_error
  ok (be_bytes timestamp_byte_length value)

unfoldable pub generate : ℕ → Bytes → Result CustomIdError Bytes
generate now random = do time ← write_timestamp now; ok (time ++ random)

unfoldable pub from_bytes : Bytes → Result CustomIdError Bytes
from_bytes value = do require (length value == custom_id_byte_length) type_error; ok value

-- The value of a hexadecimal digit, of either case.
unfoldable pub hex_value : ℕ → Option ℕ
hex_value c =
    if leb 0x30 c && leb c 0x39
    then some (c - 0x30)
    else if leb 0x41 c && leb c 0x46
    then some (c - 0x37)
    else if leb 0x61 c && leb c 0x66
    then some (c - 0x57)
    else none

abbrev pub push_byte : Option ℕ → Option ℕ → Option Bytes → Option Bytes
push_byte (some high) (some low) (some bytes) = some ((high * 16 + low) ∷ bytes)
push_byte _ _ _ = none

-- The loop over the pairs of digits; a character that is no digit is what the pattern refuses.
unfoldable pub parse_hex : Str → Option Bytes
parse_hex [] = some []
parse_hex (_ ∷ []) = none
parse_hex (c ∷ d ∷ s) = push_byte (hex_value c) (hex_value d) (parse_hex s)

unfoldable pub from_hex_string : Str → Result CustomIdError Bytes
from_hex_string value =
    if length value == custom_id_hex_length
    then elim (parse_hex value) [ none ↦ err type_error | some bytes ↦ ok bytes ]
    else err type_error

unfoldable pub hex_digit : ℕ → ℕ
hex_digit n = if leb n 9 then n + 0x30 else n + 0x57

unfoldable pub to_hex_string : Bytes → Str
to_hex_string [] = []
to_hex_string (b ∷ bs) = hex_digit (b / 16) ∷ (hex_digit (b % 16) ∷ to_hex_string bs)

-- The milliseconds since the epoch.
unfoldable pub timestamp : Bytes → ℕ
timestamp bytes = be_value (take timestamp_byte_length bytes)

unfoldable pub equals : Bytes → Bytes → Bool
equals bytes other = str_eq bytes other
