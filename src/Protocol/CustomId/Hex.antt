-- ===== src/Protocol/CustomId/Hex.antt =====
-- Ids as text, and the time within an id.
use sinterdb.Prelude.{
  ℕ, ◌+◌, ◌*◌, ◌/◌, ◌%◌, ◌<◌, ◌≡◌, refl, true, some, [], ◌∷◌, Bytes, Result, ok, require-eq-ok,
  >>=-eq-ok, leb, leb→le, ◌==◌, length, arith,
}
use sinterdb.Protocol.BigEndian.{be_bytes, be_value-be_bytes}
use sinterdb.Protocol.Document.{custom_id_byte_length}
use sinterdb.Protocol.CustomId.{
  CustomIdError, custom_id_hex_length, max_timestamp, write_timestamp, generate, hex_value,
  parse_hex, from_hex_string, hex_digit, to_hex_string, timestamp,
}

-- Lists of bytes.
abbrev pub AreBytes : Bytes → Type 0
AreBytes [] = Unit
AreBytes (b ∷ bs) = (b < 256) × AreBytes bs

hex_value-hex_digit : (n : ℕ) → n < 16 → hex_value (hex_digit n) ≡ some n
unfolding hex_value hex_digit
hex_value-hex_digit n h = ground arith

length-to_hex_string : (bs : Bytes) → length (to_hex_string bs) ≡ length bs * 2
unfolding to_hex_string
length-to_hex_string [] = refl
length-to_hex_string (b ∷ bs) = omega (arith, length-to_hex_string bs)

parse_hex-to_hex_string : (bs : Bytes) → AreBytes bs → parse_hex (to_hex_string bs) ≡ some bs
unfolding parse_hex to_hex_string
parse_hex-to_hex_string [] h = refl
parse_hex-to_hex_string (b ∷ bs) (small, h) =
    let e : b / 16 * 16 + b % 16 ≡ b = omega arith in
    rw (hex_value-hex_digit (b / 16) (omega arith)) (
      rw (hex_value-hex_digit (b % 16) (omega arith))
        (rw (parse_hex-to_hex_string bs h) (rw e refl)))

-- An id of 16 bytes is read back from its hexadecimal string.
pub from_hex_string-to_hex_string :
    (bytes : Bytes)
    → AreBytes bytes
    → length bytes ≡ custom_id_byte_length
    → from_hex_string (to_hex_string bytes) ≡ ok bytes
unfolding from_hex_string
from_hex_string-to_hex_string bytes h size =
    let long : (length (to_hex_string bytes) == custom_id_hex_length) ≡ true =
      ground (arith, length-to_hex_string bytes) in
    rw long (rw (parse_hex-to_hex_string bytes h))

inner : {xs ys : Bytes} → ◌≡◌ {A = Result CustomIdError Bytes} (ok xs) (ok ys) → xs ≡ ys
inner h = cc

-- If an id is generated, its timestamp is the time of the clock.
pub timestamp-generate :
    (now : ℕ) (random bytes : Bytes) → generate now random ≡ ok bytes → timestamp bytes ≡ now
unfolding generate write_timestamp timestamp be_bytes
timestamp-generate now random bytes h =
    let (time, time_is, bytes_are) = >>=-eq-ok (write_timestamp now) _ h in
    let (small, written) = require-eq-ok (leb now max_timestamp) _ _ time_is in
    let time_bytes = inner written in
    let all = inner bytes_are in
    rw (← all)
      (rw (← time_bytes) (be_value-be_bytes 6 now (omega (arith, leb→le now max_timestamp small))))
