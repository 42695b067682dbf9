-- ===== src/Protocol/CustomId/Tests.antt =====
-- Ids on concrete inputs.
use sinterdb.Prelude.{◌≡◌, refl, [], ◌∷◌, Bytes, ok, arith}
use sinterdb.Protocol.BigEndian.{be_bytes}
use sinterdb.Protocol.CustomId.{
  write_timestamp, generate, from_hex_string, to_hex_string, timestamp,
}
use sinterdb.Protocol.CustomId.Hex.{AreBytes, from_hex_string-to_hex_string, timestamp-generate}
use sinterdb.Protocol.RequestId.{nth_id, nth_id_lem}

abbrev random : Bytes
random = 1 ∷ 2 ∷ 3 ∷ 4 ∷ 5 ∷ 6 ∷ 7 ∷ 8 ∷ 9 ∷ 255 ∷ []

abbrev custom_id : Bytes
custom_id = 0 ∷ 0 ∷ 0 ∷ 0 ∷ 1 ∷ 44 ∷ random

custom_id-AreBytes : AreBytes custom_id
custom_id-AreBytes = ground arith

from_hex_string-to_hex_string_example : from_hex_string (to_hex_string custom_id) ≡ ok custom_id
from_hex_string-to_hex_string_example =
    from_hex_string-to_hex_string custom_id custom_id-AreBytes refl

generated : generate 300 random ≡ ok custom_id
unfolding generate write_timestamp be_bytes
generated = refl

timestamp-generate_example : timestamp custom_id ≡ 300
timestamp-generate_example = timestamp-generate 300 random custom_id generated

nth_id_lem_example : nth_id 2 4294967294 ≡ 1
nth_id_lem_example = nth_id_lem 2 4294967294 (omega arith) (omega arith)
