-- ===== src/Storage/Wal/Tests.antt =====
-- The log's format on concrete inputs, with a checksum that counts the bytes.
use sinterdb.Prelude.{ℕ, ◌%◌, ◌^◌, ◌<◌, ◌≡◌, refl, [], ◌∷◌, ◌++◌, Bytes, ok, length, take, arith}
use sinterdb.Protocol.BigEndian.{be_bytes}
use sinterdb.Storage.Wal.{
  Reason, check_lsn, record_fields, segment_fields, encode_segment_header, decode_segment_header,
  encode_record, scan_record, record_found, torn,
}
use sinterdb.Storage.Wal.Recovery.{scan-encode_record, scan-take_record}
use sinterdb.Storage.Wal.Segment.{decode-encode_segment_header}

abbrev checksum : Bytes → ℕ
checksum bytes = length bytes % 2 ^ 32

checksum-lt : (bytes : Bytes) → checksum bytes < 2 ^ 32
checksum-lt bytes = omega arith

-- The record with the number 5, the type 2 and two bytes.
abbrev written : Bytes
written =
    0 ∷ 0 ∷ 0 ∷ 13 ∷ 0 ∷ 0 ∷ 0 ∷ 2 ∷ 0 ∷ 0 ∷ 0 ∷ 0 ∷ 0 ∷ 0 ∷ 0 ∷ 5 ∷ 2 ∷ 0 ∷ 0 ∷ 0 ∷ 2 ∷ 8 ∷ 9 ∷ []

record-encoded : encode_record checksum 5 2 (8 ∷ 9 ∷ []) ≡ ok written
unfolding encode_record check_lsn record_fields be_bytes
record-encoded = refl

abbrev header : Bytes
header =
    0x53 ∷ 0x49 ∷ 0x4e ∷ 0x54 ∷ 0x57 ∷ 0x41 ∷ 0x4c ∷ 0x00 ∷ 0 ∷ 0 ∷ 0 ∷ 1 ∷ 0 ∷ 0 ∷ 0 ∷ 0 ∷ 0 ∷ 0
    ∷ 1 ∷ 4 ∷ 0 ∷ 0 ∷ 0 ∷ 20 ∷ []

header-encoded : encode_segment_header checksum 260 ≡ ok header
unfolding encode_segment_header check_lsn segment_fields be_bytes
header-encoded = refl

scan-encode_record_example :
    scan_record checksum (header ++ (written ++ (1 ∷ []))) 24 5 ≡ record_found 5 2 (8 ∷ 9 ∷ []) 47
scan-encode_record_example =
    scan-encode_record checksum checksum-lt header (1 ∷ []) 5 2 (8 ∷ 9 ∷ []) written record-encoded
      (omega arith)

scan-take_record_example :
    (reason : Reason) × (scan_record checksum (header ++ take 22 written) 24 5 ≡ torn reason)
scan-take_record_example =
    scan-take_record checksum checksum-lt header 5 2 22 (8 ∷ 9 ∷ []) written record-encoded
      (omega arith) (omega arith) (omega arith)

decode-encode_segment_header_example : decode_segment_header checksum (header ++ written) ≡ ok 260
decode-encode_segment_header_example =
    decode-encode_segment_header checksum checksum-lt 260 header written header-encoded
