-- ===== src/Storage/Wal.antt =====
-- packages/storage/src/wal/format.ts: the headers and records of log segments. The checksum of
-- `node:zlib` is the parameter `crc32`.
pub mod Scan
pub mod Recovery
pub mod Segment
mod Tests
use sinterdb.Prelude.{
  ℕ, ◌+◌, ◌-◌, ◌*◌, ◌^◌, Bool, true, false, not, ◌&&◌, [], ◌∷◌, ◌++◌, Bytes, Result, ok, err, ◌>>=◌,
  ◌>>◌, require, leb, ltb, ◌==◌, if◌then◌else◌, length, take, drop, str_eq,
}
use sinterdb.Protocol.BigEndian.{be_bytes, be_value}

abbrev pub wal_format_version : ℕ
wal_format_version = 1

-- "SINTWAL" and a zero byte.
abbrev pub segment_magic : Bytes
segment_magic = 0x53 ∷ 0x49 ∷ 0x4e ∷ 0x54 ∷ 0x57 ∷ 0x41 ∷ 0x4c ∷ 0x00 ∷ []

abbrev pub segment_header_size : ℕ
segment_header_size = 24

abbrev pub record_header_size : ℕ
record_header_size = 21

abbrev pub max_record_payload_size : ℕ
max_record_payload_size = 256 * 1024 * 1024

-- Why a header or a record is refused.
pub data Reason : Type 0 where
  incomplete_segment_header not_a_segment segment_checksum unsupported_version : Reason
  inside_header zero_bytes header_checksum other_lsn too_long inside_payload payload_checksum :
      Reason

pub data RecordScanResult : Type 0 where
  record_found : (lsn type_ : ℕ) (payload : Bytes) (end : ℕ) → RecordScanResult
  at_end : RecordScanResult
  torn : Reason → RecordScanResult
  corrupt : Reason → RecordScanResult

-- `subarray(start, end)`, and the big-endian reads of `Buffer`.
unfoldable pub subarray : ℕ → ℕ → Bytes → Bytes
subarray start stop bytes = take (stop - start) (drop start bytes)

unfoldable pub read_uint : ℕ → ℕ → Bytes → ℕ
unfolding subarray
read_uint size offset bytes = be_value (subarray offset (offset + size) bytes)

unfoldable pub is_zero_filled : Bytes → Bool
is_zero_filled [] = true
is_zero_filled (b ∷ bs) = (b == 0) && is_zero_filled bs

-- `writeBigUInt64BE` and `encodeRecord` throw a `RangeError`.
pub data RangeError : Type 0 where
  lsn_range type_range payload_range : RangeError

unfoldable pub check_lsn : ℕ → Result RangeError (Unit {0})
check_lsn lsn = require (ltb lsn (2 ^ 64)) lsn_range

module _ (crc32 : Bytes → ℕ) where
  unfoldable pub segment_fields : ℕ → Bytes
  segment_fields first_lsn =
      segment_magic ++ (be_bytes 4 wal_format_version ++ be_bytes 8 first_lsn)

  unfoldable pub encode_segment_header : ℕ → Result RangeError Bytes
  encode_segment_header first_lsn = do
    check_lsn first_lsn
    ok (segment_fields first_lsn ++ be_bytes 4 (crc32 (segment_fields first_lsn)))

  unfoldable pub decode_segment_header : Bytes → Result Reason ℕ
  decode_segment_header bytes = do
    require (not (ltb (length bytes) segment_header_size)) incomplete_segment_header
    require (str_eq (subarray 0 8 bytes) segment_magic) not_a_segment
    require (read_uint 4 20 bytes == crc32 (subarray 0 20 bytes)) segment_checksum
    require (read_uint 4 8 bytes == wal_format_version) unsupported_version
    ok (read_uint 8 12 bytes)

  -- The header's bytes behind its checksum and before the payload's.
  unfoldable pub record_fields : ℕ → ℕ → Bytes → Bytes
  record_fields lsn type_ payload =
      be_bytes 4 (length payload) ++ (be_bytes 8 lsn ++ be_bytes 1 type_)

  unfoldable pub encode_record : ℕ → ℕ → Bytes → Result RangeError Bytes
  encode_record lsn type_ payload = do
    require (leb type_ 255) type_range
    require (leb (length payload) max_record_payload_size) payload_range
    check_lsn lsn
    ok (
        be_bytes 4 (crc32 (record_fields lsn type_ payload))
        ++ (record_fields lsn type_ payload ++ (be_bytes 4 (crc32 payload) ++ payload)))

  -- The checks from the payload on.
  unfoldable pub scan_payload : Bytes → ℕ → ℕ → RecordScanResult
  scan_payload bytes offset lsn =
      let size = length bytes in
      let end = offset + record_header_size + read_uint 4 (offset + 4) bytes in
      let payload = subarray (offset + record_header_size) end bytes in
      if ltb size end
      then torn inside_payload
      else if not (read_uint 4 (offset + 17) bytes == crc32 payload)
      then (if end == size then torn payload_checksum else corrupt payload_checksum)
      else record_found lsn (read_uint 1 (offset + 16) bytes) payload end

  unfoldable pub scan_record : Bytes → ℕ → ℕ → RecordScanResult
  scan_record bytes offset expected_lsn =
      let size = length bytes in
      if offset == size
      then at_end
      else if ltb (size - offset) record_header_size
      then torn inside_header
      else if is_zero_filled (subarray offset size bytes)
      then torn zero_bytes
      else if not (read_uint 4 offset bytes == crc32 (subarray (offset + 4) (offset + 17) bytes))
      then corrupt header_checksum
      else if not (read_uint 8 (offset + 8) bytes == expected_lsn)
      then corrupt other_lsn
      else if ltb max_record_payload_size (read_uint 4 (offset + 4) bytes)
      then corrupt too_long
      else scan_payload bytes offset (read_uint 8 (offset + 8) bytes)
