-- ===== src/Storage/Wal/Segment.antt =====
-- The headers of log segments.
use sinterdb.Prelude.{
  ℕ, ◌^◌, ◌<◌, ◌≡◌, refl, sym, true, false, ◌++◌, Bytes, ok, require-eq-ok, ltb, ==_refl, length,
  str_eq, arith,
}
use sinterdb.Protocol.BigEndian.{be_bytes, be_value-be_bytes}
use sinterdb.Storage.Wal.{
  check_lsn, subarray, read_uint, segment_fields, encode_segment_header, decode_segment_header,
  wal_format_version, segment_header_size, segment_magic,
}
use sinterdb.Storage.Wal.Scan.{inner}

module _ (crc32 : Bytes → ℕ) (crc32-lt : (bs : Bytes) → crc32 bs < 2 ^ 32) where
  encode_segment_header-eq-ok :
      (first_lsn : ℕ) (bytes : Bytes)
      → encode_segment_header crc32 first_lsn ≡ ok bytes
      → (first_lsn < 2 ^ 64)
        × (bytes
            ≡ segment_fields crc32 first_lsn ++ be_bytes 4 (crc32 (segment_fields crc32 first_lsn)))
  unfolding encode_segment_header check_lsn
  encode_segment_header-eq-ok first_lsn bytes h =
      let (lsn_is, h1) = require-eq-ok (ltb first_lsn (2 ^ 64)) _ _ h in
      (ground arith, sym (inner h1))

  decode_segment_header-fields :
      (bytes fields : Bytes) (first_lsn : ℕ)
      → ltb (length bytes) segment_header_size ≡ false
      → str_eq (subarray 0 8 bytes) segment_magic ≡ true
      → read_uint 4 20 bytes ≡ crc32 fields
      → subarray 0 20 bytes ≡ fields
      → read_uint 4 8 bytes ≡ wal_format_version
      → read_uint 8 12 bytes ≡ first_lsn
      → decode_segment_header crc32 bytes ≡ ok first_lsn
  unfolding decode_segment_header
  decode_segment_header-fields bytes fields first_lsn long magic sum summed version lsn =
      rw long
        (rw magic (rw sum (rw summed (rw (==_refl (crc32 fields)) (rw version (rw lsn refl))))))

  -- The header of a segment, with any bytes behind it, is decoded to the sequence number that it was
  -- encoded from.
  pub decode-encode_segment_header :
      (first_lsn : ℕ) (bytes tail : Bytes)
      → encode_segment_header crc32 first_lsn ≡ ok bytes
      → decode_segment_header crc32 (bytes ++ tail) ≡ ok first_lsn
  unfolding read_uint subarray segment_fields be_bytes str_eq
  decode-encode_segment_header first_lsn bytes tail h =
      let (fits, bytes_is) = encode_segment_header-eq-ok first_lsn bytes h in
      let sum = be_bytes 4 (crc32 (segment_fields crc32 first_lsn)) in
      let whole = (segment_fields crc32 first_lsn ++ sum) ++ tail in
      rw bytes_is (
        decode_segment_header-fields whole (segment_fields crc32 first_lsn) first_lsn (ground arith)
          refl
          (be_value-be_bytes 4 (crc32 (segment_fields crc32 first_lsn))
            (crc32-lt (segment_fields crc32 first_lsn)))
          refl (be_value-be_bytes 4 wal_format_version (omega arith))
          (be_value-be_bytes 8 first_lsn (omega (arith, fits))))
