-- ===== src/Protocol/Reader.antt =====
-- packages/protocol/src/binary-reader.ts: a cursor over the bytes of a payload.
pub mod Rest
use sinterdb.Prelude.{ℕ, ◌+◌, ◌-◌, Bytes, ok, err, ◌>>=◌, ltb, if◌then◌else◌, length, take, drop}
use sinterdb.Prelude.Int.{ℤ}
use sinterdb.Protocol.BigEndian.{be_value, to_signed, u64, u32}
use sinterdb.Protocol.Number.{canonical}
use sinterdb.Protocol.Errors.{Throws, unexpected_end}

pub record Reader : Type 0 where
  pub source : Bytes
  pub offset : ℕ

abbrev pub remaining : Reader → ℕ
remaining r = length r.source - r.offset

-- `ensureAvailable`, the bytes at the offset, and the new offset: the body of every `read` method.
unfoldable pub read_bytes : ℕ → Reader → Throws (Bytes × Reader)
read_bytes size r =
    if ltb (remaining r) size
    then err unexpected_end
    else ok (take size (drop r.offset r.source), record r { offset = r.offset + size })

unfoldable pub read_uint8 : Reader → Throws (ℕ × Reader)
read_uint8 r = do (bytes, r') ← read_bytes 1 r; ok (be_value bytes, r')

unfoldable pub read_uint32 : Reader → Throws (ℕ × Reader)
read_uint32 r = do (bytes, r') ← read_bytes 4 r; ok (be_value bytes, r')

unfoldable pub read_int32 : Reader → Throws (ℤ × Reader)
read_int32 r = do (bytes, r') ← read_bytes 4 r; ok (to_signed u32 (be_value bytes), r')

unfoldable pub read_big_int64 : Reader → Throws (ℤ × Reader)
read_big_int64 r = do (bytes, r') ← read_bytes 8 r; ok (to_signed u64 (be_value bytes), r')

-- The bit pattern of the double; every NaN is read as the one JavaScript value.
unfoldable pub read_float64 : Reader → Throws (ℕ × Reader)
read_float64 r = do (bytes, r') ← read_bytes 8 r; ok (canonical (be_value bytes), r')
