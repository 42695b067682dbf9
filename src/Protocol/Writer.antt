-- ===== src/Protocol/Writer.antt =====
-- packages/protocol/src/binary-writer.ts: a growing buffer with a limit.
pub mod Append
use Prim.Native.Nat.{min, max}
use sinterdb.Prelude.{
  ℕ, ◌+◌, ◌*◌, ◌++◌, Bytes, ok, err, ◌>>=◌, leb, ltb, if◌then◌else◌, length, take, drop, replicate,
}
use sinterdb.Prelude.Int.{ℤ}
use sinterdb.Protocol.BigEndian.{be_bytes, to_unsigned, u64, u32}
use sinterdb.Protocol.Errors.{Throws, payload_too_large, max_payload_size}

pub record Writer : Type 0 where
  pub buffer : Bytes
  pub written : ℕ

abbrev pub initial_capacity : ℕ
initial_capacity = 256

unfoldable pub new_writer : Writer
new_writer = record { buffer = replicate initial_capacity 0; written = 0 }

-- `target.set(bytes, offset)` on a `Uint8Array`.
unfoldable pub set_bytes : Bytes → ℕ → Bytes → Bytes
set_bytes target offset bytes = take offset target ++ (bytes ++ drop (offset + length bytes) target)

unfoldable pub ensure_capacity : ℕ → Writer → Throws Writer
ensure_capacity additional_bytes w =
    let required_capacity = w.written + additional_bytes in
    if ltb max_payload_size required_capacity
    then err payload_too_large
    else if leb required_capacity (length w.buffer)
    then ok w
    else let next_capacity = min max_payload_size (max required_capacity (length w.buffer * 2)) in
      ok (record w { buffer = set_bytes (replicate next_capacity 0) 0 w.buffer })

-- The body of every `write` method, with the number of bytes that it reserves.
unfoldable pub store : ℕ → Bytes → Writer → Throws Writer
store size bytes w = do
  w' ← ensure_capacity size w
  ok (record { buffer = set_bytes w'.buffer w'.written bytes; written = w'.written + size })

unfoldable pub write_uint8 : ℕ → Writer → Throws Writer
write_uint8 value = store 1 (be_bytes 1 value)

unfoldable pub write_int32 : ℤ → Writer → Throws Writer
write_int32 value = store 4 (be_bytes 4 (to_unsigned u32 value))

unfoldable pub write_uint32 : ℕ → Writer → Throws Writer
write_uint32 value = store 4 (be_bytes 4 value)

unfoldable pub write_big_int64 : ℤ → Writer → Throws Writer
write_big_int64 value = store 8 (be_bytes 8 (to_unsigned u64 value))

-- A double is given by its bit pattern.
unfoldable pub write_float64 : ℕ → Writer → Throws Writer
write_float64 value = store 8 (be_bytes 8 value)

unfoldable pub write_big_uint64 : ℕ → Writer → Throws Writer
write_big_uint64 value = store 8 (be_bytes 8 value)

unfoldable pub write_bytes : Bytes → Writer → Throws Writer
write_bytes value = store (length value) value

unfoldable pub finish : Writer → Bytes
finish w = take w.written w.buffer
