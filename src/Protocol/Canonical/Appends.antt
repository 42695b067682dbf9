-- ===== src/Protocol/Canonical/Appends.antt =====
-- Writes that append given bytes, or throw when the payload limit would be passed.
use sinterdb.Prelude.{
  ℕ, ◌+◌, ◌≤◌, ◌<◌, ◌≡◌, refl, sym, ◌⊎◌, inl, inr, [], ◌++◌, append_assoc, append-nil, Bytes, ok,
  err, ◌>>=◌, length, length-append, arith,
}
use native.Mathlib.Decide.{dec_le}
use sinterdb.Prelude.Int.{ℤ}
use sinterdb.Protocol.BigEndian.{be_bytes, length-be_bytes, to_unsigned, u32, u64}
use sinterdb.Protocol.Errors.{Throws, payload_too_large, max_payload_size}
use sinterdb.Protocol.Writer.{
  Writer, store, write_uint8, write_uint32, write_int32, write_big_int64, write_float64,
  write_big_uint64, write_bytes,
}
use sinterdb.Protocol.Writer.Append.{Represents, store_lem, store_full}
use sinterdb.Protocol.Encoder.{write_length_prefixed_bytes}
use sinterdb.Protocol.Canonical.{prefixed}

abbrev pub Fits : Bytes → Bytes → Type 0
Fits acc bytes = length acc + length bytes ≤ max_payload_size

abbrev pub Overflows : Bytes → Bytes → Type 0
Overflows acc bytes = max_payload_size < length acc + length bytes

abbrev pub Appended : Bytes → Throws Writer → Type 0
Appended bytes result = (w' : Writer) × (result ≡ ok w') × Represents w' bytes

abbrev pub Outcome : Bytes → Bytes → Throws Writer → Type 0
Outcome acc bytes result =
    (Fits acc bytes × Appended (acc ++ bytes) result)
    ⊎ (Overflows acc bytes × (result ≡ err payload_too_large))

abbrev pub Appends : (Writer → Throws Writer) → Bytes → Type 0
Appends write bytes = (w : Writer) (acc : Bytes) → Represents w acc → Outcome acc bytes (write w)

store-Appends : (size : ℕ) (bytes : Bytes) → size ≡ length bytes → Appends (store size bytes) bytes
store-Appends size bytes e w acc r = elim (dec_le (length acc + length bytes) max_payload_size) [
  | yes fits ↦ inl (fits, store_lem w acc size bytes r e (omega arith))
  | no full ↦ inr (omega arith, store_full w acc size bytes r (omega arith))
]

pub Appends-pure : Appends (λ w. ok w) []
Appends-pure w acc r = elim (dec_le (length acc) max_payload_size) [
  | yes fits ↦ inl (omega (arith, r.size, r.limited), (w, refl, rw (append-nil acc) r))
  | no full ↦ absurd (omega (arith, r.size, r.limited))
]

pub Appends-bind :
    (f g : Writer → Throws Writer) (bs cs : Bytes)
    → Appends f bs
    → Appends g cs
    → Appends (λ w. f w >>= g) (bs ++ cs)
Appends-bind f g bs cs first second w acc r = elim (first w acc r) [
  | inr (full, e) ↦ inr (omega (arith, length-append bs cs), rw e refl)
  | inl (fits, (w1, e1, r1)) ↦ elim (second w1 (acc ++ bs) r1) [
    | inr (full, e) ↦ inr (omega (arith, length-append bs cs, length-append acc bs), rw e1 e)
    | inl (fits2, (w2, e2, r2)) ↦ inl (
      omega (arith, length-append bs cs, length-append acc bs),
      (w2, rw e1 e2, rw (← append_assoc acc bs cs) r2),
    )
  ]
]

-- A write followed by a write.
pub write_uint8-Appends : (x : ℕ) → Appends (write_uint8 x) (be_bytes 1 x)
unfolding write_uint8
write_uint8-Appends x = store-Appends 1 (be_bytes 1 x) (sym (length-be_bytes 1 x))

pub write_uint32-Appends : (x : ℕ) → Appends (write_uint32 x) (be_bytes 4 x)
unfolding write_uint32
write_uint32-Appends x = store-Appends 4 (be_bytes 4 x) (sym (length-be_bytes 4 x))

pub write_int32-Appends : (z : ℤ) → Appends (write_int32 z) (be_bytes 4 (to_unsigned u32 z))
unfolding write_int32
write_int32-Appends z = store-Appends 4 _ (sym (length-be_bytes 4 (to_unsigned u32 z)))

pub write_big_int64-Appends : (z : ℤ) → Appends (write_big_int64 z) (be_bytes 8 (to_unsigned u64 z))
unfolding write_big_int64
write_big_int64-Appends z = store-Appends 8 _ (sym (length-be_bytes 8 (to_unsigned u64 z)))

pub write_float64-Appends : (x : ℕ) → Appends (write_float64 x) (be_bytes 8 x)
unfolding write_float64
write_float64-Appends x = store-Appends 8 (be_bytes 8 x) (sym (length-be_bytes 8 x))

pub write_big_uint64-Appends : (x : ℕ) → Appends (write_big_uint64 x) (be_bytes 8 x)
unfolding write_big_uint64
write_big_uint64-Appends x = store-Appends 8 (be_bytes 8 x) (sym (length-be_bytes 8 x))

pub write_bytes-Appends : (bytes : Bytes) → Appends (write_bytes bytes) bytes
unfolding write_bytes
write_bytes-Appends bytes = store-Appends (length bytes) bytes refl

pub write_prefixed-Appends :
    (bytes : Bytes) → Appends (write_length_prefixed_bytes bytes) (prefixed bytes)
unfolding write_length_prefixed_bytes prefixed
write_prefixed-Appends bytes =
    Appends-bind (write_uint32 (length bytes)) (write_bytes bytes) _ _
      (write_uint32-Appends (length bytes)) (write_bytes-Appends bytes)
