-- ===== src/Protocol/Stream.antt =====
-- packages/protocol/src/message-stream-decoder.ts. The state is the decoder's array with its unused
-- end, and how much of it is in use.
pub mod Chunks
mod Tests
use sinterdb.Prelude.{
  ℕ, zero, suc, ◌+◌, ◌-◌, ◌*◌, Bool, true, false, List, [], ◌∷◌, ◌++◌, Bytes, Result, ok, err, leb,
  ltb, ◌==◌, if◌then◌else◌, length, take, drop, replicate,
}
use Prim.Native.Nat.{max}
use sinterdb.Protocol.Errors.{ProtocolErrorCode, Throws, frame_header_size}
use sinterdb.Protocol.Frame.{get_frame_length}
use sinterdb.Protocol.Message.{DecodedMessage, decode_message}

pub record MessageStreamDecoder : Type 0 where
  pub buffered : Bytes
  pub used : ℕ

abbrev pub new_decoder : MessageStreamDecoder
new_decoder = record { buffered = []; used = 0 }

-- `target.set(chunk, offset)`, and `array.copyWithin(0, start, end)`.
abbrev pub set_at : Bytes → ℕ → Bytes → Bytes
set_at target offset chunk = take offset target ++ (chunk ++ drop (offset + length chunk) target)

abbrev pub copy_to_start : Bytes → ℕ → ℕ → Bytes
copy_to_start target start stop = set_at target 0 (drop start (take stop target))

-- The larger array, if the chunk does not fit.
unfoldable pub grow : ℕ → MessageStreamDecoder → Bytes
grow required s =
    if ltb (length s.buffered) required
    then set_at (replicate (max required (max (length s.buffered * 2) frame_header_size)) 0) 0
        (take s.used s.buffered)
    else s.buffered

unfoldable pub append : Bytes → MessageStreamDecoder → MessageStreamDecoder
append chunk s =
    let required = s.used + length chunk in
    record { buffered = set_at (grow required s) s.used chunk; used = required }

-- How far the loop of `push` got, and what it returns or throws.
pub record Drained : Type 0 where
  pub consumed : ℕ
  pub result : Throws (List DecodedMessage)

abbrev pub prepend : DecodedMessage → Throws (List DecodedMessage) → Throws (List DecodedMessage)
prepend m (ok ms) = ok (m ∷ ms)
prepend m (err e) = err e

abbrev pub with_message : DecodedMessage → Drained → Drained
with_message m d = record { consumed = d.consumed; result = prepend m d.result }

-- The loop, on fuel; `live` is what is buffered from `consumed` on. A frame is consumed before it is
-- decoded.
unfoldable pub drain : ℕ → ℕ → Bytes → Drained
drain zero consumed live = record { consumed = consumed; result = ok [] }
drain (suc fuel) consumed live = elim (leb frame_header_size (length live)) [
  | false ↦ record { consumed = consumed; result = ok [] }
  | true ↦ elim (get_frame_length live) [
    | err e ↦ record { consumed = consumed; result = err e }
    | ok size ↦ elim (ltb (length live) size) [
      | true ↦ record { consumed = consumed; result = ok [] }
      | false ↦ elim (decode_message (take size live)) [
        | err e ↦ record { consumed = consumed + size; result = err e }
        | ok m ↦ with_message m (drain fuel (consumed + size) (drop size live))
      ]
    ]
  ]
]

-- The `finally` block.
unfoldable pub compact : ℕ → MessageStreamDecoder → MessageStreamDecoder
compact consumed s =
    if consumed == 0
    then s
    else record { buffered = copy_to_start s.buffered consumed s.used; used = s.used - consumed }

-- What `push` returns or throws, and the decoder after it. As much fuel as there are bytes is enough,
-- since a frame has at least 16.
unfoldable pub push :
    Bytes → MessageStreamDecoder → Throws (List DecodedMessage) × MessageStreamDecoder
push [] s = (ok [], s)
push (b ∷ bs) s =
    let s1 = append (b ∷ bs) s in
    let d = drain (suc s1.used) 0 (take s1.used s1.buffered) in (d.result, compact d.consumed s1)

unfoldable pub reset : MessageStreamDecoder → MessageStreamDecoder
reset s = new_decoder
