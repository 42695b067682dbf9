-- ===== src/Protocol/Stream/Chunks/Buffer.antt =====
-- What `append` and the compaction of `push` do to the bytes that are in use.
use Prim.Native.Nat.{max}
use sinterdb.Prelude.{
  ℕ, ◌+◌, ◌-◌, ◌*◌, ◌≤◌, ◌≡◌, refl, sym, ap, ◌∙◌, inl, inr, ◌++◌, Bytes, ltb, ◌==◌, length, take,
  drop, replicate, arith, Bool-cases, length-append, length-drop, length-take, length-replicate,
  append_assoc, take-append_self,
}
use sinterdb.Protocol.Errors.{frame_header_size}
use sinterdb.Protocol.Stream.{MessageStreamDecoder, set_at, grow, append, compact}

-- What is in use lies within the array.
abbrev pub IsWithin : MessageStreamDecoder → Type 0
IsWithin s = s.used ≤ length s.buffered

abbrev pub live_bytes : MessageStreamDecoder → Bytes
live_bytes s = take s.used s.buffered

take-exact : (n : ℕ) (xs ys : Bytes) → length xs ≡ n → take n (xs ++ ys) ≡ xs
take-exact n xs ys h = rw (← h) (take-append_self xs ys)

pub length-live : (s : MessageStreamDecoder) → IsWithin s → length (live_bytes s) ≡ s.used
length-live s h = omega (arith, length-take s.used s.buffered)

length-set_at :
    (target chunk : Bytes) (offset : ℕ)
    → offset + length chunk ≤ length target
    → length (set_at target offset chunk) ≡ length target
length-set_at target chunk offset h = omega (
  arith,
  length-append (take offset target) (chunk ++ drop (offset + length chunk) target),
  length-append chunk (drop (offset + length chunk) target),
  length-take offset target,
  length-drop (offset + length chunk) target,
)

-- Up to the end of what is written.
take-set_at :
    (target chunk : Bytes) (offset : ℕ)
    → offset ≤ length target
    → take (offset + length chunk) (set_at target offset chunk) ≡ take offset target ++ chunk
take-set_at target chunk offset h =
    ap (take (offset + length chunk))
      (sym (append_assoc (take offset target) chunk (drop (offset + length chunk) target)))
    ∙ take-exact (offset + length chunk) (take offset target ++ chunk) _
        (omega (arith, length-append (take offset target) chunk, length-take offset target))

record Grown (required : ℕ) (s : MessageStreamDecoder) : Type 0 where
  room : required ≤ length (grow required s)
  kept : take s.used (grow required s) ≡ live_bytes s

-- `set` at the start.
take-set_at_start :
    (target chunk : Bytes) (n : ℕ) → length chunk ≡ n → take n (set_at target 0 chunk) ≡ chunk
take-set_at_start target chunk n h = take-exact n chunk _ h

grow-Grown :
    (required : ℕ) (s : MessageStreamDecoder) → IsWithin s → s.used ≤ required → Grown required s
unfolding grow
grow-Grown required s h small = elim (Bool-cases (ltb (length s.buffered) required)) [
  | inr fits ↦ record { room = rw fits (ground arith); kept = rw fits refl }
  | inl big ↦
      let size = max required (max (length s.buffered * 2) frame_header_size) in
      let target = replicate {A = ℕ} size 0 in
      let size_is = length-replicate {A = ℕ} size 0 in
      let live_is = length-live s h in
      record {
        room = rw big (omega (arith, length-set_at target (live_bytes s) 0 (omega arith)));
        kept = rw big (take-set_at_start target (live_bytes s) s.used live_is);
      }
]

-- After `append` the chunk stands behind what was in use.
pub append-live :
    (chunk : Bytes) (s : MessageStreamDecoder)
    → IsWithin s
    → IsWithin (append chunk s) × (live_bytes (append chunk s) ≡ live_bytes s ++ chunk)
unfolding append
append-live chunk s h =
    let g = grow-Grown (s.used + length chunk) s h (omega arith) in
    (
      omega (arith, g.room, length-set_at (grow (s.used + length chunk) s) chunk s.used g.room),
      take-set_at (grow (s.used + length chunk) s) chunk s.used (omega (arith, g.room))
          ∙ ap (◌++ chunk) g.kept,
    )

-- After the compaction the first `consumed` bytes of what was in use are gone.
pub compact-live :
    (consumed : ℕ) (s : MessageStreamDecoder)
    → IsWithin s
    → consumed ≤ s.used
    → IsWithin (compact consumed s)
      × (live_bytes (compact consumed s) ≡ drop consumed (live_bytes s))
unfolding compact
compact-live consumed s h small = elim (Bool-cases (consumed == 0)) [
  | inl none ↦ let e : consumed ≡ 0 = ground arith in rw none (h, rw e refl)
  | inr some ↦
      let live_is = length-live s h in
      let rest_is = length-drop consumed (live_bytes s) in
      rw some (
        omega (
          arith,
          length-set_at s.buffered (drop consumed (live_bytes s)) 0
              (omega (arith, rest_is, live_is)),
        ),
        take-set_at_start s.buffered (drop consumed (live_bytes s)) (s.used - consumed)
            (omega (arith, rest_is, live_is)),
      )
]
