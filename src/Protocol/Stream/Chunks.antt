-- ===== src/Protocol/Stream/Chunks.antt =====
-- The stream decoder against the stream it is given: how the bytes are cut into chunks makes no
-- difference.
pub mod Drain
pub mod Buffer
pub mod Push
pub mod Frames
use sinterdb.Prelude.{
  ℕ, zero, suc, ◌+◌, ◌-◌, ◌*◌, ◌≤◌, ◌<◌, ◌≡◌, refl, sym, ap, ◌∙◌, ◌⊎◌, inl, inr, Bool, true, false,
  List, [], ◌∷◌, ◌++◌, Bytes, Result, ok, err, leb, ltb, ◌==◌, if◌then◌else◌, length, take, drop,
  replicate, arith, lt_or_ge, append_assoc, length-append, length-drop, length-take, take-append_le,
  drop-append_le, take-append_self, drop-append_self,
}
use sinterdb.Protocol.Errors.{ProtocolErrorCode, Throws, frame_header_size}
use sinterdb.Protocol.Frame.{get_frame_length}
use sinterdb.Protocol.Frame.RoundTrip.{get_frame_length-append}
use sinterdb.Protocol.Message.{DecodedMessage, decode_message}

-- Less than a frame: a part of a header, or a header that promises more.
unfoldable pub IsPartial : Bytes → Type 0
IsPartial live =
    (length live < frame_header_size)
    ⊎ ((size : ℕ) × (get_frame_length live ≡ ok size)
        × (length live < size)
        × (frame_header_size ≤ length live))

-- What a stream holds: its frames' messages and, behind them, less than a frame.
pub data Parses : Bytes → List DecodedMessage → Bytes → Type 0 where
  stop : (live : Bytes) → IsPartial live → Parses live [] live
  next :
      (live rest : Bytes) (size : ℕ) (m : DecodedMessage) (ms : List DecodedMessage)
      → frame_header_size ≤ length live
      → get_frame_length live ≡ ok size
      → size ≤ length live
      → decode_message (take size live) ≡ ok m
      → Parses (drop size live) ms rest
      → Parses live (m ∷ ms) rest

-- More bytes behind a stream.
pub Parses-append :
    {live rest end : Bytes} {ms ns : List DecodedMessage} (more : Bytes)
    → Parses live ms rest
    → Parses (rest ++ more) ns end
    → Parses (live ++ more) (ms ++ ns) end
Parses-append more (stop live h) q = q
Parses-append {end = end} {ns = ns} more (next live rest size m ms long is_size fits is_m p) q =
    next (live ++ more) end size m (ms ++ ns) (omega (arith, length-append live more))
      (get_frame_length-append live more long ∙ is_size) (omega (arith, length-append live more))
      (rw (take-append_le size live more fits) is_m)
      (rw (drop-append_le size live more fits) (Parses-append more p q))

IsPartial-prefix : (live more : Bytes) → IsPartial (live ++ more) → IsPartial live
unfolding IsPartial
IsPartial-prefix live more h = elim (lt_or_ge (length live) frame_header_size) [
  | inl short ↦ inl short
  | inr long ↦ elim h [
    | inl short ↦ absurd (omega (arith, length-append live more))
    | inr (size, is_size, short, _) ↦ inr (
      size,
      sym (get_frame_length-append live more long) ∙ is_size,
      omega (arith, length-append live more),
      long,
    )
  ]
]

-- How a stream that is cut in two is read.
pub record Split (live more : Bytes) (ms : List DecodedMessage) (end : Bytes) : Type 0 where
  pub rest : Bytes
  pub before : List DecodedMessage
  pub after : List DecodedMessage
  pub first : Parses live before rest
  pub second : Parses (rest ++ more) after end
  pub all : ms ≡ before ++ after

cut-before :
    {live more end : Bytes} {ms : List DecodedMessage}
    → IsPartial live
    → Parses (live ++ more) ms end
    → Split live more ms end
cut-before {live = live} {ms = ms} h p = record {
  rest = live;
  before = [];
  after = ms;
  first = stop live h;
  second = p;
  all = refl;
}

pub Parses-Split :
    (live more : Bytes) {total end : Bytes} {ms : List DecodedMessage}
    → Parses total ms end
    → total ≡ live ++ more
    → Split live more ms end
unfolding IsPartial
Parses-Split live more (stop total h) e =
    cut-before (IsPartial-prefix live more (rw (← e) h)) (rw (← e) (stop total h))
Parses-Split live more (next total end size m ms long is_size fits is_m p) e =
    elim (lt_or_ge (length live) frame_header_size) [
      | inl short ↦
          cut-before (inl short) (rw (← e) (next total end size m ms long is_size fits is_m p))
      | inr long_is ↦
          let size_is = sym (get_frame_length-append live more long_is) ∙ rw (← e) is_size in
          elim (lt_or_ge (length live) size) [
            | inl short ↦
                cut-before (inr (size, size_is, short, long_is))
                  (rw (← e) (next total end size m ms long is_size fits is_m p))
            | inr fits_is ↦
                let s =
                  Parses-Split (drop size live) more p
                    (ap (drop size) e ∙ drop-append_le size live more fits_is) in
                record {
                  rest = s.rest;
                  before = m ∷ s.before;
                  after = s.after;
                  first =
                      next live s.rest size m s.before long_is size_is fits_is
                        (rw (← take-append_le size live more fits_is) (rw (← e) is_m)) s.first;
                  second = s.second;
                  all = ap (◌∷◌ m) s.all;
                }
          ]
    ]
