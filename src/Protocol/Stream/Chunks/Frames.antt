-- ===== src/Protocol/Stream/Chunks/Frames.antt =====
-- From the sender's frames to the receiver's messages.
use sinterdb.Prelude.{
  ◌≡◌, inl, List, [], ◌∷◌, ◌++◌, Bytes, ok, length, length-append, take-append_self,
  drop-append_self, arith,
}
use sinterdb.Protocol.Frame.{FrameInput, encode_frame}
use sinterdb.Protocol.Frame.RoundTrip.{get_frame_length-encode_frame}
use sinterdb.Protocol.Message.{DecodedMessage, decode_message}
use sinterdb.Protocol.Stream.{new_decoder}
use sinterdb.Protocol.Stream.Chunks.{IsPartial, Parses, stop, next}
use sinterdb.Protocol.Stream.Chunks.Drain.{frame_length-ge}
use sinterdb.Protocol.Stream.Chunks.Push.{concat, PushedAll, push_all-Parses}

-- Frames that were sent, and the messages that they hold.
pub data Sent : List Bytes → List DecodedMessage → Type 0 where
  none_sent : Sent [] []
  one_sent :
      (input : FrameInput) (frame : Bytes) (m : DecodedMessage) (frames : List Bytes)
      (ms : List DecodedMessage)
      → encode_frame input ≡ ok frame
      → decode_message frame ≡ ok m
      → Sent frames ms
      → Sent (frame ∷ frames) (m ∷ ms)

Sent-Parses :
    {frames : List Bytes} {ms : List DecodedMessage} → Sent frames ms → Parses (concat frames) ms []
unfolding concat IsPartial
Sent-Parses none_sent = stop [] (inl (omega arith))
Sent-Parses (one_sent input frame m frames ms is_frame is_m sent) =
    let size = get_frame_length-encode_frame input frame (concat frames) is_frame in
    let big = frame_length-ge (frame ++ concat frames) (length frame) size in
    let long = length-append frame (concat frames) in
    next (frame ++ concat frames) [] (length frame) m ms (omega arith) size (omega arith)
      (rw (take-append_self frame (concat frames)) is_m)
      (rw (drop-append_self frame (concat frames)) (Sent-Parses sent))

-- If the frames that `encodeFrame` returned, one behind the other, reach a new decoder in chunks of any
-- sizes, it returns the messages of all of them in their order and keeps nothing.
pub push_all-Sent :
    (frames chunks : List Bytes) (ms : List DecodedMessage)
    → Sent frames ms
    → concat chunks ≡ concat frames
    → PushedAll chunks new_decoder ms []
unfolding IsPartial
push_all-Sent frames chunks ms sent same =
    push_all-Parses chunks new_decoder ms [] (omega arith) (inl (omega arith))
      (rw same (Sent-Parses sent))
