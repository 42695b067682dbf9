-- ===== src/Protocol/Stream/Chunks/Drain.antt =====
-- The loop of `push` finds exactly the whole frames that are there, and has enough fuel.
use native.Mathlib.Nat.{add_assoc}
use sinterdb.Prelude.{
  ℕ, zero, suc, ◌+◌, ◌≤◌, ◌<◌, ◌≡◌, refl, sym, ap, ◌∙◌, inl, inr, true, false, List, [], ◌∷◌, Bytes,
  ok, err, leb, ltb, length, take, drop, arith, Bool-cases, Result-cases, ltb→lt, leb→le,
  length-drop, drop-drop, >>=-eq-ok, le→leb, lt→ltb,
}
use sinterdb.Protocol.Errors.{ProtocolErrorCode, Throws, frame_header_size}
use sinterdb.Protocol.Frame.{get_frame_length, read_frame_header}
use sinterdb.Protocol.Message.{DecodedMessage, decode_message}
use sinterdb.Protocol.Stream.{Drained, prepend, with_message, drain}
use sinterdb.Protocol.Stream.Chunks.{IsPartial, Parses, stop, next}

abbrev drained : ℕ → List DecodedMessage → Drained
drained consumed ms = record { consumed = consumed; result = ok ms }

pub frame_length-ge :
    (live : Bytes) (size : ℕ) → get_frame_length live ≡ ok size → frame_header_size ≤ size
unfolding get_frame_length
frame_length-ge live size h =
    let (header, _, e) = >>=-eq-ok (read_frame_header live) _ h in
    let same : frame_header_size + header.payload_length ≡ size = cc in omega arith

drain-short :
    (fuel consumed : ℕ) (live : Bytes)
    → leb frame_header_size (length live) ≡ false
    → drain (suc fuel) consumed live ≡ drained consumed []
unfolding drain
drain-short fuel consumed live e = rw (e, drain)

drain-cut :
    (fuel consumed size : ℕ) (live : Bytes)
    → leb frame_header_size (length live) ≡ true
    → get_frame_length live ≡ ok size
    → ltb (length live) size ≡ true
    → drain (suc fuel) consumed live ≡ drained consumed []
unfolding drain
drain-cut fuel consumed size live long is_size short = rw (long, is_size, short, drain)

drain-next :
    (fuel consumed size : ℕ) (live : Bytes) (m : DecodedMessage)
    → leb frame_header_size (length live) ≡ true
    → get_frame_length live ≡ ok size
    → ltb (length live) size ≡ false
    → decode_message (take size live) ≡ ok m
    → drain (suc fuel) consumed live
      ≡ with_message m (drain fuel (consumed + size) (drop size live))
unfolding drain
drain-next fuel consumed size live m long is_size fits is_m = rw (long, is_size, fits, is_m, drain)

drain-IsPartial :
    (fuel consumed : ℕ) (live : Bytes)
    → IsPartial live
    → drain fuel consumed live ≡ drained consumed []
unfolding drain IsPartial
drain-IsPartial zero consumed live h = refl
drain-IsPartial (suc fuel) consumed live (inl short) = drain-short fuel consumed live (ground arith)
drain-IsPartial (suc fuel) consumed live (inr (size, is_size, short, long)) =
    drain-cut fuel consumed size live (le→leb frame_header_size (length live) long) is_size
      (lt→ltb (length live) size short)

-- A stream that parses is drained.
pub record DrainedTo (fuel consumed : ℕ) (live rest : Bytes) (ms : List DecodedMessage)
    : Type 0 where
  pub more : ℕ
  pub is : drain fuel consumed live ≡ drained (consumed + more) ms
  pub rest_is : rest ≡ drop more live
  pub within : more ≤ length live

pub drain-Parses :
    (fuel consumed : ℕ) {live rest : Bytes} {ms : List DecodedMessage}
    → length live < fuel
    → Parses live ms rest
    → DrainedTo fuel consumed live rest ms
unfolding drain
drain-Parses zero consumed enough p = absurd (omega arith)
drain-Parses (suc fuel) consumed enough (stop live h) = record {
  more = 0;
  is = drain-IsPartial (suc fuel) consumed live h ∙ ap (λ c. drained c []) (omega arith);
  rest_is = refl;
  within = omega arith;
}
drain-Parses (suc fuel) consumed enough (next live rest size m ms long is_size fits is_m p) =
    let big = frame_length-ge live size is_size in
    let d =
      drain-Parses fuel (consumed + size) {live = drop size live}
        (omega (arith, length-drop size live)) p in
    let fits_is : ltb (length live) size ≡ false = ground arith in
    record {
      more = size + d.more;
      is =
          drain-next fuel consumed size live m (le→leb frame_header_size (length live) long) is_size
            fits_is is_m
          ∙ ap (with_message m) d.is
          ∙ ap (λ c. drained c (m ∷ ms)) (add_assoc consumed size d.more);
      rest_is = d.rest_is ∙ drop-drop size d.more live;
      within = omega (arith, d.within, length-drop size live);
    }

-- What the loop finds at one place.
data Step (live : Bytes) : Type 0 where
  partial : IsPartial live → Step live
  whole :
      (size : ℕ) (m : DecodedMessage)
      → leb frame_header_size (length live) ≡ true
      → get_frame_length live ≡ ok size
      → ltb (length live) size ≡ false
      → decode_message (take size live) ≡ ok m
      → Step live
  throws :
      ((fuel consumed : ℕ)
        → (e : ProtocolErrorCode) × ((drain (suc fuel) consumed live).result ≡ err e))
      → Step live

step : (live : Bytes) → Step live
unfolding drain IsPartial
step live = elim (Bool-cases (leb frame_header_size (length live))) [
  | inr short ↦ partial (inl (ground arith))
  | inl long ↦ elim (Result-cases (get_frame_length live)) [
    | inr (e, is) ↦ throws (λ fuel consumed. (e, rw (long, is, drain)))
    | inl (size, is_size) ↦ elim (Bool-cases (ltb (length live) size)) [
      | inl short ↦ partial (
          inr (
            size,
            is_size,
            ltb→lt (length live) size short,
            leb→le frame_header_size (length live) long,
          ))
      | inr fits ↦ elim (Result-cases (decode_message (take size live))) [
        | inl (m, is_m) ↦ whole size m long is_size fits is_m
        | inr (e, is) ↦ throws (λ fuel consumed. (e, rw (long, is_size, fits, is, drain)))
      ]
    ]
  ]
]

prepend-eq-ok :
    (m : DecodedMessage) (r : Throws (List DecodedMessage)) (ms : List DecodedMessage)
    → prepend m r ≡ ok ms
    → (ns : List DecodedMessage) × (r ≡ ok ns) × (ms ≡ m ∷ ns)
prepend-eq-ok m (ok ns) ms h = (ns, refl, cc)
prepend-eq-ok m (err e) ms h = cc

-- If the loop throws nothing, the stream parses.
pub Parses-drain :
    (fuel consumed : ℕ) (live : Bytes) (ms : List DecodedMessage)
    → length live < fuel
    → (drain fuel consumed live).result ≡ ok ms
    → (rest : Bytes) × Parses live ms rest
Parses-drain zero consumed live ms enough h = absurd (omega arith)
Parses-drain (suc fuel) consumed live ms enough h = elim (step live) [
  | throws f ↦ let (e, is) = f fuel consumed in cc
  | partial p ↦
      let is : ok [] ≡ ok ms =
        ap (λ d. d.result) (sym (drain-IsPartial (suc fuel) consumed live p)) ∙ h in
      let none_is : ms ≡ [] = cc in (live, rw none_is (stop live p))
  | whole size m long is_size fits is_m ↦
      let (ns, is, ms_is) =
        prepend-eq-ok m (drain fuel (consumed + size) (drop size live)).result ms (
          ap (λ d. d.result) (sym (drain-next fuel consumed size live m long is_size fits is_m))
          ∙ h) in
      let big = frame_length-ge live size is_size in
      let (rest, p) =
        Parses-drain fuel (consumed + size) (drop size live) ns
          (ground (arith, length-drop size live)) is in
      (
        rest,
        rw ms_is (
            next live rest size m ns (leb→le frame_header_size (length live) long) is_size
              (ground arith) is_m p),
      )
]
