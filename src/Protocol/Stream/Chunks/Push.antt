-- ===== src/Protocol/Stream/Chunks/Push.antt =====
-- `push` on one chunk, and on the chunks of a stream.
use sinterdb.Prelude.{
  ℕ, suc, ◌≡◌, refl, sym, ap, ◌∙◌, inl, inr, ◌↔◌, List, [], ◌∷◌, ◌++◌, Bytes, ok, err, arith,
  append_assoc, append-nil,
}
use sinterdb.Protocol.Errors.{Throws}
use sinterdb.Protocol.Message.{DecodedMessage}
use sinterdb.Protocol.Stream.{MessageStreamDecoder, drain, append, push}
use sinterdb.Protocol.Stream.Chunks.{IsPartial, Parses, stop, next, Parses-Split}
use sinterdb.Protocol.Stream.Chunks.Drain.{drain-Parses, Parses-drain}
use sinterdb.Protocol.Stream.Chunks.Buffer.{
  IsWithin, live_bytes, append-live, compact-live, length-live,
}

-- What a push that throws nothing has done.
pub record Pushed (chunk : Bytes) (s : MessageStreamDecoder) (ms : List DecodedMessage)
    (rest : Bytes) : Type 0 where
  pub returned : (push chunk s).0 ≡ ok ms
  pub within : IsWithin (push chunk s).1
  pub live : live_bytes (push chunk s).1 ≡ rest

-- If what is in use and the chunk behind it hold the frames of messages and, behind them, less than a
-- frame, then `push` returns those messages and keeps that rest.
pub push-Parses :
    (b : ℕ) (bs : Bytes) (s : MessageStreamDecoder) (ms : List DecodedMessage) (rest : Bytes)
    → IsWithin s
    → Parses (live_bytes s ++ b ∷ bs) ms rest
    → Pushed (b ∷ bs) s ms rest
unfolding push
push-Parses b bs s ms rest h p =
    let s1 = append (b ∷ bs) s in
    let (within, live_is) = append-live (b ∷ bs) s h in
    let used_is = length-live s1 within in
    let d =
      drain-Parses (suc s1.used) 0 {live = live_bytes s1} (omega (arith, used_is)) (rw live_is p) in
    let (within2, live2) = compact-live d.more s1 within (omega (arith, d.within, used_is)) in
    let done : (drain (suc s1.used) 0 (live_bytes s1))
        ≡ record { consumed = d.more; result = ok ms } =
      d.is ∙ ap (λ c. record { consumed = c; result = ok ms }) (omega arith) in
    record {
      returned = ap (λ d. d.result) done;
      within = rw done within2;
      live = rw done (live2 ∙ sym d.rest_is);
    }

-- For a chunk that is not empty, and a decoder whose bytes in use lie within its array, `push` returns
-- messages exactly if what is in use and the chunk behind
-- it hold the frames of these messages and, behind them, less than a frame.
pub push_iff :
    (b : ℕ) (bs : Bytes) (s : MessageStreamDecoder) (ms : List DecodedMessage)
    → IsWithin s
    → ((push (b ∷ bs) s).0 ≡ ok ms) ↔ ((rest : Bytes) × Parses (live_bytes s ++ b ∷ bs) ms rest)
unfolding push
push_iff b bs s ms h = (
  λ e.
      let s1 = append (b ∷ bs) s in
      let (within, live_is) = append-live (b ∷ bs) s h in
      let (rest, p) =
        Parses-drain (suc s1.used) 0 (live_bytes s1) ms (omega (arith, length-live s1 within)) e in
      (rest, rw (← live_is) p),
  λ (rest, p). (push-Parses b bs s ms rest h p).returned,
)

Parses-IsPartial :
    {live rest : Bytes} {ms : List DecodedMessage} → Parses live ms rest → IsPartial rest
Parses-IsPartial (stop live h) = h
Parses-IsPartial (next live rest size m ms long is_size fits is_m p) = Parses-IsPartial p

-- The chunks of a stream, pushed one after the other until one throws.
abbrev join : List DecodedMessage → Throws (List DecodedMessage) → Throws (List DecodedMessage)
join ms (ok ns) = ok (ms ++ ns)
join ms (err e) = err e

abbrev and_then :
    Throws (List DecodedMessage) × MessageStreamDecoder
    → (MessageStreamDecoder → Throws (List DecodedMessage) × MessageStreamDecoder)
    → Throws (List DecodedMessage) × MessageStreamDecoder
and_then (err e, s) k = (err e, s)
and_then (ok ms, s) k = (join ms (k s).0, (k s).1)

unfoldable pub push_all :
    List Bytes → MessageStreamDecoder → Throws (List DecodedMessage) × MessageStreamDecoder
push_all [] s = (ok [], s)
push_all (c ∷ cs) s = and_then (push c s) (λ t. push_all cs t)

unfoldable pub concat : List Bytes → Bytes
concat [] = []
concat (c ∷ cs) = c ++ concat cs

pub record PushedAll (chunks : List Bytes) (s : MessageStreamDecoder) (ms : List DecodedMessage)
    (rest : Bytes) : Type 0 where
  pub returned : (push_all chunks s).0 ≡ ok ms
  pub live : live_bytes (push_all chunks s).1 ≡ rest

Parses-partial :
    {live rest : Bytes} {ms : List DecodedMessage}
    → IsPartial live
    → Parses live ms rest
    → (ms ≡ []) × (rest ≡ live)
unfolding IsPartial
Parses-partial h (stop live _) = (refl, refl)
Parses-partial (inl short) (next live rest size m ms long is_size fits is_m p) =
    absurd (omega arith)
Parses-partial (inr (n, is_n, short, long_n)) (next live rest size m ms long is_size fits is_m p) =
    let same : ok n ≡ ok size = sym is_n ∙ is_size in let e : n ≡ size = cc in absurd (omega arith)

and_then-ok :
    (p : Throws (List DecodedMessage) × MessageStreamDecoder)
    (k : MessageStreamDecoder → Throws (List DecodedMessage) × MessageStreamDecoder)
    (ms ns : List DecodedMessage)
    → p.0 ≡ ok ms
    → (k p.1).0 ≡ ok ns
    → ((and_then p k).0 ≡ ok (ms ++ ns)) × ((and_then p k).1 ≡ (k p.1).1)
and_then-ok (ok ls, s) k ms ns h g = (rw g cc, refl)
and_then-ok (err e, s) k ms ns h g = cc

-- A decoder whose bytes in use lie within its array and are less than a frame returns the messages of a stream however the stream is cut
-- into chunks, empty ones included, and keeps what is behind the last whole frame.
pub push_all-Parses :
    (chunks : List Bytes) (s : MessageStreamDecoder) (ms : List DecodedMessage) (rest : Bytes)
    → IsWithin s
    → IsPartial (live_bytes s)
    → Parses (live_bytes s ++ concat chunks) ms rest
    → PushedAll chunks s ms rest
unfolding push_all concat push
push_all-Parses [] s ms rest h part p =
    let (none_is, rest_is) = Parses-partial part (rw (← append-nil (live_bytes s)) p) in
    record { returned = ap ok (sym none_is); live = sym rest_is }
push_all-Parses ([] ∷ cs) s ms rest h part p =
    let r = push_all-Parses cs s ms rest h part p in
    let (returned, same) = and_then-ok (ok [], s) (λ t. push_all cs t) [] ms refl r.returned in
    record { returned = returned; live = ap live_bytes same ∙ r.live }
push_all-Parses ((b ∷ bs) ∷ cs) s ms rest h part p =
    let cut =
      Parses-Split (live_bytes s ++ b ∷ bs) (concat cs) p
        (sym (append_assoc (live_bytes s) (b ∷ bs) (concat cs))) in
    let first = push-Parses b bs s cut.before cut.rest h cut.first in
    let r =
      push_all-Parses cs (push (b ∷ bs) s).1 cut.after rest first.within
        (rw first.live (Parses-IsPartial cut.first)) (rw first.live cut.second) in
    let (returned, same) =
      and_then-ok (push (b ∷ bs) s) (λ t. push_all cs t) cut.before cut.after first.returned
        r.returned in
    record { returned = returned ∙ ap ok (sym cut.all); live = ap live_bytes same ∙ r.live }
