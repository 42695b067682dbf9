-- ===== src/Protocol/Writer/Append.antt =====
-- The writer implements a list of bytes to which every method appends, up to the payload limit.
use Prim.Native.Nat.{min, max}
use sinterdb.Prelude.{
  ℕ, zero, suc, ◌+◌, ◌-◌, ◌*◌, ◌≤◌, ◌<◌, ◌≡◌, refl, ap, ◌∙◌, List, [], ◌∷◌, ◌++◌, append-nil, Bytes,
  ok, err, leb, ltb, length, take, drop, replicate, length-append, length-take, length-drop,
  length-replicate, arith, Bool-cases, inl, inr, true, false,
}
use sinterdb.Protocol.Errors.{payload_too_large, max_payload_size}
use sinterdb.Protocol.Writer.{Writer, new_writer, set_bytes, ensure_capacity, store, finish}

-- The writer holds `bytes`.
pub record Represents (w : Writer) (bytes : Bytes) : Type 0 where
  pub within : w.written ≤ length w.buffer
  pub size : w.written ≡ length bytes
  pub contents : take w.written w.buffer ≡ bytes
  pub limited : w.written ≤ max_payload_size

module _ {ℓ} {A : Type ℓ} where
  take-append : (xs ys : List A) (n k : ℕ) → k ≡ length xs + n → take k (xs ++ ys) ≡ xs ++ take n ys
  take-append [] ys n k e = ap (λ j. take j ys) (omega arith)
  take-append (x ∷ xs) ys n zero e = absurd (omega arith)
  take-append (x ∷ xs) ys n (suc k) e = ap (λ l. x ∷ l) (take-append xs ys n k (omega arith))

  pub take-append_exact : (xs ys : List A) (k : ℕ) → k ≡ length xs → take k (xs ++ ys) ≡ xs
  take-append_exact xs ys k e = take-append xs ys 0 k (omega arith) ∙ append-nil xs

  take-append_short : (xs ys : List A) (k : ℕ) → k ≤ length xs → take k (xs ++ ys) ≡ take k xs
  take-append_short xs ys zero h = refl
  take-append_short [] ys (suc k) h = elim h [ ]
  take-append_short (x ∷ xs) ys (suc k) h =
      ap (λ l. x ∷ l) (take-append_short xs ys k (omega arith))

length-set_bytes :
    (target : Bytes) (offset : ℕ) (bytes : Bytes)
    → offset ≤ length target
    → length (set_bytes target offset bytes)
      ≡ offset + length bytes + (length target - (offset + length bytes))
unfolding set_bytes
length-set_bytes target offset bytes h = omega (
  arith,
  length-append (take offset target) (bytes ++ drop (offset + length bytes) target),
  length-append bytes (drop (offset + length bytes) target),
  length-take offset target,
  length-drop (offset + length bytes) target,
)

take-set_bytes :
    (target : Bytes) (offset : ℕ) (bytes : Bytes)
    → offset ≤ length target
    → take (offset + length bytes) (set_bytes target offset bytes) ≡ take offset target ++ bytes
unfolding set_bytes
take-set_bytes target offset bytes h =
    let rest = drop (offset + length bytes) target in
    take-append (take offset target) (bytes ++ rest) (length bytes) _
      (omega (arith, length-take offset target))
    ∙ ap (λ l. take offset target ++ l) (take-append_exact bytes rest (length bytes) refl)

take-set_bytes_front :
    (target bytes : Bytes) (k : ℕ)
    → k ≤ length bytes
    → take k (set_bytes target 0 bytes) ≡ take k bytes
unfolding set_bytes
take-set_bytes_front target bytes k h = take-append_short bytes (drop (0 + length bytes) target) k h

record HasRoom (w : Writer) (n : ℕ) (bytes : Bytes) (w' : Writer) : Type 0 where
  done : ensure_capacity n w ≡ ok w'
  holds : Represents w' bytes
  room : w'.written + n ≤ length w'.buffer
  same : w'.written ≡ w.written

abbrev next_capacity : Writer → ℕ → ℕ
next_capacity w n = min max_payload_size (max (w.written + n) (length w.buffer * 2))

abbrev grown : Writer → ℕ → Writer
grown w n = record w { buffer = set_bytes (replicate (next_capacity w n) 0) 0 w.buffer }

ensure_capacity_grows :
    (w : Writer) (n : ℕ) (bytes : Bytes)
    → Represents w bytes
    → w.written + n ≤ max_payload_size
    → leb (w.written + n) (length w.buffer) ≡ false
    → HasRoom w n bytes (grown w n)
ensure_capacity_grows w n bytes r fits full =
    let size = length-set_bytes (replicate (next_capacity w n) 0) 0 w.buffer (omega arith) in
    let capacity = length-replicate {A = ℕ} (next_capacity w n) 0 in
    record {
      done = unfold ensure_capacity in ground arith;
      holds = record {
        within = omega (arith, size, capacity, r.within);
        size = r.size;
        contents =
            take-set_bytes_front (replicate (next_capacity w n) 0) w.buffer w.written r.within
            ∙ r.contents;
        limited = r.limited;
      };
      room =
          let b : length w.buffer < w.written + n = ground arith in omega (arith, size, capacity);
      same = refl;
    }

ensure_capacity_lem :
    (w : Writer) (n : ℕ) (bytes : Bytes)
    → Represents w bytes
    → w.written + n ≤ max_payload_size
    → (w' : Writer) × HasRoom w n bytes w'
ensure_capacity_lem w n bytes r fits = elim (Bool-cases (leb (w.written + n) (length w.buffer))) [
  | inl room ↦ (
    w,
    record {
      done = unfold ensure_capacity in ground arith;
      holds = r;
      room = ground arith;
      same = refl;
    },
  )
  | inr full ↦ (grown w n, ensure_capacity_grows w n bytes r fits full)
]

-- A write that fits below the limit appends its bytes.
pub store_lem :
    (w : Writer) (acc : Bytes) (size : ℕ) (bytes : Bytes)
    → Represents w acc
    → size ≡ length bytes
    → length acc + size ≤ max_payload_size
    → (w' : Writer) × (store size bytes w ≡ ok w') × Represents w' (acc ++ bytes)
store_lem w acc size bytes r e fits =
    let (w1, h) = ensure_capacity_lem w size acc r (omega (arith, r.size)) in
    let r1 = h.holds in
    (
      record { buffer = set_bytes w1.buffer w1.written bytes; written = w1.written + size },
      unfold store in rw h.done,
      record {
        within = omega (arith, length-set_bytes w1.buffer w1.written bytes r1.within);
        size = omega (arith, length-append acc bytes, r1.size);
        contents =
            ap (λ k. take (w1.written + k) (set_bytes w1.buffer w1.written bytes)) e
            ∙ take-set_bytes w1.buffer w1.written bytes r1.within
            ∙ ap (λ l. l ++ bytes) r1.contents;
        limited = omega (arith, r.size, h.same);
      },
    )

-- Past the limit every write throws.
pub store_full :
    (w : Writer) (acc : Bytes) (size : ℕ) (bytes : Bytes)
    → Represents w acc
    → max_payload_size < length acc + size
    → store size bytes w ≡ err payload_too_large
unfolding store ensure_capacity
store_full w acc size bytes r h =
    let full : ltb max_payload_size (w.written + size) ≡ true = ground (arith, r.size) in rw full

pub new_writer-Represents : Represents new_writer []
unfolding new_writer
new_writer-Represents = record {
  within = omega arith;
  size = refl;
  contents = refl;
  limited = omega arith;
}

pub finish-Represents : (w : Writer) (bytes : Bytes) → Represents w bytes → finish w ≡ bytes
unfolding finish
finish-Represents w bytes r = r.contents
