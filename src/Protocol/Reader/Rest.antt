-- ===== src/Protocol/Reader/Rest.antt =====
-- What is left to read, and how each method consumes it.
use sinterdb.Prelude.{
  ℕ, zero, suc, ◌+◌, ◌<◌, ◌≡◌, refl, sym, ap, ◌∙◌, List, [], ◌∷◌, ◌++◌, Bytes, ok, ◌>>=◌, ltb,
  false, length, drop, length-append, length-drop, arith, append_assoc,
}
use sinterdb.Prelude.Int.{ℤ}
use sinterdb.Protocol.BigEndian.{
  be_bytes, be_value, be_value-be_bytes, length-be_bytes, to_signed, to_unsigned, u64, u32,
  FitsHalf, to_signed-to_unsigned_32, to_signed-to_unsigned_64, to_unsigned-lt_32,
  to_unsigned-lt_64,
}
use sinterdb.Protocol.Number.{canonical}
use sinterdb.Protocol.Errors.{Throws}
use sinterdb.Protocol.Writer.Append.{take-append_exact}
use sinterdb.Protocol.Reader.{
  Reader, remaining, read_bytes, read_uint8, read_uint32, read_int32, read_big_int64, read_float64,
}

-- The bytes of the reader that have not been read.
abbrev pub rest : Reader → Bytes
rest r = drop r.offset r.source

-- `read` returns `value` and consumes `bytes`.
abbrev pub Reads {ℓ} : {A : Type ℓ} → (Reader → Throws (A × Reader)) → Bytes → A → Type ℓ
Reads read bytes value =
    (r : Reader) (tail : Bytes)
    → rest r ≡ bytes ++ tail
    → (r' : Reader) × (read r ≡ ok (value, r')) × (rest r' ≡ tail)

drop-append_exact {ℓ} :
    {A : Type ℓ} (xs ys : List A) (k : ℕ) → k ≡ length xs → drop k (xs ++ ys) ≡ ys
drop-append_exact [] ys zero e = refl
drop-append_exact [] ys (suc k) e = absurd (omega arith)
drop-append_exact (x ∷ xs) ys zero e = absurd (omega arith)
drop-append_exact (x ∷ xs) ys (suc k) e = drop-append_exact xs ys k (omega arith)

module _ {ℓ} {A : Type ℓ} where
  drop-nil : (n : ℕ) → drop {A = A} n [] ≡ []
  drop-nil zero = refl
  drop-nil (suc n) = refl

  drop-add : (m n k : ℕ) (xs : List A) → k ≡ m + n → drop k xs ≡ drop n (drop m xs)
  drop-add zero n k xs e = ap (λ j. drop j xs) (omega arith)
  drop-add (suc m) n k [] e = drop-nil k ∙ sym (drop-nil n)
  drop-add (suc m) n zero (x ∷ xs) e = absurd (omega arith)
  drop-add (suc m) n (suc k) (x ∷ xs) e = drop-add m n k xs (omega arith)

-- The four ways to read: a fixed number of bytes, nothing, one read after another, and a read whose
-- value is converted.
pub read_bytes-Reads :
    (size : ℕ) (bytes : Bytes) → size ≡ length bytes → Reads (read_bytes size) bytes bytes
unfolding read_bytes
read_bytes-Reads size bytes e r tail h =
    let left : remaining r ≡ length bytes + length tail =
      sym (length-drop r.offset r.source) ∙ ap length h ∙ length-append bytes tail in
    let enough : ltb (remaining r) size ≡ false = ground arith in
    (
      record r { offset = r.offset + size },
      rw (enough, h)
          (ap (λ b. ok (b, record r { offset = r.offset + size }))
            (take-append_exact bytes tail size e)),
      drop-add r.offset size (r.offset + size) r.source refl
          ∙ ap (drop size) h
          ∙ drop-append_exact bytes tail size e,
    )

pub Reads-pure {ℓ} : {A : Type ℓ} (a : A) → Reads (λ r. ok (a, r)) [] a
Reads-pure a r tail h = (r, refl, h)

module _ {ℓ κ} {A : Type ℓ} {B : Type κ} where
  pub Reads-bind :
      (m : Reader → Throws (A × Reader)) (k : A → Reader → Throws (B × Reader)) (bs cs : Bytes)
      (a : A) (b : B)
      → Reads m bs a
      → Reads (k a) cs b
      → Reads (λ r. m r >>= λ p. k p.0 p.1) (bs ++ cs) b
  Reads-bind m k bs cs a b first second r tail h =
      let (r1, e1, h1) = first r (cs ++ tail) (h ∙ append_assoc bs cs tail) in
      let (r2, e2, h2) = second r1 tail h1 in (r2, rw e1 e2, h2)

  pub Reads-map :
      (m : Reader → Throws (A × Reader)) (f : A → B) (bs : Bytes) (a : A)
      → Reads m bs a
      → Reads (λ r. m r >>= λ p. ok (f p.0, p.1)) bs (f a)
  Reads-map m f bs a first r tail h = let (r1, e1, h1) = first r tail h in (r1, rw e1 refl, h1)

pub Reads-eq {ℓ} :
    {A : Type ℓ} (m : Reader → Throws (A × Reader)) (bs : Bytes) {a b : A}
    → Reads m bs a
    → a ≡ b
    → Reads m bs b
Reads-eq m bs h e = rw (← e) h

pub read_uint8-Reads : (x : ℕ) → x < 256 → Reads read_uint8 (be_bytes 1 x) x
unfolding read_uint8
read_uint8-Reads x h =
    Reads-eq _ _
      (Reads-map (read_bytes 1) be_value _ _ (read_bytes-Reads 1 _ (sym (length-be_bytes 1 x))))
      (be_value-be_bytes 1 x h)

pub read_uint32-Reads : (x : ℕ) → x < u32 → Reads read_uint32 (be_bytes 4 x) x
unfolding read_uint32
read_uint32-Reads x h =
    Reads-eq _ _
      (Reads-map (read_bytes 4) be_value _ _ (read_bytes-Reads 4 _ (sym (length-be_bytes 4 x))))
      (be_value-be_bytes 4 x h)

pub read_int32-Reads :
    (z : ℤ) → FitsHalf u32 z → Reads read_int32 (be_bytes 4 (to_unsigned u32 z)) z
unfolding read_int32
read_int32-Reads z h =
    Reads-eq _ _
      (Reads-map (read_bytes 4) (λ b. to_signed u32 (be_value b)) _ _
        (read_bytes-Reads 4 _ (sym (length-be_bytes 4 (to_unsigned u32 z)))))
      (ap (to_signed u32) (be_value-be_bytes 4 (to_unsigned u32 z) (to_unsigned-lt_32 z))
        ∙ to_signed-to_unsigned_32 z h)

pub read_big_int64-Reads :
    (z : ℤ) → FitsHalf u64 z → Reads read_big_int64 (be_bytes 8 (to_unsigned u64 z)) z
unfolding read_big_int64
read_big_int64-Reads z h =
    Reads-eq _ _
      (Reads-map (read_bytes 8) (λ b. to_signed u64 (be_value b)) _ _
        (read_bytes-Reads 8 _ (sym (length-be_bytes 8 (to_unsigned u64 z)))))
      (ap (to_signed u64) (be_value-be_bytes 8 (to_unsigned u64 z) (to_unsigned-lt_64 z))
        ∙ to_signed-to_unsigned_64 z h)

pub read_float64-Reads : (b : ℕ) → b < u64 → Reads read_float64 (be_bytes 8 b) (canonical b)
unfolding read_float64
read_float64-Reads b h =
    Reads-eq _ _
      (Reads-map (read_bytes 8) (λ bs. canonical (be_value bs)) _ _
        (read_bytes-Reads 8 _ (sym (length-be_bytes 8 b))))
      (ap canonical (be_value-be_bytes 8 b h))
