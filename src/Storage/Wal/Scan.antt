-- ===== src/Storage/Wal/Scan.antt =====
-- Records behind one another: what was written is found again, and a record that is cut short by the
-- end of the log is never taken for a corrupt one.
use sinterdb.Prelude.{
  ℕ, ◌+◌, ◌-◌, ◌^◌, ◌≤◌, ◌<◌, ◌≡◌, refl, sym, ap, ◌∙◌, inl, inr, Bool, true, false, ◌&&◌, [], ◌∷◌,
  ◌++◌, Bytes, Result, ok, require-eq-ok, leb, ltb, ◌==◌, length, take, arith, length-append,
  drop-drop, drop-append_self, Bool-cases, ==_refl, append_assoc,
}
use sinterdb.Protocol.BigEndian.{be_from, be_bytes, be_value, be_value-be_bytes}
use sinterdb.Storage.Wal.{
  subarray, read_uint, is_zero_filled, RangeError, check_lsn, record_header_size,
  max_record_payload_size, record_fields, encode_record, scan_payload, scan_record,
}

pub subarray-behind :
    (before x : Bytes) (start stop : ℕ)
    → subarray (length before + start) (length before + stop) (before ++ x) ≡ subarray start stop x
unfolding subarray
subarray-behind before x start stop =
    let size : (length before + stop) - (length before + start) ≡ stop - start = omega arith in
    rw size (rw (← drop-drop (length before) start (before ++ x)) (rw (drop-append_self before x)))

pub read_uint-behind :
    (before x : Bytes) (size offset : ℕ)
    → read_uint size (length before + offset) (before ++ x) ≡ read_uint size offset x
unfolding read_uint
read_uint-behind before x size offset =
    let e : (length before + offset) + size ≡ length before + (offset + size) = omega arith in
    ap (λ k. be_value (subarray (length before + offset) k (before ++ x))) e
    ∙ ap be_value (subarray-behind before x offset (offset + size))

-- Bytes that stand for a number above 0 are not all zero.
be_value-zero : (bs : Bytes) → is_zero_filled bs ≡ true → be_value bs ≡ 0
unfolding be_value is_zero_filled be_from
be_value-zero [] h = refl
be_value-zero (b ∷ bs) h =
    let here : b ≡ 0 = ground arith in
    let others : is_zero_filled bs ≡ true = ground arith in rw here (be_value-zero bs others)

zero-append : (xs ys : Bytes) → is_zero_filled (xs ++ ys) ≡ is_zero_filled xs && is_zero_filled ys
unfolding is_zero_filled
zero-append [] ys = refl
zero-append (x ∷ xs) ys = ground (arith, zero-append xs ys)

pub inner : {xs ys : Bytes} → ◌≡◌ {A = Result RangeError Bytes} (ok xs) (ok ys) → xs ≡ ys
inner h = cc

shut : (a b c d : Bool) → (a && (b && false && c) && d) ≡ false
shut false b c d = refl
shut true false c d = refl
shut true true c d = refl

pub take-all : (xs : Bytes) → take (length xs) xs ≡ xs
take-all [] = refl
take-all (x ∷ xs) = ap (x ∷◌) (take-all xs)

subarray-rest :
    (before x : Bytes) → subarray (length before) (length (before ++ x)) (before ++ x) ≡ x
unfolding subarray
subarray-rest before x =
    let size : length (before ++ x) - length before ≡ length x =
      omega (arith, length-append before x) in
    rw size (rw (drop-append_self before x) (take-all x))

-- What `encodeRecord` has checked.
pub record IsRecord (lsn type_ : ℕ) (payload : Bytes) : Type 0 where
  pub lsn_fits : lsn < 2 ^ 64
  pub type_fits : type_ ≤ 255
  pub payload_fits : length payload ≤ max_record_payload_size

module _ (crc32 : Bytes → ℕ) (crc32-lt : (bs : Bytes) → crc32 bs < 2 ^ 32) where
  abbrev pub head_of : ℕ → ℕ → Bytes → Bytes
  head_of lsn type_ payload =
      be_bytes 4 (crc32 (record_fields crc32 lsn type_ payload))
      ++ (record_fields crc32 lsn type_ payload ++ be_bytes 4 (crc32 payload))

  pub length-head :
      (lsn type_ : ℕ) (payload : Bytes) → length (head_of lsn type_ payload) ≡ record_header_size
  unfolding be_bytes record_fields
  length-head lsn type_ payload = refl

  pub encode_record-eq-ok :
      (lsn type_ : ℕ) (payload bytes : Bytes)
      → encode_record crc32 lsn type_ payload ≡ ok bytes
      → IsRecord lsn type_ payload × (bytes ≡ head_of lsn type_ payload ++ payload)
  unfolding encode_record check_lsn
  encode_record-eq-ok lsn type_ payload bytes h =
      let (type_is, h1) = require-eq-ok (leb type_ 255) _ _ h in
      let (payload_is, h2) = require-eq-ok (leb (length payload) max_record_payload_size) _ _ h1 in
      let (lsn_is, h3) = require-eq-ok (ltb lsn (2 ^ 64)) _ _ h2 in
      let sum = be_bytes 4 (crc32 (record_fields crc32 lsn type_ payload)) in
      (
        record { lsn_fits = ground arith; type_fits = ground arith; payload_fits = ground arith },
        sym (inner h3)
            ∙ sym (
                append_assoc sum
                  (record_fields crc32 lsn type_ payload ++ be_bytes 4 (crc32 payload)) payload
                ∙ ap (sum ++◌) (
                    append_assoc (record_fields crc32 lsn type_ payload)
                      (be_bytes 4 (crc32 payload)) payload)),
      )

  not_zero :
      (lsn type_ : ℕ) (payload p : Bytes)
      → IsRecord lsn type_ payload
      → 1 ≤ lsn
      → is_zero_filled (head_of lsn type_ payload ++ p) ≡ false
  unfolding record_fields
  not_zero lsn type_ payload p r positive = elim (Bool-cases (is_zero_filled (be_bytes 8 lsn))) [
    | inl zeros ↦
        let same = be_value-be_bytes 8 lsn (omega (arith, r.lsn_fits)) in
        let none = be_value-zero (be_bytes 8 lsn) zeros in absurd (omega arith)
    | inr some ↦
        let sum = be_bytes 4 (crc32 (record_fields crc32 lsn type_ payload)) in
        let size = be_bytes 4 (length payload) in
        let number = be_bytes 8 lsn in
        let kind = be_bytes 1 type_ in
        let payload_sum = be_bytes 4 (crc32 payload) in
        rw (zero-append (sum ++ ((size ++ (number ++ kind)) ++ payload_sum)) p) (
          rw (zero-append sum ((size ++ (number ++ kind)) ++ payload_sum)) (
            rw (zero-append (size ++ (number ++ kind)) payload_sum) (
              rw (zero-append size (number ++ kind)) (
                rw (zero-append number kind) (
                  rw some (
                    shut (is_zero_filled sum) (is_zero_filled size) (is_zero_filled payload_sum)
                      (is_zero_filled p)))))))
  ]

  -- How the header of a record is read, behind other bytes.
  pub record Header (before p : Bytes) (lsn type_ : ℕ) (payload : Bytes) : Type 0 where
    pub sum :
        read_uint 4 (length before) (before ++ (head_of lsn type_ payload ++ p))
        ≡ crc32 (record_fields crc32 lsn type_ payload)
    pub summed :
        subarray
          (length before + 4)
          (length before + 17)
          (before ++ (head_of lsn type_ payload ++ p))
        ≡ record_fields crc32 lsn type_ payload
    pub size :
        read_uint 4 (length before + 4) (before ++ (head_of lsn type_ payload ++ p))
        ≡ length payload
    pub number : read_uint 8 (length before + 8) (before ++ (head_of lsn type_ payload ++ p)) ≡ lsn
    pub kind : read_uint 1 (length before + 16) (before ++ (head_of lsn type_ payload ++ p)) ≡ type_
    pub payload_sum :
        read_uint 4 (length before + 17) (before ++ (head_of lsn type_ payload ++ p))
        ≡ crc32 payload
    pub all :
        subarray
          (length before)
          (length (before ++ (head_of lsn type_ payload ++ p)))
          (before ++ (head_of lsn type_ payload ++ p))
        ≡ head_of lsn type_ payload ++ p

  pub header :
      (before p : Bytes) (lsn type_ : ℕ) (payload : Bytes)
      → IsRecord lsn type_ payload
      → Header before p lsn type_ payload
  unfolding read_uint subarray be_bytes record_fields
  header before p lsn type_ payload r =
      let x = head_of lsn type_ payload ++ p in
      record {
        sum =
            ap (λ k. read_uint 4 k (before ++ x)) (omega arith)
            ∙ read_uint-behind before x 4 0
            ∙ be_value-be_bytes 4 (crc32 (record_fields crc32 lsn type_ payload))
                (crc32-lt (record_fields crc32 lsn type_ payload));
        summed = subarray-behind before x 4 17;
        size =
            read_uint-behind before x 4 4
            ∙ be_value-be_bytes 4 (length payload) (omega (arith, r.payload_fits));
        number =
            read_uint-behind before x 8 8 ∙ be_value-be_bytes 8 lsn (omega (arith, r.lsn_fits));
        kind =
            read_uint-behind before x 1 16 ∙ be_value-be_bytes 1 type_ (omega (arith, r.type_fits));
        payload_sum =
            read_uint-behind before x 4 17 ∙ be_value-be_bytes 4 (crc32 payload) (crc32-lt payload);
        all = subarray-rest before x;
      }

  -- With its header in place, a scan comes to the payload.
  pub scan-header :
      (before p : Bytes) (lsn type_ : ℕ) (payload : Bytes)
      → IsRecord lsn type_ payload
      → 1 ≤ lsn
      → scan_record crc32 (before ++ (head_of lsn type_ payload ++ p)) (length before) lsn
        ≡ scan_payload crc32 (before ++ (head_of lsn type_ payload ++ p)) (length before) lsn
  unfolding scan_record
  scan-header before p lsn type_ payload r positive =
      let h = header before p lsn type_ payload r in
      let x = head_of lsn type_ payload ++ p in
      let long = length-append before x in
      let head_long = length-append (head_of lsn type_ payload) p in
      let head_is = length-head lsn type_ payload in
      let more : (length before == length (before ++ x)) ≡ false = ground arith in
      let room : ltb (length (before ++ x) - length before) record_header_size ≡ false =
        ground arith in
      let small : ltb max_record_payload_size (length payload) ≡ false =
        ground (arith, r.payload_fits) in
      rw more (
        rw room (
          rw h.all (
            rw (not_zero lsn type_ payload p r positive) (
              rw h.sum (
                rw h.summed (
                  rw (==_refl (crc32 (record_fields crc32 lsn type_ payload)))
                    (rw h.number (rw (==_refl lsn) (rw h.size (rw small refl))))))))))
