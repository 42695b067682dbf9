-- ===== src/Storage/Wal/Recovery.antt =====
-- What recovery finds in a log: records that were written whole, and a last one that was cut short.
use sinterdb.Prelude.{
  ℕ, ◌+◌, ◌-◌, ◌^◌, ◌≤◌, ◌<◌, ◌≡◌, refl, ap, ◌∙◌, inl, inr, true, false, ◌++◌, Bytes, ok, ltb, ◌==◌,
  ==_refl, length, take, arith, length-append, length-take, lt_or_ge, lt→ltb, append_assoc,
  take-append_ge, take-append_self,
}
use sinterdb.Protocol.BigEndian.{be_bytes}
use sinterdb.Storage.Wal.{
  Reason, record_found, torn, subarray, record_header_size, record_fields, encode_record,
  scan_payload, scan_record, inside_header, inside_payload,
}
use sinterdb.Storage.Wal.Scan.{
  subarray-behind, head_of, length-head, encode_record-eq-ok, header, scan-header,
}

module _ (crc32 : Bytes → ℕ) (crc32-lt : (bs : Bytes) → crc32 bs < 2 ^ 32) where
  payload-behind :
      (before p : Bytes) (lsn type_ : ℕ) (payload : Bytes)
      → subarray
          (length before + record_header_size)
          (length before + record_header_size + length payload)
          (before ++ (head_of crc32 crc32-lt lsn type_ payload ++ p))
        ≡ take (length payload) p
  unfolding subarray be_bytes record_fields
  payload-behind before p lsn type_ payload =
      let e : length before + record_header_size + length payload
          ≡ length before + (record_header_size + length payload) =
        omega arith in
      let size : record_header_size + length payload - record_header_size ≡ length payload =
        omega arith in
      rw e (
        subarray-behind before (head_of crc32 crc32-lt lsn type_ payload ++ p) record_header_size
          (record_header_size + length payload)
        ∙ ap (λ k. take k p) size)

  -- If `encodeRecord` returns bytes for a sequence number that is not 0, `scanRecord` finds the record
  -- where these bytes start, with its number, its type and its payload, whatever stands before and
  -- behind them.
  pub scan-encode_record :
      (before after : Bytes) (lsn type_ : ℕ) (payload bytes : Bytes)
      → encode_record crc32 lsn type_ payload ≡ ok bytes
      → 1 ≤ lsn
      → scan_record crc32 (before ++ (bytes ++ after)) (length before) lsn
        ≡ record_found lsn type_ payload (length before + length bytes)
  unfolding scan_payload
  scan-encode_record before after lsn type_ payload bytes h positive =
      let (r, bytes_is) = encode_record-eq-ok crc32 crc32-lt lsn type_ payload bytes h in
      let head = head_of crc32 crc32-lt lsn type_ payload in
      let p = payload ++ after in
      let f = header crc32 crc32-lt before p lsn type_ payload r in
      let head_is = length-head crc32 crc32-lt lsn type_ payload in
      let long = length-append before (head ++ p) in
      let head_long = length-append head p in
      let payload_long = length-append payload after in
      let whole = length-append head payload in
      let room : ltb (length (before ++ (head ++ p)))
            (length before + record_header_size + length payload)
          ≡ false =
        ground arith in
      let end : length before + record_header_size + length payload
          ≡ length before + length (head ++ payload) =
        omega arith in
      rw bytes_is (
        rw (append_assoc head payload after) (
          scan-header crc32 crc32-lt before p lsn type_ payload r positive
          ∙ rw f.size (
              rw room (
                rw (payload-behind before p lsn type_ payload) (
                  rw (take-append_self payload after)
                    (rw f.payload_sum (rw (==_refl (crc32 payload)) (rw f.kind (rw end refl)))))))))

  -- If the log ends within the bytes that `encodeRecord` returned for a sequence number that is not 0,
  -- behind at least one of them, the scan from where they start says that the log is torn, and never
  -- that it is corrupt.
  pub scan-take_record :
      (before : Bytes) (lsn type_ n : ℕ) (payload bytes : Bytes)
      → encode_record crc32 lsn type_ payload ≡ ok bytes
      → 1 ≤ lsn
      → 1 ≤ n
      → n < length bytes
      → (reason : Reason) × (scan_record crc32 (before ++ take n bytes) (length before) lsn
          ≡ torn reason)
  unfolding scan_payload scan_record
  scan-take_record before lsn type_ n payload bytes h positive some part =
      let (r, bytes_is) = encode_record-eq-ok crc32 crc32-lt lsn type_ payload bytes h in
      let head = head_of crc32 crc32-lt lsn type_ payload in
      let head_is = length-head crc32 crc32-lt lsn type_ payload in
      let long = length-append before (take n bytes) in
      let size = length-take n bytes in
      elim (lt_or_ge n record_header_size) [
        | inl short ↦
            let more : (length before == length (before ++ take n bytes)) ≡ false = ground arith in
            let room : ltb (length (before ++ take n bytes) - length before) record_header_size
                ≡ true =
              ground arith in
            (inside_header, rw more (rw room refl))
        | inr header_is ↦
            let p = take (n - record_header_size) payload in
            let f = header crc32 crc32-lt before p lsn type_ payload r in
            let cut : take n bytes ≡ head ++ p = rw bytes_is (
              take-append_ge n head payload (omega arith)
              ∙ ap (λ k. head ++ take (n - k) payload) head_is) in
            let whole = length-append head payload in
            let bytes_long = ap length bytes_is in
            let beyond : ltb (length (before ++ (head ++ p)))
                  (length before + record_header_size + length payload)
                ≡ true =
              lt→ltb _ _ (
                omega (
                  arith,
                  length-append before (head ++ p),
                  length-append head p,
                  length-take (n - record_header_size) payload,
                )) in
            (
              inside_payload,
              rw cut (
                  scan-header crc32 crc32-lt before p lsn type_ payload r positive
                  ∙ rw f.size (rw beyond refl)),
            )
      ]
