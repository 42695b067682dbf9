-- ===== src/Storage/Operations/Parts.antt =====
-- The parts of operations are read as they were written.
use sinterdb.Prelude.{
  ℕ, ◌+◌, ◌^◌, ◌≤◌, ◌<◌, ◌≡◌, refl, Bool, true, false, not, ◌&&◌, ◌++◌, append_assoc, Bytes, Str,
  ok, >>=-eq-ok, require-eq-ok, leb, ltb, ◌==◌, length, length-append, take-append_self,
  drop-append_self, arith,
}
use sinterdb.Protocol.BigEndian.{be_bytes, be_value-be_bytes, length-be_bytes}
use sinterdb.Protocol.Utf8.{utf8_encode, is_well_formed}
use sinterdb.Protocol.Utf8.RoundTrip.{AreUnits, HasNoBom, utf8_decode-utf8_encode}
use sinterdb.Storage.IndexSpec.{IndexSpec, normalize_index_spec, input_of}
use sinterdb.Storage.Operations.{
  max_name_byte_length, id_byte_length, encode_name, encode_id, encode_u32, encode_bytes, bit,
  has_bit, index_flags, encode_index_spec, encode_start, read_bytes, read_uint, decode_name,
  read_name, read_index_spec, read_rest, read_operation,
}

-- Names that UTF-8 keeps.
abbrev pub IsName : Str → Type 0
IsName s = AreUnits s × (is_well_formed s ≡ true) × HasNoBom s

pub read_bytes-append :
    (size : ℕ) (bytes tail : Bytes)
    → length bytes ≡ size
    → read_bytes size (bytes ++ tail) ≡ ok (bytes, tail)
unfolding read_bytes
read_bytes-append size bytes tail h =
    let room : leb (length bytes) (length (bytes ++ tail)) ≡ true =
      ground (arith, length-append bytes tail) in
    rw (← h) (rw room (rw (take-append_self bytes tail) (rw (drop-append_self bytes tail) refl)))

pub read_uint-append :
    (size n : ℕ) (tail : Bytes)
    → n < 256 ^ size
    → read_uint size (be_bytes size n ++ tail) ≡ ok (n, tail)
unfolding read_uint
read_uint-append size n tail h =
    rw (read_bytes-append size (be_bytes size n) tail (length-be_bytes size n))
      (rw (be_value-be_bytes size n h) refl)

decode_name-utf8_encode : (name : Str) → IsName name → decode_name (utf8_encode name) ≡ ok name
unfolding decode_name
decode_name-utf8_encode name (u, formed, no_bom) =
    rw (utf8_decode-utf8_encode name u formed no_bom, decode_name)

pub read-encode_name :
    (name : Str) (bytes tail : Bytes)
    → IsName name
    → encode_name name ≡ ok bytes
    → read_name (bytes ++ tail) ≡ ok (name, tail)
unfolding encode_name read_name
read-encode_name name bytes tail n h =
    let raw = utf8_encode name in
    let (fits, written) =
      require-eq-ok (not (length raw == 0) && leb (length raw) max_name_byte_length) _ _ h in
    let bytes_are : be_bytes 2 (length raw) ++ raw ≡ bytes = cc in
    let some_bytes : not (length raw == 0) ≡ true = ground arith in
    let small : length raw ≤ max_name_byte_length = ground arith in
    rw (← bytes_are) (
      rw (append_assoc (be_bytes 2 (length raw)) raw tail) (
        rw (read_uint-append 2 (length raw) (raw ++ tail) (omega arith)) (
          rw some_bytes (
            rw (read_bytes-append (length raw) raw tail refl)
              (rw (decode_name-utf8_encode name n) refl)))))

flags-lt : (spec : IndexSpec) → index_flags spec < 256 ^ 1
unfolding index_flags
flags-lt spec = bits-lt spec.unique spec.sparse spec.descending
  where
    bits-lt : (u s d : Bool) → bit u 1 + (bit s 2 + bit d 4) < 256 ^ 1
    bits-lt true true true = omega arith
    bits-lt true true false = omega arith
    bits-lt true false true = omega arith
    bits-lt true false false = omega arith
    bits-lt false true true = omega arith
    bits-lt false true false = omega arith
    bits-lt false false true = omega arith
    bits-lt false false false = omega arith

unique_bit : (u s d : Bool) → has_bit (bit u 1 + (bit s 2 + bit d 4)) 1 ≡ u
unique_bit true true true = refl
unique_bit true true false = refl
unique_bit true false true = refl
unique_bit true false false = refl
unique_bit false true true = refl
unique_bit false true false = refl
unique_bit false false true = refl
unique_bit false false false = refl

sparse_bit : (u s d : Bool) → has_bit (bit u 1 + (bit s 2 + bit d 4)) 2 ≡ s
sparse_bit true true true = refl
sparse_bit true true false = refl
sparse_bit true false true = refl
sparse_bit true false false = refl
sparse_bit false true true = refl
sparse_bit false true false = refl
sparse_bit false false true = refl
sparse_bit false false false = refl

descending_bit : (u s d : Bool) → has_bit (bit u 1 + (bit s 2 + bit d 4)) 4 ≡ d
descending_bit true true true = refl
descending_bit true true false = refl
descending_bit true false true = refl
descending_bit true false false = refl
descending_bit false true true = refl
descending_bit false true false = refl
descending_bit false false true = refl
descending_bit false false false = refl

pub read-encode_index_spec :
    (spec : IndexSpec) (bytes tail : Bytes)
    → IsName spec.name
    → IsName spec.path
    → normalize_index_spec (input_of spec) ≡ ok spec
    → encode_index_spec spec ≡ ok bytes
    → read_index_spec (bytes ++ tail) ≡ ok (spec, tail)
unfolding encode_index_spec read_index_spec index_flags
read-encode_index_spec spec bytes tail n p normal h =
    let (name, name_is, h1) = >>=-eq-ok (encode_name spec.name) _ h in
    let (path, path_is, h2) = >>=-eq-ok (encode_name spec.path) _ h1 in
    let bytes_are : name ++ (path ++ be_bytes 1 (index_flags spec)) ≡ bytes = cc in
    rw (← bytes_are) (
      rw (append_assoc name (path ++ be_bytes 1 (index_flags spec)) tail) (
        rw (append_assoc path (be_bytes 1 (index_flags spec)) tail) (
          rw
            (read-encode_name spec.name name (path ++ (be_bytes 1 (index_flags spec) ++ tail)) n
              name_is)
            (rw (read-encode_name spec.path path (be_bytes 1 (index_flags spec) ++ tail) p path_is)
              (rw (read_uint-append 1 (index_flags spec) tail (flags-lt spec)) (
                rw (unique_bit spec.unique spec.sparse spec.descending) (
                  rw (sparse_bit spec.unique spec.sparse spec.descending) (
                    rw (descending_bit spec.unique spec.sparse spec.descending)
                      (rw normal refl)))))))))

pub read-encode_start :
    (kind : ℕ) (d c : Str) (start tail : Bytes)
    → (leb 1 kind && leb kind 5) ≡ true
    → IsName d
    → IsName c
    → encode_start kind d c ≡ ok start
    → read_operation (start ++ tail) ≡ read_rest kind d c tail
unfolding encode_start read_operation
read-encode_start kind d c start tail known nd nc h =
    let (db, db_is, h1) = >>=-eq-ok (encode_name d) _ h in
    let (coll, coll_is, h2) = >>=-eq-ok (encode_name c) _ h1 in
    let start_is : be_bytes 1 kind ++ (db ++ coll) ≡ start = cc in
    rw (← start_is) (
      rw (append_assoc (be_bytes 1 kind) (db ++ coll) tail) (
        rw (append_assoc db coll tail) (
          rw (read_uint-append 1 kind (db ++ (coll ++ tail)) (ground arith)) (
            rw known (
              rw (read-encode_name d db (coll ++ tail) nd db_is)
                (rw (read-encode_name c coll tail nc coll_is) refl))))))

pub read-encode_id :
    (id bytes tail : Bytes)
    → encode_id id ≡ ok bytes
    → read_bytes id_byte_length (bytes ++ tail) ≡ ok (id, tail)
unfolding encode_id
read-encode_id id bytes tail h =
    let (size, h1) = require-eq-ok (length id == id_byte_length) _ _ h in
    let same : id ≡ bytes = cc in
    rw (← same) (read_bytes-append id_byte_length id tail (ground arith))

-- The bytes of a document, behind their number.
pub encode_bytes-eq-ok :
    (document bytes : Bytes)
    → encode_bytes document ≡ ok bytes
    → (length document < 2 ^ 32) × (be_bytes 4 (length document) ++ document ≡ bytes)
unfolding encode_bytes encode_u32
encode_bytes-eq-ok document bytes h =
    let (size, size_is, h1) = >>=-eq-ok (encode_u32 (length document)) _ h in
    let (small, h2) = require-eq-ok (ltb (length document) (2 ^ 32)) _ _ size_is in
    let size_bytes : be_bytes 4 (length document) ≡ size = cc in (ground arith, rw size_bytes cc)
