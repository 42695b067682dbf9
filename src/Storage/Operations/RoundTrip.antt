-- ===== src/Storage/Operations/RoundTrip.antt =====
-- Operations are read from the log as they were written.
use sinterdb.Prelude.{
  ◌^◌, ◌≡◌, refl, ◌∙◌, List, [], ◌∷◌, ◌++◌, append_assoc, append-nil, Bytes, ok, >>=-eq-ok,
  require-eq-ok, ltb, length, arith,
}
use sinterdb.Protocol.BigEndian.{be_bytes}
use sinterdb.Storage.IndexSpec.{normalize_index_spec, input_of}
use sinterdb.Storage.Operations.{
  Operation, create_collection, put, delete, create_index, drop_index, encode_name, encode_id,
  encode_u32, encode_bytes, encode_index_spec, encode_start, encode_operation, encode_all,
  encode_operations, read_rest, read_operation, read_operations, decode_operations,
}
use sinterdb.Storage.Operations.Parts.{
  IsName, read_bytes-append, read_uint-append, read-encode_name, read-encode_index_spec,
  read-encode_start, read-encode_id, encode_bytes-eq-ok,
}

-- Operations whose names UTF-8 keeps, and whose indexes `normalizeIndexSpec` accepts.
abbrev pub IsLoggable : Operation → Type 0
IsLoggable (create_collection d c) = IsName d × IsName c
IsLoggable (put d c id document) = IsName d × IsName c
IsLoggable (delete d c id) = IsName d × IsName c
IsLoggable (create_index d c index) =
    IsName d
    × IsName c
    × IsName index.name
    × IsName index.path
    × (normalize_index_spec (input_of index) ≡ ok index)
IsLoggable (drop_index d c name) = IsName d × IsName c × IsName name

read-encode_operation :
    (o : Operation) (bytes tail : Bytes)
    → IsLoggable o
    → encode_operation o ≡ ok bytes
    → read_operation (bytes ++ tail) ≡ ok (o, tail)
unfolding encode_operation read_rest
read-encode_operation (create_collection d c) bytes tail (nd, nc) h =
    read-encode_start 1 d c bytes tail refl nd nc h
read-encode_operation (put d c id document) bytes tail (nd, nc) h =
    let (start, start_is, h1) = >>=-eq-ok (encode_start 2 d c) _ h in
    let (i, i_is, h2) = >>=-eq-ok (encode_id id) _ h1 in
    let (b, b_is, h3) = >>=-eq-ok (encode_bytes document) _ h2 in
    let (small, b_bytes) = encode_bytes-eq-ok document b b_is in
    let all : start ++ (i ++ b) ≡ bytes = cc in
    rw (← all) (
      rw (append_assoc start (i ++ b) tail) (
        rw (append_assoc i b tail) (
          read-encode_start 2 d c start (i ++ (b ++ tail)) refl nd nc start_is
          ∙ rw (read-encode_id id i (b ++ tail) i_is) (
              rw (← b_bytes) (
                rw (append_assoc (be_bytes 4 (length document)) document tail) (
                  rw
                    (read_uint-append 4 (length document) (document ++ tail) (omega (arith, small)))
                    (rw (read_bytes-append (length document) document tail refl) refl)))))))
read-encode_operation (delete d c id) bytes tail (nd, nc) h =
    let (start, start_is, h1) = >>=-eq-ok (encode_start 3 d c) _ h in
    let (i, i_is, h2) = >>=-eq-ok (encode_id id) _ h1 in
    let all : start ++ i ≡ bytes = cc in
    rw (← all) (
      rw (append_assoc start i tail) (
        read-encode_start 3 d c start (i ++ tail) refl nd nc start_is
        ∙ rw (read-encode_id id i tail i_is) refl))
read-encode_operation (create_index d c index) bytes tail (nd, nc, nn, np, normal) h =
    let (start, start_is, h1) = >>=-eq-ok (encode_start 4 d c) _ h in
    let (i, i_is, h2) = >>=-eq-ok (encode_index_spec index) _ h1 in
    let all : start ++ i ≡ bytes = cc in
    rw (← all) (
      rw (append_assoc start i tail) (
        read-encode_start 4 d c start (i ++ tail) refl nd nc start_is
        ∙ rw (read-encode_index_spec index i tail nn np normal i_is) refl))
read-encode_operation (drop_index d c name) bytes tail (nd, nc, nn) h =
    let (start, start_is, h1) = >>=-eq-ok (encode_start 5 d c) _ h in
    let (i, i_is, h2) = >>=-eq-ok (encode_name name) _ h1 in
    let all : start ++ i ≡ bytes = cc in
    rw (← all) (
      rw (append_assoc start i tail) (
        read-encode_start 5 d c start (i ++ tail) refl nd nc start_is
        ∙ rw (read-encode_name name i tail nn i_is) refl))

abbrev pub AreLoggable : List Operation → Type 0
AreLoggable [] = Unit
AreLoggable (o ∷ os) = IsLoggable o × AreLoggable os

read-encode_all :
    (os : List Operation) (bytes tail : Bytes)
    → AreLoggable os
    → encode_all os ≡ ok bytes
    → read_operations (length os) (bytes ++ tail) ≡ ok (os, tail)
unfolding encode_all read_operations
read-encode_all [] bytes tail l h = let none_are : [] ≡ bytes = cc in rw (← none_are) refl
read-encode_all (o ∷ os) bytes tail (l, ls) h =
    let (first, first_is, h1) = >>=-eq-ok (encode_operation o) _ h in
    let (others, others_are, h2) = >>=-eq-ok (encode_all os) _ h1 in
    let all : first ++ others ≡ bytes = cc in
    rw (← all) (
      rw (append_assoc first others tail) (
        rw (read-encode_operation o first (others ++ tail) l first_is)
          (rw (read-encode_all os others tail ls others_are) refl)))

-- If `encodeOperations` returns bytes for operations whose names UTF-8 keeps and whose index definitions
-- are as `normalizeIndexSpec` returns them, `decodeOperations` reads these operations from the bytes.
pub decode-encode_operations :
    (operations : List Operation) (bytes : Bytes)
    → AreLoggable operations
    → encode_operations operations ≡ ok bytes
    → decode_operations bytes ≡ ok operations
unfolding encode_operations decode_operations encode_u32
decode-encode_operations operations bytes l h =
    let (count, count_is, h1) = >>=-eq-ok (encode_u32 (length operations)) _ h in
    let (small, h2) = require-eq-ok (ltb (length operations) (2 ^ 32)) _ _ count_is in
    let (all, all_are, h3) = >>=-eq-ok (encode_all operations) _ h1 in
    let count_bytes : be_bytes 4 (length operations) ≡ count = cc in
    let bytes_are : count ++ all ≡ bytes = cc in
    rw (← bytes_are) (
      rw (← count_bytes) (
        rw (read_uint-append 4 (length operations) all (ground arith))
          (rw (← append-nil all) (rw (read-encode_all operations all [] l all_are) refl))))
