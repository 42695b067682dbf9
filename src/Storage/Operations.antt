-- ===== src/Storage/Operations.antt =====
-- packages/storage/src/engine/operations.ts: the operations of a transaction, as the payload of a
-- record of the log. The reader is what is left of its buffer.
pub mod Parts
pub mod RoundTrip
mod Tests
use sinterdb.Prelude.{
  ℕ, zero, suc, ◌+◌, ◌-◌, ◌*◌, ◌/◌, ◌%◌, ◌^◌, Bool, true, false, not, ◌&&◌, Option, none, some,
  List, [], ◌∷◌, ◌++◌, Bytes, Str, Result, ok, err, ◌>>=◌, ◌>>◌, require, leb, ltb, ◌==◌,
  if◌then◌else◌, length, take, drop,
}
use sinterdb.Protocol.BigEndian.{be_bytes, be_value}
use sinterdb.Protocol.Utf8.{utf8_encode, utf8_decode}
use sinterdb.Storage.Errors.{StorageError, corruption}
use sinterdb.Storage.IndexSpec.{IndexSpec, normalize_index_spec, input_of}

abbrev pub id_byte_length : ℕ
id_byte_length = 16

abbrev pub max_name_byte_length : ℕ
max_name_byte_length = 65535

pub data Operation : Type 0 where
  create_collection : (database collection : Str) → Operation
  put : (database collection : Str) (id document : Bytes) → Operation
  delete : (database collection : Str) (id : Bytes) → Operation
  create_index : (database collection : Str) (index : IndexSpec) → Operation
  drop_index : (database collection name : Str) → Operation

-- The encoder's errors; a length that does not fit its four bytes is refused by `writeUInt32BE`.
pub data RangeError : Type 0 where
  name_range id_range length_range : RangeError

unfoldable pub encode_name : Str → Result RangeError Bytes
encode_name name = do
  let bytes = utf8_encode name
  require (not (length bytes == 0) && leb (length bytes) max_name_byte_length) name_range
  ok (be_bytes 2 (length bytes) ++ bytes)

unfoldable pub encode_id : Bytes → Result RangeError Bytes
encode_id id = do require (length id == id_byte_length) id_range; ok id

unfoldable pub encode_u32 : ℕ → Result RangeError Bytes
encode_u32 n = do require (ltb n (2 ^ 32)) length_range; ok (be_bytes 4 n)

unfoldable pub encode_bytes : Bytes → Result RangeError Bytes
encode_bytes bytes = do size ← encode_u32 (length bytes); ok (size ++ bytes)

abbrev pub bit : Bool → ℕ → ℕ
bit true n = n
bit false n = 0

-- The flags are the bits 1, 2 and 4.
unfoldable pub index_flags : IndexSpec → ℕ
index_flags spec = bit spec.unique 1 + (bit spec.sparse 2 + bit spec.descending 4)

unfoldable pub encode_index_spec : IndexSpec → Result RangeError Bytes
encode_index_spec spec = do
  name ← encode_name spec.name
  path ← encode_name spec.path
  ok (name ++ (path ++ be_bytes 1 (index_flags spec)))

-- The kind of an operation, and the names of its database and its collection.
unfoldable pub encode_start : ℕ → Str → Str → Result RangeError Bytes
encode_start kind database collection = do
  d ← encode_name database
  c ← encode_name collection
  ok (be_bytes 1 kind ++ (d ++ c))

unfoldable pub encode_operation : Operation → Result RangeError Bytes
encode_operation (create_collection database collection) = encode_start 1 database collection
encode_operation (put database collection id document) = do
  start ← encode_start 2 database collection
  i ← encode_id id
  d ← encode_bytes document
  ok (start ++ (i ++ d))
encode_operation (delete database collection id) = do
  start ← encode_start 3 database collection
  i ← encode_id id
  ok (start ++ i)
encode_operation (create_index database collection index) = do
  start ← encode_start 4 database collection
  s ← encode_index_spec index
  ok (start ++ s)
encode_operation (drop_index database collection name) = do
  start ← encode_start 5 database collection
  n ← encode_name name
  ok (start ++ n)

unfoldable pub encode_all : List Operation → Result RangeError Bytes
encode_all [] = ok []
encode_all (o ∷ os) = do first ← encode_operation o; others ← encode_all os; ok (first ++ others)

unfoldable pub encode_operations : List Operation → Result RangeError Bytes
encode_operations operations = do
  count ← encode_u32 (length operations)
  all ← encode_all operations
  ok (count ++ all)

-- What is read, and what is left.
abbrev pub Read {ℓ} : Type ℓ → Type ℓ
Read A = Bytes → Result StorageError (A × Bytes)

unfoldable pub read_bytes : ℕ → Read Bytes
read_bytes size left = do
  require (leb size (length left)) corruption
  ok (take size left, drop size left)

unfoldable pub read_uint : ℕ → Read ℕ
read_uint size left = do (bytes, r) ← read_bytes size left; ok (be_value bytes, r)

unfoldable pub decode_name : Bytes → Result StorageError Str
decode_name raw = elim (utf8_decode raw) [ none ↦ err corruption | some name ↦ ok name ]

unfoldable pub read_name : Read Str
read_name left = do
  (size, r) ← read_uint 2 left
  require (not (size == 0)) corruption
  (raw, r2) ← read_bytes size r
  name ← decode_name raw
  ok (name, r2)

-- `(flags & flag) !== 0`.
abbrev pub has_bit : ℕ → ℕ → Bool
has_bit flags flag = not ((flags / flag) % 2 == 0)

-- The `catch` of `readIndexSpec`.
abbrev pub as_corruption {ℓ} : {A : Type ℓ} → Result StorageError A → Result StorageError A
as_corruption (ok a) = ok a
as_corruption (err e) = err corruption

unfoldable pub read_index_spec : Read IndexSpec
read_index_spec left = do
  (name, r) ← read_name left
  (path, r2) ← read_name r
  (flags, r3) ← read_uint 1 r2
  let spec : IndexSpec = record {
    name = name;
    path = path;
    descending = has_bit flags 4;
    unique = has_bit flags 1;
    sparse = has_bit flags 2;
  }
  checked ← as_corruption (normalize_index_spec (input_of spec))
  ok (checked, r3)

-- What follows the kind and the two names.
unfoldable pub read_rest : ℕ → Str → Str → Read Operation
read_rest kind d c left =
    if kind == 1
    then ok (create_collection d c, left)
    else if kind == 2
    then (do
      (id, r) ← read_bytes id_byte_length left
      (size, r2) ← read_uint 4 r
      (document, r3) ← read_bytes size r2
      ok (put d c id document, r3))
    else if kind == 3
    then (do (id, r) ← read_bytes id_byte_length left; ok (delete d c id, r))
    else if kind == 4
    then (do (index, r) ← read_index_spec left; ok (create_index d c index, r))
    else (do (name, r) ← read_name left; ok (drop_index d c name, r))

-- An unknown kind is refused before anything else is read.
unfoldable pub read_operation : Read Operation
read_operation left = do
  (kind, r) ← read_uint 1 left
  require (leb 1 kind && leb kind 5) corruption
  (d, r2) ← read_name r
  (c, r3) ← read_name r2
  read_rest kind d c r3

unfoldable pub read_operations : ℕ → Read (List Operation)
read_operations zero left = ok ([], left)
read_operations (suc n) left = do
  (o, r) ← read_operation left
  (os, r2) ← read_operations n r
  ok (o ∷ os, r2)

unfoldable pub decode_operations : Bytes → Result StorageError (List Operation)
decode_operations payload = do
  (count, r) ← read_uint 4 payload
  (operations, r2) ← read_operations count r
  require (length r2 == 0) corruption
  ok operations
