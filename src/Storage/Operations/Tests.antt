-- ===== src/Storage/Operations/Tests.antt =====
-- Logged operations and index definitions on concrete inputs.
use sinterdb.Prelude.{
  ◌≡◌, refl, true, false, none, some, List, [], ◌∷◌, Bytes, units, str_eq, ok, arith, replicate,
}
use sinterdb.Protocol.BigEndian.{be_bytes}
use sinterdb.Protocol.Utf8.{
  utf8_encode, encode_points, encode_point, code_points, is_well_formed, no_surrogate,
}
use sinterdb.Storage.IndexSpec.{
  IndexSpec, CreateIndexInput, split, is_segment, are_segments, has_control, is_index_name,
  is_index_path, normalize_index_spec, normalize-normalize_index_spec,
}
use sinterdb.Storage.Operations.{
  Operation, delete, create_index, encode_name, encode_id, encode_u32, index_flags,
  encode_index_spec, encode_start, encode_operation, encode_all, encode_operations,
  decode_operations,
}
use sinterdb.Storage.Operations.Parts.{IsName}
use sinterdb.Storage.Operations.RoundTrip.{decode-encode_operations}

-- A unique descending index on a path, with the name that it gets by default.
abbrev input : CreateIndexInput
input = record {
  path = units "a.b";
  descending = some true;
  unique = some true;
  sparse = none;
  name = none;
}

abbrev spec : IndexSpec
spec = record {
  name = units "a.b_-1";
  path = units "a.b";
  descending = true;
  unique = true;
  sparse = false;
}

normalized : normalize_index_spec input ≡ ok spec
unfolding normalize_index_spec is_index_path is_index_name are_segments is_segment split has_control
    str_eq
normalized = refl

abbrev operations : List Operation
operations =
    create_index (units "d") (units "c") spec
    ∷ (delete (units "d") (units "c") (replicate 16 7) ∷ [])

abbrev payload : Bytes
payload =
    0
    ∷ 0
    ∷ 0
    ∷ 2
    ∷ 4
    ∷ 0
    ∷ 1
    ∷ 0x64
    ∷ 0
    ∷ 1
    ∷ 0x63
    ∷ 0
    ∷ 6
    ∷ 0x61
    ∷ 0x2e
    ∷ 0x62
    ∷ 0x5f
    ∷ 0x2d
    ∷ 0x31
    ∷ 0
    ∷ 3
    ∷ 0x61
    ∷ 0x2e
    ∷ 0x62
    ∷ 5
    ∷ 3
    ∷ 0
    ∷ 1
    ∷ 0x64
    ∷ 0
    ∷ 1
    ∷ 0x63
    ∷ replicate 16 7

operations-encoded : encode_operations operations ≡ ok payload
unfolding encode_operations encode_all encode_operation encode_start encode_index_spec index_flags
    encode_u32 encode_id encode_name utf8_encode encode_points encode_point code_points be_bytes
operations-encoded = refl

d-IsName : IsName (units "d")
unfolding is_well_formed no_surrogate code_points
d-IsName = ((omega arith, tt), refl, ground arith)

c-IsName : IsName (units "c")
unfolding is_well_formed no_surrogate code_points
c-IsName = ((omega arith, tt), refl, ground arith)

dotted-IsName : IsName (units "a.b")
unfolding is_well_formed no_surrogate code_points
dotted-IsName = ((omega arith, (omega arith, (omega arith, tt))), refl, ground arith)

long-IsName : IsName (units "a.b_-1")
unfolding is_well_formed no_surrogate code_points
long-IsName = (
  (omega arith, (omega arith, (omega arith, (omega arith, (omega arith, (omega arith, tt)))))),
  refl,
  ground arith,
)

decode-encode_operations_example : decode_operations payload ≡ ok operations
decode-encode_operations_example =
    decode-encode_operations operations payload
      (
        (
          d-IsName,
          c-IsName,
          long-IsName,
          dotted-IsName,
          normalize-normalize_index_spec input spec normalized,
        ),
        ((d-IsName, c-IsName), tt),
      )
      operations-encoded
