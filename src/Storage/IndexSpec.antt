-- ===== src/Storage/IndexSpec.antt =====
-- packages/storage/src/indexing/spec.ts. A direction is whether it is descending.
use sinterdb.Prelude.{
  ℕ, ◌≡◌, refl, Bool, true, false, not, ◌&&◌, ◌||◌, Option, none, some, List, [], ◌∷◌, ◌++◌, Str,
  units, str_eq, Result, ok, ◌>>◌, require, require-eq-ok, leb, ltb, ◌==◌, if◌then◌else◌, length,
  take, starts_with,
}
use sinterdb.Storage.Errors.{StorageError, invalid_index}

pub record IndexSpec : Type 0 where
  pub name : Str
  pub path : Str
  pub descending : Bool
  pub unique : Bool
  pub sparse : Bool

pub record CreateIndexInput : Type 0 where
  pub path : Str
  pub descending : Option Bool
  pub unique : Option Bool
  pub sparse : Option Bool
  pub name : Option Str

abbrev pub max_index_name_length : ℕ
max_index_name_length = 127

-- `split(".")`.
abbrev pub cons_first : ℕ → List Str → List Str
cons_first c [] = (c ∷ []) ∷ []
cons_first c (s ∷ ss) = (c ∷ s) ∷ ss

unfoldable pub split : Str → List Str
split [] = [] ∷ []
split (c ∷ s) = if c == 0x2e then [] ∷ split s else cons_first c (split s)

unfoldable pub is_segment : Str → Bool
is_segment segment =
    not (length segment == 0)
    && (not (starts_with 0x24 segment) && not (str_eq segment (units "__proto__")))

unfoldable pub are_segments : List Str → Bool
are_segments [] = true
are_segments (s ∷ ss) = is_segment s && are_segments ss

unfoldable pub has_control : Str → Bool
has_control [] = false
has_control (c ∷ s) = ltb c 32 || has_control s

unfoldable pub is_index_name : Str → Bool
is_index_name name =
    not (length name == 0)
    && (leb (length name) max_index_name_length
        && (not (str_eq name (units "_id_")) && not (has_control name)))

unfoldable pub is_index_path : Str → Bool
is_index_path path =
    not (length path == 0)
    && (are_segments (split path)
        && not (str_eq path (units "_id") || str_eq (take 4 path) (units "_id.")))

abbrev pub read_flag : Option Bool → Bool
read_flag none = false
read_flag (some b) = b

abbrev pub default_name : Str → Bool → Str
default_name path true = path ++ units "_-1"
default_name path false = path ++ units "_1"

abbrev pub name_of : CreateIndexInput → Str
name_of input = elim input.name [
  | none ↦ default_name input.path (read_flag input.descending)
  | some n ↦ n
]

unfoldable pub normalize_index_spec : CreateIndexInput → Result StorageError IndexSpec
normalize_index_spec input = do
  require (is_index_path input.path) invalid_index
  require (is_index_name (name_of input)) invalid_index
  ok (record {
    name = name_of input;
    path = input.path;
    descending = read_flag input.descending;
    unique = read_flag input.unique;
    sparse = read_flag input.sparse;
  })

abbrev pub input_of : IndexSpec → CreateIndexInput
input_of spec = record {
  path = spec.path;
  descending = some spec.descending;
  unique = some spec.unique;
  sparse = some spec.sparse;
  name = some spec.name;
}

-- A definition that `normalizeIndexSpec` has returned is returned again as it is.
pub normalize-normalize_index_spec :
    (input : CreateIndexInput) (spec : IndexSpec)
    → normalize_index_spec input ≡ ok spec
    → normalize_index_spec (input_of spec) ≡ ok spec
unfolding normalize_index_spec
normalize-normalize_index_spec input spec h =
    let (path_is, h1) = require-eq-ok (is_index_path input.path) _ _ h in
    let (name_is, h2) = require-eq-ok (is_index_name (name_of input)) _ _ h1 in
    let spec_is : ◌≡◌ {A = IndexSpec}
        (record {
          name = name_of input;
          path = input.path;
          descending = read_flag input.descending;
          unique = read_flag input.unique;
          sparse = read_flag input.sparse;
        })
        spec =
      cc in
    rw (← spec_is) (rw path_is (rw name_is refl))
