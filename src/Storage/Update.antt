-- ===== src/Storage/Update.antt =====
-- packages/storage/src/update.ts. A compiled update is a function of the document; what it has changed
-- when it throws is left out, since its callers drop the document then.
mod Double
pub mod Frame
pub mod Effect
pub mod Meaning
pub mod Named
pub mod Asked
pub mod Outcome
pub mod Paths
pub mod Seed
mod Tests
use sinterdb.Prelude.{
  Bool, true, false, not, ◌&&◌, ◌||◌, Option, none, some, List, [], ◌∷◌, ◌++◌, Str, units, str_eq,
  Result, ok, err, ◌>>=◌, ◌>>◌, require, if◌then◌else◌, starts_with,
}
use sinterdb.Prelude.Int.{◌+ℤ◌}
use sinterdb.Protocol.Number.{is_finite}
use sinterdb.Protocol.Document.{
  Value, Items, Fields, number, bigint, array, document, nil, cons, end, field, get,
}
use sinterdb.Protocol.Encoder.{encode_document_value}
use sinterdb.Storage.Errors.{StorageError, invalid_update, immutable_id, Thrown, storage, encoded}
use sinterdb.Storage.Compare.{is_greater, is_less}
use sinterdb.Storage.Predicate.{has_operator, dollar}
use sinterdb.Storage.IndexSpec.{split, are_segments}
use sinterdb.Storage.Sort.{compare_document_values}
use sinterdb.Storage.Update.Double.{add_numbers}

pub data UpdateOperator : Type 0 where
  assign unset inc minimum maximum push pull add_to_set : UpdateOperator

unfoldable pub update_operator_of : Str → Option UpdateOperator
update_operator_of name =
    if str_eq name (units "$set")
    then some assign
    else if str_eq name (units "$unset")
    then some unset
    else if str_eq name (units "$inc")
    then some inc
    else if str_eq name (units "$min")
    then some minimum
    else if str_eq name (units "$max")
    then some maximum
    else if str_eq name (units "$push")
    then some push
    else if str_eq name (units "$pull")
    then some pull
    else if str_eq name (units "$addToSet")
    then some add_to_set
    else none

pub record Instruction : Type 0 where
  pub operator : UpdateOperator
  pub segments : List Str
  pub operand : Value

abbrev pub CompiledUpdate : Type 0
CompiledUpdate = Fields → Result Thrown Fields

unfoldable pub overlaps : List Str → List Str → Bool
overlaps [] right = true
overlaps (l ∷ left) [] = true
overlaps (l ∷ left) (r ∷ right) = str_eq l r && overlaps left right

abbrev pub first_is_id : List Str → Bool
first_is_id [] = false
first_is_id (segment ∷ segments) = str_eq segment (units "_id")

unfoldable pub parse_path : Str → Result StorageError (List Str)
parse_path path = do
  require (are_segments (split path)) invalid_update
  require (not (first_is_id (split path))) immutable_id
  ok (split path)

abbrev pub is_number_operand : Value → Bool
is_number_operand (bigint z) = true
is_number_operand (number b) = is_finite b
is_number_operand _ = false

abbrev pub is_scalar : Value → Bool
is_scalar (array vs) = false
is_scalar (document fs) = false
is_scalar _ = true

unfoldable pub validate_operand : UpdateOperator → Value → Result StorageError Value
validate_operand inc operand = do require (is_number_operand operand) invalid_update; ok operand
validate_operand minimum operand = do require (is_scalar operand) invalid_update; ok operand
validate_operand maximum operand = do require (is_scalar operand) invalid_update; ok operand
validate_operand operator operand = ok operand

unfoldable pub parse_operands : UpdateOperator → Fields → Result StorageError (List Instruction)
parse_operands operator end = ok []
parse_operands operator (field path operand rest) = do
  segments ← parse_path path
  validated ← validate_operand operator operand
  instructions ← parse_operands operator rest
  ok (record { operator = operator; segments = segments; operand = validated } ∷ instructions)

abbrev pub is_empty : Fields → Bool
is_empty end = true
is_empty (field k v fs) = false

unfoldable pub parse_operator :
    Option UpdateOperator → Value → Result StorageError (List Instruction)
parse_operator none operands = err invalid_update
parse_operator (some operator) (document fs) = do
  require (not (is_empty fs)) invalid_update
  parse_operands operator fs
parse_operator (some operator) _ = err invalid_update

unfoldable pub parse_operators : Fields → Result StorageError (List Instruction)
parse_operators end = ok []
parse_operators (field name operands rest) = do
  instructions ← parse_operator (update_operator_of name) operands
  others ← parse_operators rest
  ok (instructions ++ others)

unfoldable pub overlaps_some : List Str → List Instruction → Bool
overlaps_some segments [] = false
overlaps_some segments (i ∷ instructions) =
    overlaps segments i.segments || overlaps_some segments instructions

unfoldable pub conflicts : List Instruction → Bool
conflicts [] = false
conflicts (i ∷ instructions) = overlaps_some i.segments instructions || conflicts instructions

unfoldable pub parse_update : Value → Result StorageError (List Instruction)
parse_update (document fs) = do
  require (not (is_empty fs)) invalid_update
  instructions ← parse_operators fs
  require (not (conflicts instructions)) invalid_update
  ok instructions
parse_update _ = err invalid_update

-- `parent[key] = value` and `delete parent[key]`.
unfoldable pub set_field : Str → Value → Fields → Fields
set_field key value end = field key value end
set_field key value (field k v fs) =
    if str_eq k key then field k value fs else field k v (set_field key value fs)

unfoldable pub delete_field : Str → Fields → Fields
delete_field key end = end
delete_field key (field k v fs) =
    if str_eq k key then delete_field key fs else field k v (delete_field key fs)

unfoldable pub values_equal : Value → Value → Result Thrown Bool
values_equal left right = do
  a ← encoded (encode_document_value left)
  b ← encoded (encode_document_value right)
  ok (str_eq a b)

unfoldable pub push_item : Value → Items → Items
push_item v nil = cons v nil
push_item v (cons u us) = cons u (push_item v us)

-- `array.some` and `array.filter`, by equality with the operand.
unfoldable pub some_equal : Items → Value → Result Thrown Bool
some_equal nil operand = ok false
some_equal (cons v vs) operand = do
  equal ← values_equal v operand
  if equal then ok true else some_equal vs operand

unfoldable pub without_equal : Items → Value → Result Thrown Items
without_equal nil operand = ok nil
without_equal (cons v vs) operand = do
  equal ← values_equal v operand
  rest ← without_equal vs operand
  ok (if equal then rest else cons v rest)

-- The value that `$inc` puts in the place of the current one.
unfoldable pub incremented : Value → Value → Result Thrown Value
incremented (number current) (number operand) =
    let result = add_numbers current operand in
    (do require (is_finite result) (storage invalid_update); ok (number result))
incremented (bigint current) (bigint operand) = ok (bigint (current +ℤ operand))
incremented _ operand = err (storage invalid_update)

unfoldable pub apply_inc : Str → Value → Fields → Result Thrown Fields
apply_inc key operand parent = elim (get key parent) [
  | none ↦ ok (set_field key operand parent)
  | some current ↦ do value ← incremented current operand; ok (set_field key value parent)
]

unfoldable pub apply_extremum : Bool → Str → Value → Fields → Fields
apply_extremum is_minimum key operand parent = elim (get key parent) [
  | none ↦ set_field key operand parent
  | some current ↦
      let comparison = compare_document_values operand current in
      if (if is_minimum then is_less comparison else is_greater comparison)
      then set_field key operand parent
      else parent
]

-- A missing field counts as the empty array, which is set up if it is to be pushed on.
unfoldable pub get_array : Str → Fields → Result Thrown Items
get_array key parent = elim (get key parent) [
  | none ↦ ok nil
  | some value ↦ elim value [ array vs ↦ ok vs | _ ↦ err (storage invalid_update) ]
]

unfoldable pub apply_push : Str → Value → Fields → Result Thrown Fields
apply_push key operand parent = do
  items ← get_array key parent
  ok (set_field key (array (push_item operand items)) parent)

unfoldable pub apply_add_to_set : Str → Value → Fields → Result Thrown Fields
apply_add_to_set key operand parent = do
  items ← get_array key parent
  present ← some_equal items operand
  ok (set_field key (array (if present then items else push_item operand items)) parent)

abbrev pub has_items : Items → Bool
has_items nil = false
has_items (cons v vs) = true

unfoldable pub apply_pull : Str → Value → Fields → Result Thrown Fields
apply_pull key operand parent = do
  items ← get_array key parent
  left ← without_equal items operand
  ok (if has_items items then set_field key (array left) parent else parent)

unfoldable pub apply_operator : UpdateOperator → Value → Str → Fields → Result Thrown Fields
apply_operator assign operand key parent = ok (set_field key operand parent)
apply_operator unset operand key parent = ok (delete_field key parent)
apply_operator inc operand key parent = apply_inc key operand parent
apply_operator minimum operand key parent = ok (apply_extremum true key operand parent)
apply_operator maximum operand key parent = ok (apply_extremum false key operand parent)
apply_operator push operand key parent = apply_push key operand parent
apply_operator add_to_set operand key parent = apply_add_to_set key operand parent
apply_operator pull operand key parent = apply_pull key operand parent

-- `resolveParent` with what is done to the parent: documents on the way are changed in place.
-- There is no path without segments.
module _ (create : Bool) (change : Str → Fields → Result Thrown Fields) where
  unfoldable pub at_parent : List Str → Fields → Result Thrown Fields
  at_parent [] fs = ok fs
  at_parent (key ∷ []) fs = change key fs
  at_parent (segment ∷ next ∷ rest) fs = elim (get segment fs) [
    | none ↦ elim create [
      | true ↦ do
        created ← at_parent (next ∷ rest) end
        ok (set_field segment (document created) fs)
      | false ↦ ok fs
    ]
    | some value ↦ elim value [
      | document inner ↦ do
        changed ← at_parent (next ∷ rest) inner
        ok (set_field segment (document changed) fs)
      | _ ↦ elim create [ true ↦ err (storage invalid_update) | false ↦ ok fs ]
    ]
  ]

abbrev pub creates : UpdateOperator → Bool
creates unset = false
creates pull = false
creates _ = true

unfoldable pub apply_instruction : Instruction → CompiledUpdate
apply_instruction i doc =
    at_parent (creates i.operator) (apply_operator i.operator i.operand) i.segments doc

unfoldable pub apply_all : List Instruction → CompiledUpdate
apply_all [] doc = ok doc
apply_all (i ∷ instructions) doc = do
  changed ← apply_instruction i doc
  apply_all instructions changed

unfoldable pub compile_update : Value → Result StorageError CompiledUpdate
compile_update update = do instructions ← parse_update update; ok (apply_all instructions)

-- What a filter's field must be equal to, if it says that.
unfoldable pub extract_equality : Value → Option Value
extract_equality (document (field name operand end)) =
    if str_eq name (units "$eq")
    then some operand
    else if has_operator (field name operand end)
    then none
    else some (document (field name operand end))
extract_equality (document fs) = if has_operator fs then none else some (document fs)
extract_equality value = some value

unfoldable pub overlaps_assigned : List (List Str) → List Str → Bool
overlaps_assigned [] segments = false
overlaps_assigned (other ∷ assigned) segments =
    overlaps other segments || overlaps_assigned assigned segments

abbrev pub assigning : Value → Str → Fields → Result Thrown Fields
assigning value key parent = ok (set_field key value parent)

unfoldable pub seed_fields : List (List Str) → Fields → Fields → Result Thrown Fields
seed_fields assigned end seed = ok seed
seed_fields assigned (field key value rest) seed =
    if starts_with dollar key
    then seed_fields assigned rest seed
    else elim (extract_equality value) [
      | none ↦ seed_fields assigned rest seed
      | some equal ↦ do
        require (are_segments (split key) && not (overlaps_assigned assigned (split key)))
            (storage invalid_update)
        grown ← at_parent true (assigning equal) (split key) seed
        seed_fields (split key ∷ assigned) rest grown
    ]

unfoldable pub seed_document_from_filter : Fields → Result Thrown Fields
seed_document_from_filter filter = seed_fields [] filter end
