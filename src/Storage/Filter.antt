-- ===== src/Storage/Filter.antt =====
-- packages/storage/src/filter.ts: compiling. A compiled filter is a function of the document. What
-- compiling throws is told apart only at the end, where it is caught. Documents are plain by their
-- type, so `isPlainDocument` asks only for the constructor.
pub mod Meaning
pub mod Decide
pub mod Named
pub mod Predicates
pub mod ClauseMeaning
pub mod Agreement
pub mod Returns
pub mod Total
pub mod Tests
use sinterdb.Prelude.{
  Bool, true, false, not, ◌&&◌, Option, none, some, List, [], ◌∷◌, Str, units, str_eq, Result, ok,
  err, ◌>>=◌, ◌>>◌, require, if◌then◌else◌, ◌==◌, length, starts_with,
}
use sinterdb.Protocol.Document.{Value, Items, Fields, array, document, nil, cons, end, field}
use sinterdb.Protocol.Encoder.{encode_document_value}
use sinterdb.Storage.Errors.{StorageError, invalid_filter, Thrown, storage, protocol, encoded}
use sinterdb.Storage.IndexSpec.{split}
use sinterdb.Storage.Predicate.{
  FieldPredicate, CompiledFilter, CompiledField, every, any, negated, dollar, resolve_field,
  has_operator, has_literal, is_operator_document, compile_equality_predicate,
  compile_inequality_predicate, ComparisonOperator, gt, gte, lt, lte, compile_comparison_predicate,
  compile_membership_predicate, compile_exists_predicate,
}

-- The names that `compileOperatorDocument` and `compileLogicalOperator` switch on.
pub data Operator : Type 0 where
  eq ne member nonmember exists negation : Operator
  comparison : ComparisonOperator → Operator

unfoldable pub operator_of : Str → Option Operator
operator_of name =
    if str_eq name (units "$eq")
    then some eq
    else if str_eq name (units "$ne")
    then some ne
    else if str_eq name (units "$gt")
    then some (comparison gt)
    else if str_eq name (units "$gte")
    then some (comparison gte)
    else if str_eq name (units "$lt")
    then some (comparison lt)
    else if str_eq name (units "$lte")
    then some (comparison lte)
    else if str_eq name (units "$in")
    then some member
    else if str_eq name (units "$nin")
    then some nonmember
    else if str_eq name (units "$exists")
    then some exists
    else if str_eq name (units "$not")
    then some negation
    else none

pub data Logical : Type 0 where
  conjunction disjunction joint_denial : Logical

unfoldable pub logical_of : Str → Option Logical
logical_of name =
    if str_eq name (units "$and")
    then some conjunction
    else if str_eq name (units "$or")
    then some disjunction
    else if str_eq name (units "$nor")
    then some joint_denial
    else none

-- One operator of an operator document; the last argument is what `$not` compiles its operand to.
unfoldable pub compile_operator :
    Option Operator → Value → Result Thrown FieldPredicate → Result Thrown FieldPredicate
compile_operator none operand inner = err (storage invalid_filter)
compile_operator (some eq) operand inner = compile_equality_predicate operand
compile_operator (some ne) operand inner = compile_inequality_predicate operand
compile_operator (some (comparison operator)) operand inner =
    compile_comparison_predicate operator operand
compile_operator (some member) operand inner = compile_membership_predicate operand false
compile_operator (some nonmember) operand inner = compile_membership_predicate operand true
compile_operator (some exists) operand inner = compile_exists_predicate operand
compile_operator (some negation) operand inner = inner

unfoldable mutual
  pub compile_operators : Fields → Result Thrown (List FieldPredicate)
  compile_operators end = ok []
  compile_operators (field name operand rest) = do
    predicate ← compile_operator (operator_of name) operand (compile_not_predicate operand)
    predicates ← compile_operators rest
    ok (predicate ∷ predicates)

  pub compile_not_predicate : Value → Result Thrown FieldPredicate
  compile_not_predicate (document fs) = do
    require (has_operator fs && not (has_literal fs)) (storage invalid_filter)
    predicates ← compile_operators fs
    ok (λ resolved. negated (every predicates resolved))
  compile_not_predicate _ = err (storage invalid_filter)

unfoldable pub compile_operator_document : Fields → Result Thrown (List FieldPredicate)
compile_operator_document operators = do
  require (not (has_literal operators)) (storage invalid_filter)
  compile_operators operators

unfoldable pub is_path_segment : Str → Bool
is_path_segment segment = not (length segment == 0) && not (starts_with dollar segment)

unfoldable pub are_path_segments : List Str → Bool
are_path_segments [] = true
are_path_segments (segment ∷ segments) = is_path_segment segment && are_path_segments segments

unfoldable pub compile_field_path : Str → Result Thrown (List Str)
compile_field_path path = do
  require (not (length path == 0) && are_path_segments (split path)) (storage invalid_filter)
  ok (split path)

unfoldable pub compile_predicates : Value → Result Thrown (List FieldPredicate)
compile_predicates value =
    if is_operator_document value
    then (elim value [
      | document fs ↦ compile_operator_document fs
      | _ ↦ err (storage invalid_filter)
    ])
    else (do predicate ← compile_equality_predicate value; ok (predicate ∷ []))

unfoldable pub compile_field : Str → Value → Result Thrown CompiledField
compile_field path value = do
  segments ← compile_field_path path
  predicates ← compile_predicates value
  ok (record { segments = segments; predicates = predicates })

unfoldable pub matches_compiled_filter : List CompiledField → CompiledFilter
matches_compiled_filter [] doc = ok true
matches_compiled_filter (compiled ∷ fields) doc = do
  holds ← every compiled.predicates (resolve_field doc compiled.segments)
  if holds then matches_compiled_filter fields doc else ok false

-- The two arrays that the clauses are pushed on.
pub record Clauses : Type 0 where
  pub fields : List CompiledField
  pub logical : List CompiledFilter

pub data Clause : Type 0 where
  on_field : CompiledField → Clause
  on_document : CompiledFilter → Clause

abbrev pub add_clause : Clause → Clauses → Clauses
add_clause (on_field compiled) c = record c { fields = compiled ∷ c.fields }
add_clause (on_document filter) c = record c { logical = filter ∷ c.logical }

unfoldable pub matches_clauses : Clauses → CompiledFilter
matches_clauses c doc = do
  holds ← matches_compiled_filter c.fields doc
  if holds then every c.logical doc else ok false

unfoldable pub combine : Logical → List CompiledFilter → CompiledFilter
combine conjunction clauses doc = every clauses doc
combine disjunction clauses doc = any clauses doc
combine joint_denial clauses doc = negated (any clauses doc)

unfoldable pub all_plain : Items → Bool
all_plain nil = true
all_plain (cons (document fs) vs) = all_plain vs
all_plain (cons _ vs) = false

abbrev pub is_empty_array : Items → Bool
is_empty_array nil = true
is_empty_array (cons v vs) = false

abbrev pub compile_logical_operator :
    Option Logical → Result Thrown (List CompiledFilter) → Result Thrown Clause
compile_logical_operator none operands = err (storage invalid_filter)
compile_logical_operator (some name) operands =
    operands >>= λ clauses. ok (on_document (combine name clauses))

unfoldable mutual
  pub collect_clauses : Fields → Result Thrown Clauses
  collect_clauses end = ok (record { fields = []; logical = [] })
  collect_clauses (field key value rest) = do
    clause ←
        if starts_with dollar key
        then compile_logical_operator (logical_of key) (compile_operands value)
        else (compile_field key value >>= λ compiled. ok (on_field compiled))
    clauses ← collect_clauses rest
    ok (add_clause clause clauses)

  pub compile_operands : Value → Result Thrown (List CompiledFilter)
  compile_operands (array vs) = do
    require (not (is_empty_array vs) && all_plain vs) (storage invalid_filter)
    compile_each vs
  compile_operands _ = err (storage invalid_filter)

  pub compile_each : Items → Result Thrown (List CompiledFilter)
  compile_each nil = ok []
  compile_each (cons v vs) = do
    compiled ← compile_clauses v
    rest ← compile_each vs
    ok (compiled ∷ rest)

  pub compile_clauses : Value → Result Thrown CompiledFilter
  compile_clauses (document fs) = do clauses ← collect_clauses fs; ok (matches_clauses clauses)
  compile_clauses _ = err (storage invalid_filter)

-- Whatever compiling throws is an invalid filter.
abbrev pub as_invalid_filter {ℓ} : {A : Type ℓ} → Result Thrown A → Result StorageError A
as_invalid_filter (ok a) = ok a
as_invalid_filter (err (storage e)) = err e
as_invalid_filter (err (protocol e)) = err invalid_filter

unfoldable pub compile_filter : Value → Result StorageError CompiledFilter
compile_filter (document fs) =
    as_invalid_filter
      (do bytes ← encoded (encode_document_value (document fs)); compile_clauses (document fs))
compile_filter _ = err invalid_filter
