-- ===== src/Storage/Predicate.antt =====
-- packages/storage/src/filter.ts: how a field is found and the predicates that filters make of it.
-- A predicate may throw the codec's errors.
use sinterdb.Prelude.{
  ℕ, Bool, true, false, not, ◌&&◌, ◌||◌, Option, none, some, List, [], ◌∷◌, Bytes, Str, str_eq, map,
  Result, ok, err, ◌>>=◌, ◌>>◌, require, if◌then◌else◌, starts_with,
}
use sinterdb.Protocol.Errors.{Throws}
use sinterdb.Protocol.Number.{is_finite}
use sinterdb.Protocol.Document.{
  Value, Items, Fields, bool, number, bigint, str, date, binary, id, array, document, nil, cons,
  end, field, get,
}
use sinterdb.Protocol.Encoder.{encode_document_value}
use sinterdb.Storage.Errors.{invalid_filter, Thrown, storage, encoded}
use sinterdb.Storage.Compare.{Comparison, is_greater, is_less, compare_ℤ, compare_units, scaled}

pub data ResolvedField : Type 0 where
  found : Value → ResolvedField
  missing : ResolvedField

abbrev pub FieldPredicate : Type 0
FieldPredicate = ResolvedField → Throws Bool

abbrev pub CompiledFilter : Type 0
CompiledFilter = Fields → Throws Bool

pub record CompiledField : Type 0 where
  pub segments : List Str
  pub predicates : List FieldPredicate

-- `list.every(test)` and `list.some(test)`, which stop at the first answer.
unfoldable pub every {ℓ} : {A : Type ℓ} → List (A → Throws Bool) → A → Throws Bool
every [] a = ok true
every (test ∷ tests) a = do holds ← test a; if holds then every tests a else ok false

unfoldable pub any {ℓ} : {A : Type ℓ} → List (A → Throws Bool) → A → Throws Bool
any [] a = ok false
any (test ∷ tests) a = do holds ← test a; if holds then ok true else any tests a

abbrev pub negated : Throws Bool → Throws Bool
negated result = result >>= λ b. ok (not b)

abbrev pub dollar : ℕ
dollar = 0x24

-- The walk from a value down the segments that are left.
unfoldable pub resolve_value : Value → List Str → ResolvedField
resolve_value value [] = found value
resolve_value (document fs) (segment ∷ segments) = elim (get segment fs) [
  | none ↦ missing
  | some value ↦ resolve_value value segments
]
resolve_value _ (segment ∷ segments) = missing

unfoldable pub resolve_field : Fields → List Str → ResolvedField
resolve_field fs [] = missing
resolve_field fs (segment ∷ segments) = elim (get segment fs) [
  | none ↦ missing
  | some value ↦ resolve_value value segments
]

unfoldable pub canonical_equals : Value → Bytes → Throws Bool
canonical_equals actual expected = do
  bytes ← encode_document_value actual
  ok (str_eq bytes expected)

unfoldable pub is_comparable_value : Value → Bool
is_comparable_value (str s) = true
is_comparable_value (bigint z) = true
is_comparable_value (number b) = is_finite b
is_comparable_value (date z) = true
is_comparable_value (binary bytes) = true
is_comparable_value (id bytes) = true
is_comparable_value _ = false

-- `none` is `undefined`: the two values are not of one comparable kind.
unfoldable pub compare_values : Value → Value → Option Comparison
compare_values (str a) (str b) = some (compare_units a b)
compare_values (number a) (number b) =
    if is_finite a && is_finite b then some (compare_ℤ (scaled a) (scaled b)) else none
compare_values (bigint a) (bigint b) = some (compare_ℤ a b)
compare_values (date a) (date b) = some (compare_ℤ a b)
compare_values (binary a) (binary b) = some (compare_units a b)
compare_values (id a) (id b) = some (compare_units a b)
compare_values _ _ = none

-- Whether some name of an operator document begins with a dollar sign, and whether one does not.
unfoldable pub has_operator : Fields → Bool
has_operator end = false
has_operator (field name v fs) = starts_with dollar name || has_operator fs

unfoldable pub has_literal : Fields → Bool
has_literal end = false
has_literal (field name v fs) = not (starts_with dollar name) || has_literal fs

unfoldable pub is_operator_document : Value → Bool
is_operator_document (document fs) = has_operator fs
is_operator_document _ = false

abbrev pub equality : Bytes → FieldPredicate
equality bytes (found value) = canonical_equals value bytes
equality bytes missing = ok false

abbrev pub compile_equality_predicate : Value → Result Thrown FieldPredicate
compile_equality_predicate expected = do
  bytes ← encoded (encode_document_value expected)
  ok (equality bytes)

abbrev pub inequality : Bytes → FieldPredicate
inequality bytes (found value) = negated (canonical_equals value bytes)
inequality bytes missing = ok true

abbrev pub compile_inequality_predicate : Value → Result Thrown FieldPredicate
compile_inequality_predicate expected = do
  bytes ← encoded (encode_document_value expected)
  ok (inequality bytes)

pub data ComparisonOperator : Type 0 where
  gt gte lt lte : ComparisonOperator

abbrev pub satisfies : ComparisonOperator → Comparison → Bool
satisfies gt c = is_greater c
satisfies gte c = not (is_less c)
satisfies lt c = is_less c
satisfies lte c = not (is_greater c)

unfoldable pub compares : ComparisonOperator → Value → Value → Bool
compares operator value expected = elim (compare_values value expected) [
  | none ↦ false
  | some c ↦ satisfies operator c
]

abbrev pub compared : ComparisonOperator → Value → FieldPredicate
compared operator expected (found value) = ok (compares operator value expected)
compared operator expected missing = ok false

abbrev pub compile_comparison_predicate : ComparisonOperator → Value → Result Thrown FieldPredicate
compile_comparison_predicate operator expected = do
  require (is_comparable_value expected) (storage invalid_filter)
  ok (compared operator expected)

unfoldable pub encode_candidates : Items → Throws (List Bytes)
encode_candidates nil = ok []
encode_candidates (cons v vs) = do
  bytes ← encode_document_value v
  candidates ← encode_candidates vs
  ok (bytes ∷ candidates)

unfoldable pub equals_some : List Bytes → Value → Throws Bool
equals_some candidates value = any (map (λ c v. canonical_equals v c) candidates) value

unfoldable pub element_equals_some : Items → List Bytes → Throws Bool
element_equals_some nil candidates = ok false
element_equals_some (cons v vs) candidates = do
  holds ← equals_some candidates v
  if holds then ok true else element_equals_some vs candidates

abbrev pub element_match : Value → List Bytes → Throws Bool
element_match (array vs) candidates = element_equals_some vs candidates
element_match _ candidates = ok false

unfoldable pub is_member : List Bytes → Value → Throws Bool
is_member candidates value = do
  direct ← equals_some candidates value
  element ← element_match value candidates
  ok (direct || element)

abbrev pub membership : Bool → List Bytes → FieldPredicate
membership negate candidates missing = ok negate
membership negate candidates (found value) = do
  matched ← is_member candidates value
  ok (if negate then not matched else matched)

abbrev pub compile_membership_predicate : Value → Bool → Result Thrown FieldPredicate
compile_membership_predicate (array vs) negate = do
  candidates ← encoded (encode_candidates vs)
  ok (membership negate candidates)
compile_membership_predicate _ negate = err (storage invalid_filter)

abbrev pub exists_as : Bool → FieldPredicate
exists_as expected (found value) = ok expected
exists_as expected missing = ok (not expected)

abbrev pub compile_exists_predicate : Value → Result Thrown FieldPredicate
compile_exists_predicate (bool expected) = ok (exists_as expected)
compile_exists_predicate _ = err (storage invalid_filter)
