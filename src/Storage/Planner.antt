-- ===== src/Storage/Planner.antt =====
-- packages/storage/src/indexing/planner.ts. A plan holds the index that it reads. The product of
-- doubles in an estimate is an argument: an estimate decides between plans and nothing else.
pub mod Constraints
pub mod Collect
pub mod Bounds
pub mod Access
pub mod Ids
pub mod Candidates
pub mod Sound
mod Tests
use sinterdb.Prelude.{
  ℕ, ◌+◌, Bool, true, false, not, ◌||◌, Option, none, some, List, [], ◌∷◌, ◌++◌, Bytes, Str, units,
  str_eq, ok, ◌>>=◌, if◌then◌else◌, ltb, ◌==◌, length, starts_with,
}
use sinterdb.Protocol.CustomId.{to_hex_string}
use sinterdb.Protocol.Errors.{Throws}
use sinterdb.Protocol.Document.{Value, Items, Fields, id, array, document, nil, cons, end, field}
use sinterdb.Storage.Compare.{Comparison, less, same, greater}
use sinterdb.Storage.Predicate.{dollar, is_operator_document, compare_values, gt, gte, lt, lte}
use sinterdb.Storage.Filter.{Operator, operator_of, eq, member, comparison}
use sinterdb.Storage.IndexValue.{
  ValueClass, class_eq, canonical_key, value_class_of, below_zero, is_zero, IndexBound, set_add,
}
use sinterdb.Storage.FieldIndex.{
  FieldIndex, has_array_values, lookup_equal, estimate_equal, range_entries, lookup_range, add_all,
}

pub data Constraint : Type 0 where
  equals : Value → Constraint
  one_of : Items → Constraint
  lower upper : Value → Bool → Constraint

pub data IndexAccess : Type 0 where
  equal : List Value → IndexAccess
  range : ValueClass → Option IndexBound → Option IndexBound → IndexAccess

pub data QueryPlan : Type 0 where
  collscan : ℕ → QueryPlan
  idlookup : List Str → ℕ → QueryPlan
  ixscan : FieldIndex → IndexAccess → Bool → ℕ → QueryPlan

abbrev pub estimated : QueryPlan → ℕ
estimated (collscan n) = n
estimated (idlookup keys n) = n
estimated (ixscan index access via_membership n) = n

-- `out`: the constraints on each field.
abbrev pub Constraints : Type 0
Constraints = List (Str × List Constraint)

unfoldable pub constraints_get : Str → Constraints → Option (List Constraint)
constraints_get key [] = none
constraints_get key ((k, cs) ∷ out) = if str_eq k key then some cs else constraints_get key out

-- Pushes on the list of a field, which is set up if there is none.
unfoldable pub push_all : Str → List Constraint → Constraints → Constraints
push_all key new [] = (key, new) ∷ []
push_all key new ((k, cs) ∷ out) =
    if str_eq k key then (k, cs ++ new) ∷ out else (k, cs) ∷ push_all key new out

unfoldable pub operator_constraint : Option Operator → Value → List Constraint
operator_constraint (some eq) operand = equals operand ∷ []
operator_constraint (some member) (array vs) = one_of vs ∷ []
operator_constraint (some (comparison gt)) operand = lower operand false ∷ []
operator_constraint (some (comparison gte)) operand = lower operand true ∷ []
operator_constraint (some (comparison lt)) operand = upper operand false ∷ []
operator_constraint (some (comparison lte)) operand = upper operand true ∷ []
operator_constraint _ operand = []

unfoldable pub operator_constraints : Fields → List Constraint
operator_constraints end = []
operator_constraints (field name operand rest) =
    operator_constraint (operator_of name) operand ++ operator_constraints rest

unfoldable pub field_constraints : Value → List Constraint
field_constraints value =
    if is_operator_document value
    then (elim value [ document fs ↦ operator_constraints fs | _ ↦ [] ])
    else equals value ∷ []

unfoldable mutual
  pub collect : Fields → Constraints → Constraints
  collect end out = out
  collect (field key value rest) out = collect rest (
      if str_eq key (units "$and")
      then collect_and value out
      else if starts_with dollar key
      then out
      else push_all key (field_constraints value) out)

  pub collect_and : Value → Constraints → Constraints
  collect_and (array vs) out = collect_each vs out
  collect_and _ out = out

  pub collect_each : Items → Constraints → Constraints
  collect_each nil out = out
  collect_each (cons v vs) out = collect_each vs (collect_document v out)

  pub collect_document : Value → Constraints → Constraints
  collect_document (document fs) out = collect fs out
  collect_document _ out = out

-- `[...new Set(values.filter(isCustomId).map(toHexString))]`.
unfoldable pub id_keys : Items → List Str → List Str
id_keys nil keys = keys
id_keys (cons (id bytes) vs) keys = id_keys vs (set_add (to_hex_string bytes) keys)
id_keys (cons _ vs) keys = id_keys vs keys

unfoldable pub constraint_keys : Constraint → Option (List Str)
constraint_keys (equals (id bytes)) = some (to_hex_string bytes ∷ [])
constraint_keys (equals _) = some []
constraint_keys (one_of vs) = some (id_keys vs [])
constraint_keys (lower v inclusive) = none
constraint_keys (upper v inclusive) = none

abbrev pub fewer : Option (List Str) → Option (List Str) → Option (List Str)
fewer none best = best
fewer (some keys) none = some keys
fewer (some keys) (some best) = if ltb (length keys) (length best) then some keys else some best

unfoldable pub best_keys : List Constraint → Option (List Str) → Option (List Str)
best_keys [] best = best
best_keys (c ∷ cs) best = best_keys cs (fewer (constraint_keys c) best)

unfoldable pub plan_id : Option (List Constraint) → Option QueryPlan
plan_id none = none
plan_id (some cs) = elim (best_keys cs none) [
  | none ↦ none
  | some keys ↦ some (idlookup keys (length keys))
]

-- `distinct`: a map from the canonical key to the last value that has it.
abbrev pub Distinct : Type 0
Distinct = List (Bytes × Value)

unfoldable pub distinct_set : Bytes → Value → Distinct → Distinct
distinct_set key v [] = (key, v) ∷ []
distinct_set key v ((k, u) ∷ m) = if str_eq k key then (k, v) ∷ m else (k, u) ∷ distinct_set key v m

unfoldable pub distinct_values : Items → Distinct → Throws Distinct
distinct_values nil m = ok m
distinct_values (cons v vs) m = do key ← canonical_key v; distinct_values vs (distinct_set key v m)

unfoldable pub values_of : Distinct → List Value
values_of [] = []
values_of ((k, v) ∷ m) = v ∷ values_of m

unfoldable pub total_estimate : List Value → FieldIndex → ℕ → Throws ℕ
total_estimate [] index total = ok total
total_estimate (v ∷ vs) index total = do
  n ← estimate_equal v index
  total_estimate vs index (total + n)

unfoldable pub plan_constraint : FieldIndex → Constraint → Throws (List QueryPlan)
plan_constraint index (equals v) = do
  n ← estimate_equal v index
  ok (ixscan index (equal (v ∷ [])) false n ∷ [])
plan_constraint index (one_of vs) = if has_array_values index then ok [] else (do
  distinct ← distinct_values vs []
  n ← total_estimate (values_of distinct) index 0
  ok (ixscan index (equal (values_of distinct)) true n ∷ []))
plan_constraint index (lower v inclusive) = ok []
plan_constraint index (upper v inclusive) = ok []

unfoldable pub plan_constraints : FieldIndex → List Constraint → Throws (List QueryPlan)
plan_constraints index [] = ok []
plan_constraints index (c ∷ cs) = do
  plans ← plan_constraint index c
  rest ← plan_constraints index cs
  ok (plans ++ rest)

abbrev pub is_above_zero : Option Comparison → Bool
is_above_zero none = false
is_above_zero (some less) = false
is_above_zero (some same) = false
is_above_zero (some greater) = true

-- The tighter of two bounds; `is_lower` is whether the side is "lower".
unfoldable pub tighter : Option IndexBound → IndexBound → Bool → IndexBound
tighter none new is_lower = new
tighter (some current) new is_lower =
    let c = compare_values new.value current.value in
    if is_zero c
    then (if new.inclusive then current else new)
    else if (if is_lower then is_above_zero c else below_zero c)
    then new
    else current

pub record Range : Type 0 where
  pub value_class : Option ValueClass
  pub lower_end : Option IndexBound
  pub upper_end : Option IndexBound

abbrev pub differs : Option ValueClass → ValueClass → Bool
differs none c = false
differs (some d) c = not (class_eq d c)

-- One round of the loop of `planRange` over a bound; `none` is its early return.
unfoldable pub narrow : Value → Bool → Bool → Range → Option Range
narrow v inclusive is_lower r = elim (value_class_of v) [
  | none ↦ none
  | some c ↦
      if differs r.value_class c
      then none
      else let bound : IndexBound = record { value = v; inclusive = inclusive } in
        some (
          if is_lower
          then record r { value_class = some c; lower_end = some (tighter r.lower_end bound true) }
          else record r {
            value_class = some c;
            upper_end = some (tighter r.upper_end bound false);
          })
]

unfoldable pub narrow_all : List Constraint → Range → Option Range
narrow_all [] r = some r
narrow_all (equals v ∷ cs) r = narrow_all cs r
narrow_all (one_of vs ∷ cs) r = narrow_all cs r
narrow_all (lower v inclusive ∷ cs) r = elim (narrow v inclusive true r) [
  | none ↦ none
  | some r' ↦ narrow_all cs r'
]
narrow_all (upper v inclusive ∷ cs) r = elim (narrow v inclusive false r) [
  | none ↦ none
  | some r' ↦ narrow_all cs r'
]

abbrev pub no_range : Range
no_range = record { value_class = none; lower_end = none; upper_end = none }

-- `scaled_count n d s` is Math.ceil(n * (d / s)), computed with doubles.
module _ (scaled_count : ℕ → ℕ → ℕ → ℕ) where
  unfoldable pub estimate_range :
      ValueClass → Option IndexBound → Option IndexBound → FieldIndex → ℕ
  estimate_range c low high index =
      if length index.by_value == 0
      then 0
      else scaled_count (length (range_entries c low high index)) index.indexed_documents
          (length index.by_value)

  unfoldable pub range_plan : FieldIndex → Option Range → List QueryPlan
  range_plan index none = []
  range_plan index (some r) = elim r.value_class [
    | none ↦ []
    | some c ↦
        ixscan index (range c r.lower_end r.upper_end) false
          (estimate_range c r.lower_end r.upper_end index)
        ∷ []
  ]

  unfoldable pub plan_range : FieldIndex → List Constraint → List QueryPlan
  plan_range index cs = range_plan index (narrow_all cs no_range)

  unfoldable pub plan_index : FieldIndex → List Constraint → Throws (List QueryPlan)
  plan_index index cs = do plans ← plan_constraints index cs; ok (plans ++ plan_range index cs)

  -- An exact access is preferred to a range at the same estimate.
  unfoldable pub preferred : QueryPlan → QueryPlan → Bool
  preferred (ixscan i (equal vs) m n) (ixscan j (range c low high) k e) = ltb n e || (n == e)
  preferred candidate best = ltb (estimated candidate) (estimated best)

  unfoldable pub choose : List QueryPlan → QueryPlan → QueryPlan
  choose [] best = best
  choose (candidate ∷ candidates) best =
      choose candidates (if preferred candidate best then candidate else best)

  unfoldable pub plan_indexes : List FieldIndex → Constraints → QueryPlan → Throws QueryPlan
  plan_indexes [] constraints best = ok best
  plan_indexes (index ∷ indexes) constraints best = do
    candidates ← elim (constraints_get index.spec.path constraints) [
      | none ↦ ok []
      | some cs ↦ plan_index index cs
    ]
    plan_indexes indexes constraints (choose candidates best)

  unfoldable pub plan_query : Fields → List FieldIndex → ℕ → Throws QueryPlan
  plan_query filter indexes total_documents =
      if total_documents == 0
      then ok (collscan total_documents)
      else let constraints = collect filter [] in
        elim (plan_id (constraints_get (units "_id") constraints)) [
          | some plan ↦ ok plan
          | none ↦ plan_indexes indexes constraints (collscan total_documents)
        ]

unfoldable pub equal_keys : List Value → FieldIndex → List Str → Throws (List Str)
equal_keys [] index result = ok result
equal_keys (v ∷ vs) index result = do
  docs ← lookup_equal v index
  equal_keys vs index (elim docs [ none ↦ result | some keys ↦ add_all keys result ])

-- `none` is the error that a collection scan has no candidate keys.
unfoldable pub candidate_keys : QueryPlan → Throws (Option (List Str))
candidate_keys (collscan n) = ok none
candidate_keys (idlookup keys n) = ok (some keys)
candidate_keys (ixscan index (range c low high) m n) = ok (some (lookup_range c low high index))
candidate_keys (ixscan index (equal vs) m n) = do keys ← equal_keys vs index []; ok (some keys)
