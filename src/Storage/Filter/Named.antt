-- ===== src/Storage/Filter/Named.antt =====
-- The operators that packages/storage/src/filter.ts switches on, and what their names mean.
use mathlib.Core.Path.{subst}
use sinterdb.Prelude.{
  ◌≡◌, refl, ◌⊎◌, Bool, true, false, ◌&&◌, Option, none, some, Str, units, str_eq, inl, inr,
  if◌then◌else◌,
}
use sinterdb.Protocol.Number.{is_finite}
use sinterdb.Protocol.Document.{
  Value, Items, Fields, null, bool, invalid_date, document, number, bigint, str, date, binary, id,
  array,
}
use sinterdb.Storage.Compare.{Comparison, compare_ℤ, scaled, less, same, greater}
use sinterdb.Storage.Ordering.{Says, Under, compare_ℤ-Says, compare_units-Says}
use sinterdb.Storage.Predicate.{
  ResolvedField, ComparisonOperator, gt, gte, lt, lte, satisfies, compare_values,
}
use sinterdb.Storage.Filter.{
  Operator, operator_of, eq, ne, member, nonmember, exists, negation, comparison, Logical,
  logical_of, conjunction, disjunction, joint_denial,
}
use sinterdb.Storage.Filter.Decide.{Decided}
use sinterdb.Storage.Filter.Meaning.{
  IsEqual, Precedes, Level, Compared, Among, NotAmong, Exists, Chosen, NameHolds, LogicHolds,
  AllMatch, SomeMatches,
}

abbrev pub Satisfied : ComparisonOperator → Value → Value → Type 0
Satisfied gt u v = Precedes v u
Satisfied gte u v = Precedes v u ⊎ Level u v
Satisfied lt u v = Precedes u v
Satisfied lte u v = Precedes u v ⊎ Level u v

abbrev pub OperatorHolds : Option Operator → Value → ResolvedField → Type 0 → Type 0
OperatorHolds none v r N = ⊥
OperatorHolds (some eq) v r N = IsEqual v r
OperatorHolds (some ne) v r N = ¬ IsEqual v r
OperatorHolds (some (comparison gt)) v r N = Compared (λ u w. Precedes w u) v r
OperatorHolds (some (comparison gte)) v r N = Compared (λ u w. Precedes w u ⊎ Level u w) v r
OperatorHolds (some (comparison lt)) v r N = Compared (λ u w. Precedes u w) v r
OperatorHolds (some (comparison lte)) v r N = Compared (λ u w. Precedes u w ⊎ Level u w) v r
OperatorHolds (some member) v r N = Among v r
OperatorHolds (some nonmember) v r N = NotAmong v r
OperatorHolds (some exists) v r N = Exists v r
OperatorHolds (some negation) v r N = N

module _ (v : Value) (r : ResolvedField) (N : Type 0) where
  choose :
      (b : Bool) (o rest : Option Operator) {T : Type 0}
      → OperatorHolds rest v r N ≡ T
      → OperatorHolds (if b then o else rest) v r N ≡ Chosen b (OperatorHolds o v r N) T
  choose true o rest h = refl
  choose false o rest h = h

  pub OperatorHolds-name :
      (name : Str) → OperatorHolds (operator_of name) v r N ≡ NameHolds name v r N
  unfolding operator_of
  OperatorHolds-name name =
      (choose (str_eq name (units "$eq")) (some eq) _ (
        choose (str_eq name (units "$ne")) (some ne) _ (
          choose (str_eq name (units "$gt")) (some (comparison gt)) _ (
            choose (str_eq name (units "$gte")) (some (comparison gte)) _ (
              choose (str_eq name (units "$lt")) (some (comparison lt)) _ (
                choose (str_eq name (units "$lte")) (some (comparison lte)) _ (
                  choose (str_eq name (units "$in")) (some member) _ (
                    choose (str_eq name (units "$nin")) (some nonmember) _ (
                      choose (str_eq name (units "$exists")) (some exists) _
                        (choose (str_eq name (units "$not")) (some negation) _ refl))))))))))

abbrev pub Joined : Option Logical → Items → Fields → Type 0
Joined none vs doc = ⊥
Joined (some conjunction) vs doc = AllMatch vs doc
Joined (some disjunction) vs doc = SomeMatches vs doc
Joined (some joint_denial) vs doc = ¬ SomeMatches vs doc

abbrev pub LogicalHolds : Option Logical → Value → Fields → Type 0
LogicalHolds o (array vs) doc = Joined o vs doc
LogicalHolds o _ doc = ⊥

module _ (vs : Items) (doc : Fields) where
  choose_logical :
      (b : Bool) (o rest : Option Logical) {T : Type 0}
      → Joined rest vs doc ≡ T
      → Joined (if b then o else rest) vs doc ≡ Chosen b (Joined o vs doc) T
  choose_logical true o rest h = refl
  choose_logical false o rest h = h

pub LogicalHolds-key :
    (key : Str) (v : Value) (doc : Fields)
    → LogicalHolds (logical_of key) v doc ≡ LogicHolds key v doc
unfolding logical_of LogicHolds
LogicalHolds-key key (array vs) doc =
    (choose_logical vs doc (str_eq key (units "$and")) (some conjunction) _ (
      choose_logical vs doc (str_eq key (units "$or")) (some disjunction) _
        (choose_logical vs doc (str_eq key (units "$nor")) (some joint_denial) _ refl)))
LogicalHolds-key key _ doc = refl

-- What the comparison of two values says of their order.
abbrev Verdict : Option Comparison → Value → Value → Type 0
Verdict none u v = (¬ Precedes u v) × (¬ Level u v) × (¬ Precedes v u)
Verdict (some c) u v = Says c (Precedes u v) (Level u v) (Precedes v u)

Says-finite :
    (a b : _) (c : Comparison)
    → is_finite a ≡ true
    → is_finite b ≡ true
    → Says c (Under (scaled a) (scaled b)) (scaled a ≡ scaled b) (Under (scaled b) (scaled a))
    → Says c
        (Precedes (number a) (number b))
        (Level (number a) (number b))
        (Precedes (number b) (number a))
Says-finite a b less ha hb (l, e, g) = ((ha, hb, l), (λ h. e h.2), λ h. g h.2)
Says-finite a b same ha hb (l, e, g) = ((λ h. l h.2), (ha, hb, e), λ h. g h.2)
Says-finite a b greater ha hb (l, e, g) = ((λ h. l h.2), (λ h. e h.2), (hb, ha, g))

-- Values of the other kinds stand behind nothing.
null_behind : (v : Value) → ¬ Precedes v null
null_behind (str a) h = h
null_behind _ h = h

bool_behind : (b : Bool) (v : Value) → ¬ Precedes v (bool b)
bool_behind b (str a) h = h
bool_behind b _ h = h

invalid_behind : (v : Value) → ¬ Precedes v invalid_date
invalid_behind (str a) h = h
invalid_behind _ h = h

array_behind : (vs : Items) (v : Value) → ¬ Precedes v (array vs)
array_behind vs (str a) h = h
array_behind vs _ h = h

document_behind : (fs : Fields) (v : Value) → ¬ Precedes v (document fs)
document_behind fs (str a) h = h
document_behind fs _ h = h

compare_values-Verdict : (u v : Value) → Verdict (compare_values u v) u v
unfolding compare_values
compare_values-Verdict (str a) (str b) = compare_units-Says a b
compare_values-Verdict (number a) (number b) = by_finite (is_finite a) (is_finite b) refl refl
  where
    by_finite :
        (p q : Bool)
        → is_finite a ≡ p
        → is_finite b ≡ q
        → Verdict
            (if p && q then some (compare_ℤ (scaled a) (scaled b)) else none)
            (number a)
            (number b)
    by_finite true true ha hb = Says-finite a b _ ha hb (compare_ℤ-Says (scaled a) (scaled b))
    by_finite true false ha hb = ((λ h. cc), (λ h. cc), λ h. cc)
    by_finite false q ha hb = ((λ h. cc), (λ h. cc), λ h. cc)
compare_values-Verdict (bigint a) (bigint b) = compare_ℤ-Says a b
compare_values-Verdict (date a) (date b) = compare_ℤ-Says a b
compare_values-Verdict (binary a) (binary b) = compare_units-Says a b
compare_values-Verdict (id a) (id b) = compare_units-Says a b
compare_values-Verdict null v = ((λ h. h), (λ h. h), null_behind v)
compare_values-Verdict (bool b) v = ((λ h. h), (λ h. h), bool_behind b v)
compare_values-Verdict invalid_date v = ((λ h. h), (λ h. h), invalid_behind v)
compare_values-Verdict (array vs) v = ((λ h. h), (λ h. h), array_behind vs v)
compare_values-Verdict (document fs) v = ((λ h. h), (λ h. h), document_behind fs v)
compare_values-Verdict _ _ = ((λ h. h), (λ h. h), λ h. h)

-- What an operator finds in a comparison.
pub satisfies-decided :
    (operator : ComparisonOperator) (u v : Value) (c : Comparison)
    → compare_values u v ≡ some c
    → Decided (satisfies operator c) (Satisfied operator u v)
satisfies-decided operator u v c h =
    by_operator operator c (subst (λ o. Verdict o u v) h (compare_values-Verdict u v))
  where
    by_operator :
        (operator : ComparisonOperator) (c : Comparison)
        → Says c (Precedes u v) (Level u v) (Precedes v u)
        → Decided (satisfies operator c) (Satisfied operator u v)
    by_operator gt less (l, e, g) = g
    by_operator gt same (l, e, g) = g
    by_operator gt greater (l, e, g) = g
    by_operator gte less (l, e, g) = λ h. elim h [ inl k ↦ g k | inr k ↦ e k ]
    by_operator gte same (l, e, g) = inr e
    by_operator gte greater (l, e, g) = inl g
    by_operator lt less (l, e, g) = l
    by_operator lt same (l, e, g) = l
    by_operator lt greater (l, e, g) = l
    by_operator lte less (l, e, g) = inl l
    by_operator lte same (l, e, g) = inr e
    by_operator lte greater (l, e, g) = λ h. elim h [ inl k ↦ l k | inr k ↦ e k ]

pub incomparable-not :
    (operator : ComparisonOperator) (u v : Value)
    → compare_values u v ≡ none
    → ¬ Satisfied operator u v
incomparable-not operator u v h =
    by_operator operator (subst (λ o. Verdict o u v) h (compare_values-Verdict u v))
  where
    by_operator : (operator : ComparisonOperator) → Verdict none u v → ¬ Satisfied operator u v
    by_operator gt (l, e, g) = g
    by_operator gte (l, e, g) = λ h. elim h [ inl k ↦ g k | inr k ↦ e k ]
    by_operator lt (l, e, g) = l
    by_operator lte (l, e, g) = λ h. elim h [ inl k ↦ l k | inr k ↦ e k ]
