-- ===== src/Storage/Planner/Bounds.antt =====
-- `planRange` of packages/storage/src/indexing/planner.ts: the range that it asks for holds every value
-- for which the constraints hold.
use mathlib.Core.Path.{subst}
use sinterdb.Prelude.{
  ◌≡◌, refl, inl, inr, Bool, true, false, not, Option, none, some, List, [], ◌∷◌, Bool-cases,
  Option-cases, if◌then◌else◌,
}
use sinterdb.Protocol.Document.{Value}
use sinterdb.Storage.Compare.{Comparison, less, same, greater, is_less, is_greater}
use sinterdb.Storage.Predicate.{
  found, compare_values, compares, satisfies, ComparisonOperator, gt, gte, lt, lte,
}
use sinterdb.Storage.IndexValue.{
  ValueClass, class_eq, value_class_of, IndexBound, below_zero, at_most_zero, is_zero, is_below,
  is_at_most,
}
use sinterdb.Storage.FieldIndex.ClassOrder.{class_of_compared}
use sinterdb.Storage.FieldIndex.Maps.{class_eq→≡}
use sinterdb.Storage.FieldIndex.Range.{WithinLower, WithinUpper}
use sinterdb.Storage.Planner.{
  Constraint, equals, one_of, lower, upper, tighter, Range, differs, narrow, narrow_all,
  is_above_zero,
}
use sinterdb.Storage.Planner.Constraints.{Holds, AllHold}

compares-some :
    (operator : ComparisonOperator) (u v : Value)
    → compares operator u v ≡ true
    → (k : Comparison) × (compare_values u v ≡ some k) × (satisfies operator k ≡ true)
unfolding compares
compares-some operator u v h = elim (Option-cases (compare_values u v)) [
  | inl e ↦ let h' : ◌≡◌ {A = Bool} false true = rw (e, compares) at h in cc
  | inr (k, e) ↦ (k, e, rw (e, compares) at h)
]

lower_bool :
    (inclusive : Bool) (u v : Value)
    → compares (if inclusive then gte else gt) u v ≡ true
    → (if inclusive then is_below v u else is_at_most v u) ≡ false
lower_bool true u v h = let (k, e, s) = compares-some gte u v h in rw e (step k s)
  where
    step : (k : Comparison) → not (is_less k) ≡ true → below_zero (some k) ≡ false
    step less s = cc
    step same s = refl
    step greater s = refl
lower_bool false u v h = let (k, e, s) = compares-some gt u v h in rw e (step k s)
  where
    step : (k : Comparison) → is_greater k ≡ true → at_most_zero (some k) ≡ false
    step less s = cc
    step same s = cc
    step greater s = refl

upper_bool :
    (inclusive : Bool) (u v : Value)
    → compares (if inclusive then lte else lt) u v ≡ true
    → (if inclusive then is_at_most v u else is_below v u) ≡ true
upper_bool true u v h = let (k, e, s) = compares-some lte u v h in rw e (step k s)
  where
    step : (k : Comparison) → not (is_greater k) ≡ true → at_most_zero (some k) ≡ true
    step less s = refl
    step same s = refl
    step greater s = cc
upper_bool false u v h = let (k, e, s) = compares-some lt u v h in rw e (step k s)
  where
    step : (k : Comparison) → is_less k ≡ true → below_zero (some k) ≡ true
    step less s = refl
    step same s = cc
    step greater s = cc

-- A value lies in a range: of its class, within its bounds.
abbrev InClass : Option ValueClass → Option IndexBound → Option IndexBound → Value → Type 0
InClass none low high u = (low ≡ none) × (high ≡ none)
InClass (some c) low high u =
    (value_class_of u ≡ some c) × WithinLower c low u × WithinUpper c high u

abbrev pub Within : Range → Value → Type 0
Within r u = InClass r.value_class r.lower_end r.upper_end u

pick {κ} : {A : Type 0} (P : A → Type κ) (b : Bool) (x y : A) → P x → P y → P (if b then x else y)
pick P true x y px py = px
pick P false x y px py = py

tighter-lower :
    (c : ValueClass) (u : Value) (current : Option IndexBound) (new : IndexBound)
    → WithinLower c current u
    → WithinLower c (some new) u
    → WithinLower c (some (tighter current new true)) u
unfolding tighter
tighter-lower c u none new hc hn = hn
tighter-lower c u (some current) new hc hn =
    pick (λ b. WithinLower c (some b) u) (is_zero (compare_values new.value current.value))
      (if new.inclusive then current else new)
      (if is_above_zero (compare_values new.value current.value) then new else current)
      (pick (λ b. WithinLower c (some b) u) new.inclusive current new hc hn)
      (pick (λ b. WithinLower c (some b) u) (is_above_zero (compare_values new.value current.value))
        new current hn hc)

tighter-upper :
    (c : ValueClass) (u : Value) (current : Option IndexBound) (new : IndexBound)
    → WithinUpper c current u
    → WithinUpper c (some new) u
    → WithinUpper c (some (tighter current new false)) u
unfolding tighter
tighter-upper c u none new hc hn = hn
tighter-upper c u (some current) new hc hn =
    pick (λ b. WithinUpper c (some b) u) (is_zero (compare_values new.value current.value))
      (if new.inclusive then current else new)
      (if below_zero (compare_values new.value current.value) then new else current)
      (pick (λ b. WithinUpper c (some b) u) new.inclusive current new hc hn)
      (pick (λ b. WithinUpper c (some b) u) (below_zero (compare_values new.value current.value))
        new current hn hc)

-- The range before a bound of class `c` is of that class, or is none yet.
as_class :
    (r : Range) (u : Value) (c : ValueClass)
    → differs r.value_class c ≡ false
    → value_class_of u ≡ some c
    → Within r u
    → WithinLower c r.lower_end u × WithinUpper c r.upper_end u
as_class r u c same_class hu w = step r.value_class r.lower_end r.upper_end same_class w
  where
    step :
        (d : Option ValueClass) (low high : Option IndexBound)
        → differs d c ≡ false
        → InClass d low high u
        → WithinLower c low u × WithinUpper c high u
    step none low high h w = rw (w.0, w.1) (tt, tt)
    step (some d) low high h w =
        let e : d ≡ c = class_eq→≡ d c (not_not (class_eq d c) h) in
        subst (λ k. WithinLower k low u × WithinUpper k high u) e (w.1, w.2)
      where
        not_not : (b : Bool) → not b ≡ false → b ≡ true
        not_not true h = refl
        not_not false h = cc

narrow_lower :
    (v : Value) (inclusive : Bool) (r r' : Range) (u : Value)
    → Holds (lower v inclusive) (found u)
    → narrow v inclusive true r ≡ some r'
    → Within r u
    → Within r' u
unfolding narrow
narrow_lower v inclusive r r' u h hn w = elim (Option-cases (value_class_of v)) [
  | inl e ↦ let h' : none ≡ some r' = rw (e, narrow) at hn in cc
  | inr (c, e) ↦ elim (Bool-cases (differs r.value_class c)) [
    | inl d ↦ let h' : none ≡ some r' = rw (e, d, narrow) at hn in cc
    | inr d ↦
        let (k, compared, _) = compares-some (if inclusive then gte else gt) u v h in
        let hu : value_class_of u ≡ some c = class_of_compared c u v k e compared in
        let (low, high) = as_class r u c d hu w in
        let bound : IndexBound = record { value = v; inclusive = inclusive } in
        let is_r' : some
              (record r { value_class = some c; lower_end = some (tighter r.lower_end bound true) })
            ≡ some r' =
          rw (e, d, narrow) at hn in
        let same_range : ◌≡◌ {A = Range}
            (record r { value_class = some c; lower_end = some (tighter r.lower_end bound true) })
            r' =
          cc in
        subst (λ x. Within x u) same_range
          (hu, tighter-lower c u r.lower_end bound low (e, lower_bool inclusive u v h), high)
  ]
]

narrow_upper :
    (v : Value) (inclusive : Bool) (r r' : Range) (u : Value)
    → Holds (upper v inclusive) (found u)
    → narrow v inclusive false r ≡ some r'
    → Within r u
    → Within r' u
unfolding narrow
narrow_upper v inclusive r r' u h hn w = elim (Option-cases (value_class_of v)) [
  | inl e ↦ let h' : none ≡ some r' = rw (e, narrow) at hn in cc
  | inr (c, e) ↦ elim (Bool-cases (differs r.value_class c)) [
    | inl d ↦ let h' : none ≡ some r' = rw (e, d, narrow) at hn in cc
    | inr d ↦
        let (k, compared, _) = compares-some (if inclusive then lte else lt) u v h in
        let hu : value_class_of u ≡ some c = class_of_compared c u v k e compared in
        let (low, high) = as_class r u c d hu w in
        let bound : IndexBound = record { value = v; inclusive = inclusive } in
        let is_r' : some (record r {
          value_class = some c;
          upper_end = some (tighter r.upper_end bound false);
        })
            ≡ some r' =
          rw (e, d, narrow) at hn in
        let same_range : ◌≡◌ {A = Range}
            (record r { value_class = some c; upper_end = some (tighter r.upper_end bound false) })
            r' =
          cc in
        subst (λ x. Within x u) same_range
          (hu, low, tighter-upper c u r.upper_end bound high (e, upper_bool inclusive u v h))
  ]
]

pub narrow_all-Within :
    (cs : List Constraint) (r r' : Range) (u : Value)
    → AllHold cs (found u)
    → narrow_all cs r ≡ some r'
    → Within r u
    → Within r' u
unfolding narrow_all
narrow_all-Within [] r r' u all h w = let e : r ≡ r' = cc in subst (λ x. Within x u) e w
narrow_all-Within (equals v ∷ cs) r r' u all h w = narrow_all-Within cs r r' u all.1 h w
narrow_all-Within (one_of vs ∷ cs) r r' u all h w = narrow_all-Within cs r r' u all.1 h w
narrow_all-Within (lower v inclusive ∷ cs) r r' u all h w =
    elim (Option-cases (narrow v inclusive true r)) [
      | inl e ↦ let h' : none ≡ some r' = rw (e, narrow_all) at h in cc
      | inr (s, e) ↦
          narrow_all-Within cs s r' u all.1 (rw (e, narrow_all) at h)
            (narrow_lower v inclusive r s u all.0 e w)
    ]
narrow_all-Within (upper v inclusive ∷ cs) r r' u all h w =
    elim (Option-cases (narrow v inclusive false r)) [
      | inl e ↦ let h' : none ≡ some r' = rw (e, narrow_all) at h in cc
      | inr (s, e) ↦
          narrow_all-Within cs s r' u all.1 (rw (e, narrow_all) at h)
            (narrow_upper v inclusive r s u all.0 e w)
    ]
