-- ===== src/Storage/Update/Named.antt =====
-- The operators that packages/storage/src/update.ts switches on do what their names mean.
use mathlib.Core.Path.{subst}
use sinterdb.Prelude.{
  ◌≡◌, refl, sym, ap, ◌∙◌, ◌⊎◌, inl, inr, Bool, true, false, Option, none, some, Str, units, str_eq,
  Result, ok, >>=-eq-ok, require-eq-ok, if◌then◌else◌,
}
use sinterdb.Prelude.Int.{◌+ℤ◌}
use sinterdb.Protocol.Number.{is_finite}
use sinterdb.Protocol.Document.{Value, Items, number, bigint, array, nil, cons}
use sinterdb.Protocol.Encoder.{encode_document_value}
use sinterdb.Storage.Errors.{Thrown, encoded, encoded-eq-ok}
use sinterdb.Storage.Compare.{Comparison, less, same, greater, is_greater, is_less}
use sinterdb.Storage.Ordering.{Says, compare_key-Says}
use sinterdb.Storage.Predicate.{canonical_equals}
use sinterdb.Storage.Filter.Meaning.{SameEncoding, SomeItem, Chosen}
use sinterdb.Storage.Filter.Decide.{Decided, Decided-or}
use sinterdb.Storage.Filter.Predicates.{canonical_equals-decided}
use sinterdb.Storage.Sort.{compare_document_values}
use sinterdb.Storage.Sort.Meaning.{key_of}
use sinterdb.Storage.Sort.Order.{compare_sort_values-key}
use sinterdb.Storage.Update.{
  UpdateOperator, update_operator_of, assign, unset, inc, minimum, maximum, push, pull, add_to_set,
  incremented, push_item, values_equal, some_equal, without_equal,
}
use sinterdb.Storage.Update.Double.{add_numbers}
use sinterdb.Storage.Update.Effect.{items_of, better, outcome}
use sinterdb.Storage.Update.Meaning.{
  Increased, SortsBefore, Lowered, Raised, Elements, with_last, Pushed, AddedToSet, Without, Pulled,
  Effect,
}

abbrev pub Does : Option UpdateOperator → Value → Option Value → Option Value → Type 0
Does none operand before after = ⊥
Does (some assign) operand before after = after ≡ some operand
Does (some unset) operand before after = after ≡ none
Does (some inc) operand before after = Increased operand before after
Does (some minimum) operand before after = Lowered operand before after
Does (some maximum) operand before after = Raised operand before after
Does (some push) operand before after = Pushed operand before after
Does (some pull) operand before after = Pulled operand before after
Does (some add_to_set) operand before after = AddedToSet operand before after

module _ (operand : Value) (before after : Option Value) where
  choose :
      (b : Bool) (o rest : Option UpdateOperator) {T : Type 0}
      → Does rest operand before after ≡ T
      → Does (if b then o else rest) operand before after ≡ Chosen b (Does o operand before after) T
  choose true o rest h = refl
  choose false o rest h = h

  pub Does-name :
      (name : Str)
      → Does (update_operator_of name) operand before after ≡ Effect name operand before after
  unfolding update_operator_of
  Does-name name =
      (choose (str_eq name (units "$set")) (some assign) _ (
        choose (str_eq name (units "$unset")) (some unset) _ (
          choose (str_eq name (units "$inc")) (some inc) _ (
            choose (str_eq name (units "$min")) (some minimum) _ (
              choose (str_eq name (units "$max")) (some maximum) _ (
                choose (str_eq name (units "$push")) (some push) _ (
                  choose (str_eq name (units "$pull")) (some pull) _
                    (choose (str_eq name (units "$addToSet")) (some add_to_set) _ refl))))))))

values_equal-decided :
    (u v : Value) (b : Bool) → values_equal u v ≡ ok b → Decided b (SameEncoding u v)
unfolding values_equal canonical_equals
values_equal-decided u v b h =
    let (own, h1, h2) = >>=-eq-ok (encoded (encode_document_value u)) _ h in
    let (bytes, h3, h4) = >>=-eq-ok (encoded (encode_document_value v)) _ h2 in
    let e : str_eq own bytes ≡ b = cc in
    canonical_equals-decided u v bytes b (encoded-eq-ok (encode_document_value v) h3)
      (rw (encoded-eq-ok (encode_document_value u) h1) (ap ok e))

some_equal-decided :
    (vs : Items) (operand : Value) (b : Bool)
    → some_equal vs operand ≡ ok b
    → Decided b (SomeItem (λ u. SameEncoding u operand) vs)
unfolding some_equal
some_equal-decided nil operand true h = cc
some_equal-decided nil operand false h = λ s. s
some_equal-decided (cons v vs) operand b h =
    let (c, h1, h2) = >>=-eq-ok (values_equal v operand) _ h in
    after c b (values_equal-decided v operand c h1) h2 (some_equal-decided vs operand b)
  where
    after :
        (c b : Bool)
        → Decided c (SameEncoding v operand)
        → ◌≡◌ {A = Result Thrown Bool} (if c then ok true else some_equal vs operand) (ok b)
        → (some_equal vs operand ≡ ok b → Decided b (SomeItem (λ u. SameEncoding u operand) vs))
        → Decided b (SameEncoding v operand ⊎ SomeItem (λ u. SameEncoding u operand) vs)
    after true true s k rest = inl s
    after true false s k rest = cc
    after false b n k rest =
        Decided-or (SameEncoding v operand) (SomeItem (λ u. SameEncoding u operand) vs) b n (rest k)

without_equal-Without :
    (vs : Items) (operand : Value) (left : Items)
    → without_equal vs operand ≡ ok left
    → Without operand vs left
unfolding without_equal
without_equal-Without nil operand left h = cc
without_equal-Without (cons v vs) operand left h =
    let (c, h1, h2) = >>=-eq-ok (values_equal v operand) _ h in
    let (rest, h3, h4) = >>=-eq-ok (without_equal vs operand) _ h2 in
    after c (values_equal-decided v operand c h1) rest (without_equal-Without vs operand rest h3) h4
  where
    after :
        (c : Bool)
        → Decided c (SameEncoding v operand)
        → (rest : Items) → Without operand vs rest
        → ◌≡◌ {A = Result Thrown Items} (ok (if c then rest else cons v rest)) (ok left)
        → Without operand (cons v vs) left
    after true s rest w k = let e : rest ≡ left = cc in inl (s, subst (Without operand vs) e w)
    after false n rest w k = inr (n, (rest, w, cc))

push_item-with_last : (vs : Items) (v : Value) → push_item v vs ≡ with_last vs v
unfolding push_item
push_item-with_last nil v = refl
push_item-with_last (cons u us) v = ap (cons u) (push_item-with_last us v)

items_of-Elements : (o : Option Value) (vs : Items) → items_of o ≡ ok vs → Elements o vs
items_of-Elements none vs h = cc
items_of-Elements (some (array us)) vs h = cc
items_of-Elements (some _) vs h = cc

Says-values :
    (u v : Value)
    → Says
        (compare_document_values u v)
        (SortsBefore u v)
        (key_of (some u) ≡ key_of (some v))
        (SortsBefore v u)
unfolding compare_document_values
Says-values u v =
    rw (compare_sort_values-key (some u) (some v))
      (compare_key-Says (key_of (some u)) (key_of (some v)))

better-Lowered :
    (operand : Value) (before : Option Value)
    → Lowered operand before (some (better true operand before))
better-Lowered operand none = refl
better-Lowered operand (some v) =
    by_order (compare_document_values operand v) (Says-values operand v)
  where
    by_order :
        (c : Comparison)
        → Says c
            (SortsBefore operand v)
            (key_of (some operand) ≡ key_of (some v))
            (SortsBefore v operand)
        → Lowered operand (some v) (some (if is_less c then operand else v))
    by_order less (l, e, g) = inl (l, refl)
    by_order same (l, e, g) = inr (l, refl)
    by_order greater (l, e, g) = inr (l, refl)

better-Raised :
    (operand : Value) (before : Option Value)
    → Raised operand before (some (better false operand before))
better-Raised operand none = refl
better-Raised operand (some v) =
    by_order (compare_document_values operand v) (Says-values operand v)
  where
    by_order :
        (c : Comparison)
        → Says c
            (SortsBefore operand v)
            (key_of (some operand) ≡ key_of (some v))
            (SortsBefore v operand)
        → Raised operand (some v) (some (if is_greater c then operand else v))
    by_order less (l, e, g) = inr (g, refl)
    by_order same (l, e, g) = inr (g, refl)
    by_order greater (l, e, g) = inl (g, refl)

incremented-Increased :
    (v operand w : Value) → incremented v operand ≡ ok w → Increased operand (some v) (some w)
unfolding incremented
incremented-Increased (number n) (number m) w h =
    let (finite_sum, h1) = require-eq-ok (is_finite (add_numbers n m)) _ _ h in
    let e : number (add_numbers n m) ≡ w = cc in (finite_sum, ap some (sym e))
incremented-Increased (bigint n) (bigint m) w h =
    let e : bigint (n +ℤ m) ≡ w = cc in ap some (sym e)
incremented-Increased _ _ w h = cc

added_to_set :
    (operand : Value) (vs : Items) (present : Bool) (after : Option Value)
    → Decided present (SomeItem (λ u. SameEncoding u operand) vs)
    → ◌≡◌ {A = Result Thrown (Option Value)}
        (ok (some (array (if present then vs else push_item operand vs))))
        (ok after)
    → (SomeItem (λ u. SameEncoding u operand) vs × (after ≡ some (array vs)))
      ⊎ ((¬ SomeItem (λ u. SameEncoding u operand) vs)
          × (after ≡ some (array (with_last vs operand))))
added_to_set operand vs true after s h = inl (s, cc)
added_to_set operand vs false after n h =
    let e : some (array (push_item operand vs)) ≡ after = cc in
    inr (n, sym e ∙ ap (λ us. some (array us)) (push_item-with_last vs operand))

pub outcome-Does :
    (operator : UpdateOperator) (operand : Value) (before after : Option Value)
    → outcome operator operand before ≡ ok after
    → Does (some operator) operand before after
outcome-Does assign operand before after h = cc
outcome-Does unset operand before after h = cc
outcome-Does inc operand none after h = cc
outcome-Does inc operand (some v) after h =
    let (w, h1, h2) = >>=-eq-ok (incremented v operand) (λ w. ok (some w)) h in
    let e : some w ≡ after = cc in
    subst (Increased operand (some v)) e (incremented-Increased v operand w h1)
outcome-Does minimum operand before after h =
    let e : some (better true operand before) ≡ after = cc in
    subst (Lowered operand before) e (better-Lowered operand before)
outcome-Does maximum operand before after h =
    let e : some (better false operand before) ≡ after = cc in
    subst (Raised operand before) e (better-Raised operand before)
outcome-Does push operand before after h =
    let (vs, h1, h2) = >>=-eq-ok (items_of before) _ h in
    let e : some (array (push_item operand vs)) ≡ after = cc in
    (
      vs,
      items_of-Elements before vs h1,
      sym e ∙ ap (λ us. some (array us)) (push_item-with_last vs operand),
    )
outcome-Does add_to_set operand before after h =
    let (vs, h1, h2) = >>=-eq-ok (items_of before) _ h in
    let (present, h3, h4) = >>=-eq-ok (some_equal vs operand) _ h2 in
    (
      vs,
      items_of-Elements before vs h1,
      added_to_set operand vs present after (some_equal-decided vs operand present h3) h4,
    )
outcome-Does pull operand none after h = cc
outcome-Does pull operand (some v) after h =
    let (vs, h1, h2) = >>=-eq-ok (items_of (some v)) _ h in
    let (left, h3, h4) = >>=-eq-ok (without_equal vs operand) _ h2 in
    (vs, items_of-Elements (some v) vs h1, (left, without_equal-Without vs operand left h3, cc))
