-- ===== src/Storage/Update/Effect.antt =====
-- What the operators of packages/storage/src/update.ts make of a field's value, and of nothing else.
use mathlib.Core.Path.{subst}
use sinterdb.Prelude.{
  ◌≡◌, refl, sym, ap, ◌∙◌, Bool, true, false, Option, none, some, Option-cases, Bool-cases, inl,
  inr, Str, str_eq, Result, ok, err, ◌>>=◌, >>=-eq-ok, if◌then◌else◌,
}
use sinterdb.Protocol.Document.{Value, Items, Fields, array, nil, cons, get}
use sinterdb.Storage.Compare.{is_greater, is_less}
use sinterdb.Storage.Errors.{Thrown, storage, invalid_update}
use sinterdb.Storage.Sort.{compare_document_values}
use sinterdb.Storage.Update.{
  UpdateOperator, assign, unset, inc, minimum, maximum, push, pull, add_to_set, set_field,
  delete_field, incremented, apply_inc, apply_extremum, get_array, push_item, some_equal,
  without_equal, has_items, apply_push, apply_add_to_set, apply_pull, apply_operator,
}
use sinterdb.Storage.Update.Frame.{
  get-set_field, get-set_field_other, get-delete_field, get-delete_field_other,
}

-- The items of a field that is to be an array; a missing one has none.
abbrev pub items_of : Option Value → Result Thrown Items
items_of none = ok nil
items_of (some (array vs)) = ok vs
items_of (some _) = err (storage invalid_update)

abbrev pub better : Bool → Value → Option Value → Value
better is_minimum operand none = operand
better true operand (some v) = if is_less (compare_document_values operand v) then operand else v
better false operand (some v) =
    if is_greater (compare_document_values operand v) then operand else v

-- A field's value after an operator, by its value before; `none` is a missing field.
abbrev pub outcome : UpdateOperator → Value → Option Value → Result Thrown (Option Value)
outcome assign operand before = ok (some operand)
outcome unset operand before = ok none
outcome inc operand none = ok (some operand)
outcome inc operand (some v) = incremented v operand >>= λ w. ok (some w)
outcome minimum operand before = ok (some (better true operand before))
outcome maximum operand before = ok (some (better false operand before))
outcome push operand before = items_of before >>= λ vs. ok (some (array (push_item operand vs)))
outcome add_to_set operand before = items_of before >>= λ vs. some_equal vs operand >>= λ present.
    ok (some (array (if present then vs else push_item operand vs)))
outcome pull operand none = ok none
outcome pull operand (some v) =
    items_of (some v) >>= λ vs. without_equal vs operand >>= λ left. ok (some (array left))

-- One field is what it is said to be, and the others are as before.
pub record Puts (key : Str) (fs fs' : Fields) (o : Option Value) : Type 0 where
  pub at_key : get key fs' ≡ o
  pub elsewhere : (q : Str) → str_eq key q ≡ false → get q fs' ≡ get q fs

Puts-set_field : (key : Str) (v : Value) (fs : Fields) → Puts key fs (set_field key v fs) (some v)
Puts-set_field key v fs = record {
  at_key = get-set_field key v fs;
  elsewhere = λ q h. get-set_field_other key q v fs h;
}

Puts-delete_field : (key : Str) (fs : Fields) → Puts key fs (delete_field key fs) none
Puts-delete_field key fs = record {
  at_key = get-delete_field key fs;
  elsewhere = λ q h. get-delete_field_other key q fs h;
}

Puts-self : (key : Str) (fs : Fields) {o : Option Value} → get key fs ≡ o → Puts key fs fs o
Puts-self key fs e = record { at_key = e; elsewhere = λ q h. refl }

module _ (operator : UpdateOperator) (operand : Value) (key : Str) (fs fs' : Fields) where
  abbrev pub Does : Option Value → Type 0
  Does before = (o : Option Value) × (outcome operator operand before ≡ ok o) × Puts key fs fs' o

get_array-items_of : (key : Str) (fs : Fields) → get_array key fs ≡ items_of (get key fs)
unfolding get_array
get_array-items_of key fs = by_value (get key fs) refl
  where
    by_value : (o : Option Value) → get key fs ≡ o → get_array key fs ≡ items_of o
    by_value none e = rw (e, get_array) refl
    by_value (some (array vs)) e = rw (e, get_array) refl
    by_value (some v) e = rw (e, get_array) refl

module _ (operand : Value) (key : Str) (fs fs' : Fields) where
  Does-set :
      (operator : UpdateOperator) (v : Value) (before : Option Value)
      → outcome operator operand before ≡ ok (some v)
      → ◌≡◌ {A = Result Thrown Fields} (ok (set_field key v fs)) (ok fs')
      → Does operator operand key fs fs' before
  Does-set operator v before e h =
      let is_set : set_field key v fs ≡ fs' = cc in
      (some v, e, subst (λ x. Puts key fs x (some v)) is_set (Puts-set_field key v fs))

  inc-Does : apply_inc key operand fs ≡ ok fs' → Does inc operand key fs fs' (get key fs)
  unfolding apply_inc
  inc-Does h = elim (Option-cases (get key fs)) [
    | inl e ↦ rw e (Does-set inc operand none refl (rw (e, apply_inc) at h))
    | inr (v, e) ↦
        let (w, h1, h2) =
          >>=-eq-ok (incremented v operand) (λ w. ok (set_field key w fs))
            (rw (e, apply_inc) at h) in
        rw e (Does-set inc w (some v) (rw h1 refl) h2)
  ]

  -- `$min` and `$max` set the better value, which may be the one that is there.
  extremum-Puts :
      (b : Bool)
      → ◌≡◌ {A = Result Thrown Fields} (ok (apply_extremum b key operand fs)) (ok fs')
      → Puts key fs fs' (some (better b operand (get key fs)))
  unfolding apply_extremum
  extremum-Puts b h =
      let is_result : apply_extremum b key operand fs ≡ fs' = cc in
      subst (λ x. Puts key fs x (some (better b operand (get key fs)))) is_result
        (elim (Option-cases (get key fs)) [
          | inl e ↦ rw (e, apply_extremum) (Puts-set_field key operand fs)
          | inr (v, e) ↦ rw (e, apply_extremum) (chosen b v e)
        ])
    where
      chosen :
          (b : Bool) (v : Value)
          → get key fs ≡ some v
          → Puts key fs
              (if (if b
                  then is_less (compare_document_values operand v)
                  else is_greater (compare_document_values operand v))
                then set_field key operand fs
                else fs)
              (some (better b operand (some v)))
      chosen true v e = elim (Bool-cases (is_less (compare_document_values operand v))) [
        | inl c ↦ rw c (Puts-set_field key operand fs)
        | inr c ↦ rw c (Puts-self key fs e)
      ]
      chosen false v e = elim (Bool-cases (is_greater (compare_document_values operand v))) [
        | inl c ↦ rw c (Puts-set_field key operand fs)
        | inr c ↦ rw c (Puts-self key fs e)
      ]

  push-Does : apply_push key operand fs ≡ ok fs' → Does push operand key fs fs' (get key fs)
  unfolding apply_push
  push-Does h =
      let (vs, h1, h2) =
        >>=-eq-ok (get_array key fs) (λ vs. ok (set_field key (array (push_item operand vs)) fs))
          h in
      Does-set push (array (push_item operand vs)) (get key fs)
        (rw (sym (get_array-items_of key fs) ∙ h1) refl) h2

  add_to_set-Does :
      apply_add_to_set key operand fs ≡ ok fs' → Does add_to_set operand key fs fs' (get key fs)
  unfolding apply_add_to_set
  add_to_set-Does h =
      let (vs, h1, h2) =
        >>=-eq-ok (get_array key fs)
          (λ vs. some_equal vs operand >>= λ present.
            ok (set_field key (array (if present then vs else push_item operand vs)) fs))
          h in
      let (present, h3, h4) =
        >>=-eq-ok (some_equal vs operand)
          (λ present. ok (set_field key (array (if present then vs else push_item operand vs)) fs))
          h2 in
      Does-set add_to_set (array (if present then vs else push_item operand vs)) (get key fs)
        (rw (sym (get_array-items_of key fs) ∙ h1) (rw h3 refl)) h4

  pull-Does : apply_pull key operand fs ≡ ok fs' → Does pull operand key fs fs' (get key fs)
  unfolding apply_pull without_equal
  pull-Does h =
      let (vs, h1, h2) =
        >>=-eq-ok (get_array key fs)
          (λ vs. without_equal vs operand >>= λ left.
            ok (if has_items vs then set_field key (array left) fs else fs))
          h in
      let (left, h3, h4) =
        >>=-eq-ok (without_equal vs operand)
          (λ left. ok (if has_items vs then set_field key (array left) fs else fs)) h2 in
      pulled (get key fs) refl vs left (sym (get_array-items_of key fs) ∙ h1) h3 h4
    where
      unchanged :
          get key fs ≡ some (array nil)
          → ◌≡◌ {A = Result Thrown Fields} (ok fs) (ok fs')
          → Does pull operand key fs fs' (some (array nil))
      unchanged e h4 =
          let same_fields : fs ≡ fs' = cc in
          (
            some (array nil),
            refl,
            subst (λ x. Puts key fs x (some (array nil))) same_fields (Puts-self key fs e),
          )

      pulled :
          (o : Option Value)
          → get key fs ≡ o
          → (vs left : Items) → items_of o ≡ ok vs
          → without_equal vs operand ≡ ok left
          → ◌≡◌ {A = Result Thrown Fields}
              (ok (if has_items vs then set_field key (array left) fs else fs))
              (ok fs')
          → Does pull operand key fs fs' o
      pulled none e nil left h1 h3 h4 =
          let same_fields : fs ≡ fs' = cc in
          (none, refl, subst (λ x. Puts key fs x none) same_fields (Puts-self key fs e))
      pulled none e (cons v vs) left h1 h3 h4 = cc
      pulled (some (array us)) e nil left h1 h3 h4 =
          let is_nil : us ≡ nil = cc in
          subst (λ x. Does pull operand key fs fs' (some (array x))) (sym is_nil)
            (unchanged (e ∙ ap (λ x. some (array x)) is_nil) h4)
      pulled (some u) e nil left h1 h3 h4 = cc
      pulled (some u) e (cons v vs) left h1 h3 h4 =
          Does-set pull (array left) (some u) (rw h1 (rw h3 refl)) h4

-- Each operator puts its outcome at the key.
pub apply_operator-Does :
    (operator : UpdateOperator) (operand : Value) (key : Str) (fs fs' : Fields)
    → apply_operator operator operand key fs ≡ ok fs'
    → Does operator operand key fs fs' (get key fs)
unfolding apply_operator
apply_operator-Does assign operand key fs fs' h =
    Does-set operand key fs fs' assign operand (get key fs) refl h
apply_operator-Does unset operand key fs fs' h =
    let is_result : delete_field key fs ≡ fs' = cc in
    (none, refl, subst (λ x. Puts key fs x none) is_result (Puts-delete_field key fs))
apply_operator-Does inc operand key fs fs' h = inc-Does operand key fs fs' h
apply_operator-Does minimum operand key fs fs' h =
    (some (better true operand (get key fs)), refl, extremum-Puts operand key fs fs' true h)
apply_operator-Does maximum operand key fs fs' h =
    (some (better false operand (get key fs)), refl, extremum-Puts operand key fs fs' false h)
apply_operator-Does push operand key fs fs' h = push-Does operand key fs fs' h
apply_operator-Does pull operand key fs fs' h = pull-Does operand key fs fs' h
apply_operator-Does add_to_set operand key fs fs' h = add_to_set-Does operand key fs fs' h
