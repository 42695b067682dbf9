-- ===== src/Storage/Update/Meaning.antt =====
-- What the operators of packages/storage/src/update.ts mean for a field, by their names, apart from the
-- code that applies them.
use sinterdb.Prelude.{◌≡◌, ◌⊎◌, true, Option, none, some, Str, units, str_eq}
use sinterdb.Prelude.Int.{◌+ℤ◌}
use sinterdb.Protocol.Number.{is_finite}
use sinterdb.Protocol.Document.{Value, Items, number, bigint, array, nil, cons}
use sinterdb.Storage.Ordering.{KeyBefore}
use sinterdb.Storage.Filter.Meaning.{SameEncoding, SomeItem, Chosen}
use sinterdb.Storage.Sort.Meaning.{key_of}
use sinterdb.Storage.Update.Double.{add_numbers}

-- A field's value, `none` for a missing field, before and after.
abbrev pub Increased : Value → Option Value → Option Value → Type 0
Increased operand none after = after ≡ some operand
Increased (number m) (some (number n)) after =
    (is_finite (add_numbers n m) ≡ true) × (after ≡ some (number (add_numbers n m)))
Increased (bigint m) (some (bigint n)) after = after ≡ some (bigint (n +ℤ m))
Increased _ _ after = ⊥

abbrev pub SortsBefore : Value → Value → Type 0
SortsBefore u v = KeyBefore (key_of (some u)) (key_of (some v))

abbrev pub Lowered : Value → Option Value → Option Value → Type 0
Lowered operand none after = after ≡ some operand
Lowered operand (some v) after =
    (SortsBefore operand v × (after ≡ some operand))
    ⊎ ((¬ SortsBefore operand v) × (after ≡ some v))

abbrev pub Raised : Value → Option Value → Option Value → Type 0
Raised operand none after = after ≡ some operand
Raised operand (some v) after =
    (SortsBefore v operand × (after ≡ some operand))
    ⊎ ((¬ SortsBefore v operand) × (after ≡ some v))

-- The elements of an array, and none of a missing field.
abbrev pub Elements : Option Value → Items → Type 0
Elements none vs = vs ≡ nil
Elements (some (array us)) vs = us ≡ vs
Elements (some _) vs = ⊥

abbrev pub with_last : Items → Value → Items
with_last nil v = cons v nil
with_last (cons u us) v = cons u (with_last us v)

abbrev pub Pushed : Value → Option Value → Option Value → Type 0
Pushed operand before after =
    (vs : Items) × Elements before vs × (after ≡ some (array (with_last vs operand)))

abbrev pub AddedToSet : Value → Option Value → Option Value → Type 0
AddedToSet operand before after =
    (vs : Items) × Elements before vs
    × ((SomeItem (λ u. SameEncoding u operand) vs × (after ≡ some (array vs)))
        ⊎ ((¬ SomeItem (λ u. SameEncoding u operand) vs)
            × (after ≡ some (array (with_last vs operand)))))

-- What is left of the items without those that are equal to the operand.
abbrev pub Without : Value → Items → Items → Type 0
Without operand nil left = left ≡ nil
Without operand (cons v vs) left =
    (SameEncoding v operand × Without operand vs left)
    ⊎ ((¬ SameEncoding v operand)
        × ((rest : Items) × Without operand vs rest × (left ≡ cons v rest)))

abbrev pub Pulled : Value → Option Value → Option Value → Type 0
Pulled operand none after = after ≡ none
Pulled operand (some v) after =
    (vs : Items) × Elements (some v) vs
    × ((left : Items) × Without operand vs left × (after ≡ some (array left)))

abbrev pub Effect : Str → Value → Option Value → Option Value → Type 0
Effect name operand before after = Chosen (str_eq name (units "$set")) (after ≡ some operand) (
    Chosen (str_eq name (units "$unset")) (after ≡ none) (
      Chosen (str_eq name (units "$inc")) (Increased operand before after) (
        Chosen (str_eq name (units "$min")) (Lowered operand before after) (
          Chosen (str_eq name (units "$max")) (Raised operand before after) (
            Chosen (str_eq name (units "$push")) (Pushed operand before after) (
              Chosen (str_eq name (units "$pull")) (Pulled operand before after)
                (Chosen (str_eq name (units "$addToSet")) (AddedToSet operand before after) ⊥)))))))
