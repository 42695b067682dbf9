-- ===== src/Storage/Sort/Meaning.antt =====
-- What a sort specification of packages/storage/src/sort.ts means, apart from the comparisons of the
-- code: keys for values, and an order on documents.
use sinterdb.Prelude.{◌≡◌, ◌⊎◌, Bool, true, false, Option, none, some, List, [], ◌∷◌, map, Str, All}
use sinterdb.Prelude.Int.{ℤ, pos}
use sinterdb.Protocol.Document.{
  Value, Fields, null, bool, number, bigint, str, date, invalid_date, binary, id, array, document,
  get,
}
use sinterdb.Storage.Compare.{Numeric, nan, minus_infinity, finite, infinity, numeric, scale}
use sinterdb.Storage.Ordering.{KeyBefore}
use sinterdb.Storage.IndexSpec.{split}
use sinterdb.Storage.Sort.{to_number}

abbrev pub numeric_key : Numeric → List ℤ
numeric_key nan = pos 0 ∷ []
numeric_key minus_infinity = pos 1 ∷ []
numeric_key (finite z) = pos 2 ∷ z ∷ []
numeric_key infinity = pos 3 ∷ []

-- By the rank of the value's kind, and then by the value; numbers and bigints are of one kind, in
-- which NaN is first.
unfoldable pub key_of : Option Value → List ℤ
key_of none = pos 0 ∷ []
key_of (some null) = pos 1 ∷ []
key_of (some (number b)) = pos 2 ∷ numeric_key (numeric b)
key_of (some (bigint z)) = pos 2 ∷ numeric_key (finite (scale z))
key_of (some (str s)) = pos 3 ∷ map pos s
key_of (some (binary bytes)) = pos 4 ∷ map pos bytes
key_of (some (id bytes)) = pos 5 ∷ map pos bytes
key_of (some (bool b)) = pos 6 ∷ numeric_key (to_number b)
key_of (some (date z)) = pos 7 ∷ numeric_key (finite z)
key_of (some invalid_date) = pos 7 ∷ numeric_key nan
key_of (some (array vs)) = pos 8 ∷ []
key_of (some (document fs)) = pos 9 ∷ []

-- What the walk finds, if it finds something.
unfoldable pub resolved_rest : Value → List Str → Option Value
resolved_rest v [] = some v
resolved_rest (document fs) (segment ∷ segments) = elim (get segment fs) [
  | none ↦ none
  | some v ↦ resolved_rest v segments
]
resolved_rest _ (segment ∷ segments) = none

unfoldable pub resolved : List Str → Fields → Option Value
resolved [] fs = none
resolved (segment ∷ segments) fs = elim (get segment fs) [
  | none ↦ none
  | some v ↦ resolved_rest v segments
]

abbrev pub key_at : Str → Fields → List ℤ
key_at path doc = key_of (resolved (split path) doc)

-- The order of one path: descending if the flag is true.
abbrev pub Directed : Bool → List ℤ → List ℤ → Type 0
Directed false x y = KeyBefore x y
Directed true x y = KeyBefore y x

-- The first path at which two documents differ decides which is before the other.
abbrev pub Before : List (Str × Bool) → Fields → Fields → Type 0
Before [] a b = ⊥
Before ((path, descending) ∷ spec) a b =
    Directed descending (key_at path a) (key_at path b)
    ⊎ ((key_at path a ≡ key_at path b) × Before spec a b)

-- No document stands behind one that it is before.
abbrev pub InOrder : List (Str × Bool) → List Fields → Type 0
InOrder spec [] = Unit
InOrder spec (a ∷ docs) = All (λ b. ¬ Before spec b a) docs × InOrder spec docs
