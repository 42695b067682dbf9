-- ===== src/Storage/Filter/Meaning.antt =====
-- What the filters of packages/storage/src/filter.ts mean, without compiling: a relation between a
-- filter and a document, in terms of the operators' names, of encodings and of the orders of the
-- comparable kinds of values.
use sinterdb.Prelude.{◌≡◌, ◌⊎◌, Bool, true, false, Bytes, Str, units, str_eq, ok, starts_with}
use sinterdb.Protocol.Number.{is_finite}
use sinterdb.Protocol.Document.{
  Value, Items, Fields, bool, number, bigint, str, date, binary, id, array, document, nil, cons,
  end, field,
}
use sinterdb.Protocol.Encoder.{encode_document_value}
use sinterdb.Storage.Compare.{scaled}
use sinterdb.Storage.Ordering.{LexBefore, Under}
use sinterdb.Storage.IndexSpec.{split}
use sinterdb.Storage.Predicate.{ResolvedField, found, missing, dollar, resolve_field}

abbrev pub SameEncoding : Value → Value → Type 0
SameEncoding u v =
    (bytes : Bytes) × (encode_document_value u ≡ ok bytes) × (encode_document_value v ≡ ok bytes)

abbrev pub SomeItem : (Value → Type 0) → Items → Type 0
SomeItem P nil = ⊥
SomeItem P (cons v vs) = P v ⊎ SomeItem P vs

abbrev pub IsEqual : Value → ResolvedField → Type 0
IsEqual v missing = ⊥
IsEqual v (found u) = SameEncoding u v

abbrev pub HasElement : Items → Value → Type 0
HasElement vs (array us) = SomeItem (λ u. SomeItem (SameEncoding u) vs) us
HasElement vs _ = ⊥

-- The value or one of its elements is among the items.
abbrev pub IsMember : Items → ResolvedField → Type 0
IsMember vs missing = ⊥
IsMember vs (found u) = SomeItem (SameEncoding u) vs ⊎ HasElement vs u

abbrev pub IsFound : Bool → ResolvedField → Type 0
IsFound true (found u) = Unit
IsFound true missing = ⊥
IsFound false (found u) = ⊥
IsFound false missing = Unit

-- Values of one comparable kind in their order; of numbers only finite ones are comparable.
abbrev pub Precedes : Value → Value → Type 0
Precedes (str a) (str b) = LexBefore a b
Precedes (number a) (number b) =
    (is_finite a ≡ true) × (is_finite b ≡ true) × Under (scaled a) (scaled b)
Precedes (bigint a) (bigint b) = Under a b
Precedes (date a) (date b) = Under a b
Precedes (binary a) (binary b) = LexBefore a b
Precedes (id a) (id b) = LexBefore a b
Precedes _ _ = ⊥

abbrev pub Level : Value → Value → Type 0
Level (str a) (str b) = a ≡ b
Level (number a) (number b) = (is_finite a ≡ true) × (is_finite b ≡ true) × (scaled a ≡ scaled b)
Level (bigint a) (bigint b) = a ≡ b
Level (date a) (date b) = a ≡ b
Level (binary a) (binary b) = a ≡ b
Level (id a) (id b) = a ≡ b
Level _ _ = ⊥

abbrev pub Compared : (Value → Value → Type 0) → Value → ResolvedField → Type 0
Compared P v missing = ⊥
Compared P v (found u) = P u v

abbrev pub Among : Value → ResolvedField → Type 0
Among (array vs) r = IsMember vs r
Among _ r = ⊥

abbrev pub NotAmong : Value → ResolvedField → Type 0
NotAmong (array vs) r = ¬ IsMember vs r
NotAmong _ r = ⊥

abbrev pub Exists : Value → ResolvedField → Type 0
Exists (bool b) r = IsFound b r
Exists _ r = ⊥

abbrev pub Chosen : Bool → Type 0 → Type 0 → Type 0
Chosen true S T = S
Chosen false S T = T

-- The last argument is what `$not` means.
abbrev pub NameHolds : Str → Value → ResolvedField → Type 0 → Type 0
NameHolds name v r N = Chosen (str_eq name (units "$eq")) (IsEqual v r) (
    Chosen (str_eq name (units "$ne")) (¬ IsEqual v r) (
      Chosen (str_eq name (units "$gt")) (Compared (λ u w. Precedes w u) v r) (
        Chosen (str_eq name (units "$gte")) (Compared (λ u w. Precedes w u ⊎ Level u w) v r) (
          Chosen (str_eq name (units "$lt")) (Compared (λ u w. Precedes u w) v r) (
            Chosen (str_eq name (units "$lte")) (Compared (λ u w. Precedes u w ⊎ Level u w) v r) (
              Chosen (str_eq name (units "$in")) (Among v r) (
                Chosen (str_eq name (units "$nin")) (NotAmong v r) (
                  Chosen (str_eq name (units "$exists")) (Exists v r)
                    (Chosen (str_eq name (units "$not")) N ⊥)))))))))

unfoldable mutual
  pub OperatorsHold : Fields → ResolvedField → Type 0
  OperatorsHold end r = Unit
  OperatorsHold (field name v rest) r = NameHolds name v r (NotHolds v r) × OperatorsHold rest r

  pub NotHolds : Value → ResolvedField → Type 0
  NotHolds (document fs) r = ¬ OperatorsHold fs r
  NotHolds _ r = ⊥

abbrev pub OperatorDocument : Value → ResolvedField → Type 0
OperatorDocument (document fs) r = OperatorsHold fs r
OperatorDocument _ r = ⊥

-- A document that has a name with a dollar sign is a list of operators.
abbrev pub SomeDollar : Fields → Type 0
SomeDollar end = ⊥
SomeDollar (field name v fs) = (starts_with dollar name ≡ true) ⊎ SomeDollar fs

abbrev pub HasOperators : Value → Type 0
HasOperators (document fs) = SomeDollar fs
HasOperators _ = ⊥

abbrev pub FieldHolds : Value → ResolvedField → Type 0
FieldHolds v r = (HasOperators v × OperatorDocument v r) ⊎ ((¬ HasOperators v) × IsEqual v r)

unfoldable mutual
  pub Matches : Fields → Fields → Type 0
  Matches end doc = Unit
  Matches (field key value rest) doc =
      Chosen (starts_with dollar key) (LogicHolds key value doc)
        (FieldHolds value (resolve_field doc (split key)))
      × Matches rest doc

  pub LogicHolds : Str → Value → Fields → Type 0
  LogicHolds key (array vs) doc = Chosen (str_eq key (units "$and")) (AllMatch vs doc) (
      Chosen (str_eq key (units "$or")) (SomeMatches vs doc)
        (Chosen (str_eq key (units "$nor")) (¬ SomeMatches vs doc) ⊥))
  LogicHolds key _ doc = ⊥

  pub AllMatch : Items → Fields → Type 0
  AllMatch nil doc = Unit
  AllMatch (cons v vs) doc = DocumentMatches v doc × AllMatch vs doc

  pub SomeMatches : Items → Fields → Type 0
  SomeMatches nil doc = ⊥
  SomeMatches (cons v vs) doc = DocumentMatches v doc ⊎ SomeMatches vs doc

  pub DocumentMatches : Value → Fields → Type 0
  DocumentMatches (document fs) doc = Matches fs doc
  DocumentMatches _ doc = ⊥
