-- ===== src/Protocol/Document.antt =====
-- packages/protocol/src/document.ts: the values that documents hold. A number is the bit pattern of
-- its double, a bigint any integer, a date its time value, and the fields of a document stand in the
-- order of their creation.
use sinterdb.Prelude.{ℕ, suc, Bool, Option, none, some, Bytes, Str, str_eq, if◌then◌else◌}
use sinterdb.Prelude.Int.{ℤ}

mutual
  pub data Value : Type 0 where
    null : Value
    bool : Bool → Value
    number : ℕ → Value
    bigint : ℤ → Value
    str : Str → Value
    date : ℤ → Value
    invalid_date : Value
    binary : Bytes → Value
    id : Bytes → Value
    array : Items → Value
    document : Fields → Value

  pub data Items : Type 0 where
    nil : Items
    cons : Value → Items → Items

  pub data Fields : Type 0 where
    end : Fields
    field : Str → Value → Fields → Fields

-- `array.length`, and the number of own keys of a document.
unfoldable pub items_length : Items → ℕ
items_length nil = 0
items_length (cons v vs) = suc (items_length vs)

unfoldable pub fields_length : Fields → ℕ
fields_length end = 0
fields_length (field k v fs) = suc (fields_length fs)

-- `Object.hasOwn(document, key)` and `document[key]`.
unfoldable pub get : Str → Fields → Option Value
get key end = none
get key (field k v fs) = if str_eq k key then some v else get key fs

unfoldable pub has_own : Str → Fields → Bool
has_own key end = Bool.false
has_own key (field k v fs) = if str_eq k key then Bool.true else has_own key fs

abbrev pub max_document_depth : ℕ
max_document_depth = 100

abbrev pub custom_id_byte_length : ℕ
custom_id_byte_length = 16
