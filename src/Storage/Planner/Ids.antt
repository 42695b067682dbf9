-- ===== src/Storage/Planner/Ids.antt =====
-- Constraints on the _id field in packages/storage/src/indexing/planner.ts.
use mathlib.Core.Path.{subst}
use sinterdb.Prelude.{
  ℕ, ◌^◌, ◌≡◌, refl, sym, ap, ◌∙◌, inl, inr, Bool, true, false, not, ◌&&◌, Option, none, some, List,
  [], ◌∷◌, ◌++◌, Bytes, Str, str_eq_refl, contains, Bool-cases, Option-cases, ltb, ◌==◌, length,
}
use sinterdb.Prelude.Int.{ℤ}
use sinterdb.Protocol.CustomId.{to_hex_string}
use sinterdb.Protocol.BigEndian.{be_bytes}
use sinterdb.Protocol.Number.{is_nan, integer_value, is_safe, negative_zero}
use sinterdb.Protocol.Document.{Value, Items, null, bool, number, id, nil, cons}
use sinterdb.Protocol.Encoder.{fits}
use sinterdb.Protocol.Canonical.{canonical, plain, number_bytes, integer_bytes}
use sinterdb.Protocol.Canonical.Accepts.{encode_iff}
use sinterdb.Storage.Predicate.{found}
use sinterdb.Storage.IndexValue.{set_add}
use sinterdb.Storage.FieldIndex.Range.{contains-set_add, contains-set_add_self}
use sinterdb.Storage.Planner.{
  Constraint, equals, one_of, lower, upper, id_keys, constraint_keys, fewer, best_keys,
}
use sinterdb.Storage.Planner.Constraints.{MemberOf, Holds, AllHold}
use sinterdb.Storage.Filter.Meaning.{SameEncoding}

-- The tag of a value.
first : Bytes → ℕ
first [] = 0
first (b ∷ bs) = b

integer_tag : (b : ℕ) (z : ℤ) → (first (integer_bytes b z) == 0x0c) ≡ false
unfolding integer_bytes first be_bytes
integer_tag b z = elim (Bool-cases (not (b == negative_zero) && fits (2 ^ 31) z)) [
  | inl e ↦ rw (e, integer_bytes) refl
  | inr e ↦ elim (Bool-cases (is_safe z && not (b == negative_zero))) [
    | inl f ↦ rw (e, f, integer_bytes) refl
    | inr f ↦ rw (e, f, integer_bytes) refl
  ]
]

number_tag : (b : ℕ) → (first (number_bytes b) == 0x0c) ≡ false
unfolding number_bytes first be_bytes
number_tag b = elim (Bool-cases (is_nan b)) [
  | inl e ↦ rw (e, number_bytes) refl
  | inr e ↦ elim (Option-cases (integer_value b)) [
    | inl f ↦ rw (e, f, number_bytes) refl
    | inr (z, f) ↦ rw (e, f, number_bytes) (integer_tag b z)
  ]
]

-- Other tags than that of an id.
not_id {ℓ} :
    {A : Type ℓ} (encoding bytes : Bytes)
    → (first encoding == 0x0c) ≡ false
    → encoding ≡ be_bytes 1 0x0c ++ bytes
    → A
unfolding first be_bytes
not_id encoding bytes t h =
    let t' : ◌≡◌ {A = Bool} true false = ap (λ l. first l == 0x0c) (sym h) ∙ t in cc

-- A value with the encoding of an id is the id.
id_of_plain :
    (v : Value) (bytes : Bytes) → plain (canonical v) ≡ be_bytes 1 0x0c ++ bytes → v ≡ id bytes
unfolding plain canonical be_bytes first
id_of_plain (id other) bytes h = cc
id_of_plain (number b) bytes h = not_id (number_bytes b) bytes (number_tag b) h
id_of_plain (bool true) bytes h = not_id _ bytes refl h
id_of_plain (bool false) bytes h = not_id _ bytes refl h
id_of_plain v bytes h = not_id _ bytes refl h

pub id_of_key : (v : Value) (bytes : Bytes) → SameEncoding (id bytes) v → v ≡ id bytes
unfolding plain canonical
id_of_key v bytes (key, hu, hv) =
    id_of_plain v bytes (sym ((encode_iff v key).0 hv).2 ∙ ((encode_iff (id bytes) key).0 hu).2)

id_keys-keeps :
    (vs : Items) (keys : List Str) (k : Str)
    → contains keys k ≡ true
    → contains (id_keys vs keys) k ≡ true
unfolding id_keys
id_keys-keeps nil keys k h = h
id_keys-keeps (cons (id bytes) vs) keys k h =
    id_keys-keeps vs (set_add (to_hex_string bytes) keys) k
      (contains-set_add (to_hex_string bytes) k keys h)
id_keys-keeps (cons null vs) keys k h = id_keys-keeps vs keys k h
id_keys-keeps (cons _ vs) keys k h = id_keys-keeps vs keys k h

id_keys-contains :
    (vs : Items) (keys : List Str) (bytes : Bytes)
    → MemberOf (id bytes) vs
    → contains (id_keys vs keys) (to_hex_string bytes) ≡ true
unfolding id_keys
id_keys-contains nil keys bytes h = elim h [ ]
id_keys-contains (cons v vs) keys bytes (inl same_key) =
    subst (λ u. contains (id_keys (cons u vs) keys) (to_hex_string bytes) ≡ true)
      (sym (id_of_key v bytes same_key))
      (id_keys-keeps vs (set_add (to_hex_string bytes) keys) (to_hex_string bytes)
        (contains-set_add_self (to_hex_string bytes) keys))
id_keys-contains (cons (id other) vs) keys bytes (inr later) =
    id_keys-contains vs (set_add (to_hex_string other) keys) bytes later
id_keys-contains (cons null vs) keys bytes (inr later) = id_keys-contains vs keys bytes later
id_keys-contains (cons _ vs) keys bytes (inr later) = id_keys-contains vs keys bytes later

abbrev GoodKeys : Option (List Str) → Bytes → Type 0
GoodKeys none bytes = Unit
GoodKeys (some keys) bytes = contains keys (to_hex_string bytes) ≡ true

constraint_keys-GoodKeys :
    (c : Constraint) (bytes : Bytes)
    → Holds c (found (id bytes))
    → GoodKeys (constraint_keys c) bytes
unfolding constraint_keys contains
constraint_keys-GoodKeys (equals v) bytes h =
    subst (λ u. GoodKeys (constraint_keys (equals u)) bytes) (sym (id_of_key v bytes h))
      (rw (str_eq_refl (to_hex_string bytes)) refl)
constraint_keys-GoodKeys (one_of vs) bytes (inl h) = cc
constraint_keys-GoodKeys (one_of vs) bytes (inr h) = id_keys-contains vs [] bytes h
constraint_keys-GoodKeys (lower v inclusive) bytes h = tt
constraint_keys-GoodKeys (upper v inclusive) bytes h = tt

fewer-GoodKeys :
    (o best : Option (List Str)) (bytes : Bytes)
    → GoodKeys o bytes
    → GoodKeys best bytes
    → GoodKeys (fewer o best) bytes
fewer-GoodKeys none best bytes h k = k
fewer-GoodKeys (some keys) none bytes h k = h
fewer-GoodKeys (some keys) (some best) bytes h k =
    elim (Bool-cases (ltb (length keys) (length best))) [ inl e ↦ rw e h | inr e ↦ rw e k ]

-- Whichever constraint gives the keys, the document's own is among them.
pub best_keys-GoodKeys :
    (cs : List Constraint) (best : Option (List Str)) (bytes : Bytes)
    → AllHold cs (found (id bytes))
    → GoodKeys best bytes
    → GoodKeys (best_keys cs best) bytes
unfolding best_keys
best_keys-GoodKeys [] best bytes all h = h
best_keys-GoodKeys (c ∷ cs) best bytes all h =
    best_keys-GoodKeys cs (fewer (constraint_keys c) best) bytes all.1
      (fewer-GoodKeys (constraint_keys c) best bytes (constraint_keys-GoodKeys c bytes all.0) h)
