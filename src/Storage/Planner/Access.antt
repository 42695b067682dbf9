-- ===== src/Storage/Planner/Access.antt =====
-- An access of packages/storage/src/indexing/planner.ts to an index that covers a document finds the
-- document, if the constraint that the access is made from holds of it.
use mathlib.Core.Path.{subst}
use sinterdb.Prelude.{
  ◌≡◌, sym, ap, ◌∙◌, ◌⊎◌, inl, inr, true, Option, none, some, List, [], ◌∷◌, Bytes, Str, str_eq,
  str_eq→≡, ok, >>=-eq-ok, contains, All, Bool-cases,
}
use sinterdb.Protocol.Errors.{Throws}
use sinterdb.Protocol.Document.{Value, Items, Fields, nil, cons}
use sinterdb.Protocol.Encoder.{encode_document_value}
use sinterdb.Protocol.Canonical.{LosslessFields}
use sinterdb.Storage.Predicate.{found, resolve_field}
use sinterdb.Storage.IndexValue.{canonical_key, IndexBound, ValueClass, value_class_of, map_get}
use sinterdb.Storage.FieldIndex.{
  FieldIndex, segments_of, lookup_equal, add_all, lookup_range, range_entries,
}
use sinterdb.Storage.FieldIndex.Entries.{Stands, All-Occurs}
use sinterdb.Storage.FieldIndex.Range.{
  WithinLower, WithinUpper, range-Occurs, contains-add_all, contains-add_all_self,
  collect_keys-contains,
}
use sinterdb.Storage.FieldIndex.Invariant.{
  IsConsistent, Covers, same_scalar, resolve_field-Lossless,
}
use sinterdb.Storage.Planner.{Distinct, distinct_set, distinct_values, values_of, equal_keys}
use sinterdb.Storage.Planner.Constraints.{MemberOf}

-- A value with an encoding is among the values.
abbrev pub KeyAmong : Bytes → List Value → Type 0
KeyAmong bytes [] = ⊥
KeyAmong bytes (v ∷ vs) = (encode_document_value v ≡ ok bytes) ⊎ KeyAmong bytes vs

same_ok : {a b : Bytes} {r : Throws Bytes} → r ≡ ok a → r ≡ ok b → a ≡ b
same_ok h k = cc

module _ (index : FieldIndex) (doc_key : Str) (bytes : Bytes) (docs : List Str)
    (listed : map_get bytes index.by_value ≡ some docs)
    (has_key : contains docs doc_key ≡ true) where
  step_result : Option (List Str) → List Str → List Str
  step_result o result = elim o [ none ↦ result | some keys ↦ add_all keys result ]

  step_result-keeps :
      (o : Option (List Str)) (result : List Str)
      → contains result doc_key ≡ true
      → contains (step_result o result) doc_key ≡ true
  unfolding step_result
  step_result-keeps none result h = h
  step_result-keeps (some keys) result h = contains-add_all keys doc_key result h

  equal_keys-keeps :
      (vs : List Value) (result keys : List Str)
      → equal_keys vs index result ≡ ok keys
      → contains result doc_key ≡ true
      → contains keys doc_key ≡ true
  unfolding equal_keys step_result
  equal_keys-keeps [] result keys h k =
      let e : result ≡ keys = cc in subst (λ l. contains l doc_key ≡ true) e k
  equal_keys-keeps (v ∷ vs) result keys h k =
      let (o, h1, h2) =
        >>=-eq-ok (lookup_equal v index) (λ o. equal_keys vs index (step_result o result)) h in
      equal_keys-keeps vs (step_result o result) keys h2 (step_result-keeps o result k)

  pub equal_keys-contains :
      (vs : List Value) (result keys : List Str)
      → equal_keys vs index result ≡ ok keys
      → KeyAmong bytes vs
      → contains keys doc_key ≡ true
  unfolding equal_keys step_result lookup_equal
  equal_keys-contains [] result keys h among = elim among [ ]
  equal_keys-contains (v ∷ vs) result keys h (inr later) =
      let (o, h1, h2) =
        >>=-eq-ok (lookup_equal v index) (λ o. equal_keys vs index (step_result o result)) h in
      equal_keys-contains vs (step_result o result) keys h2 later
  equal_keys-contains (v ∷ vs) result keys h (inl encodes) =
      let (o, h1, h2) =
        >>=-eq-ok (lookup_equal v index) (λ o. equal_keys vs index (step_result o result)) h in
      let (key, hk, he) = >>=-eq-ok (canonical_key v) (λ key. ok (map_get key index.by_value)) h1 in
      let is_o : o ≡ some docs =
        let e : map_get key index.by_value ≡ o = cc in
        sym e ∙ ap (λ b. map_get b index.by_value) (same_ok hk encodes) ∙ listed in
      equal_keys-keeps vs (step_result o result) keys h2 (
        subst (λ x. contains (step_result x result) doc_key ≡ true) (sym is_o)
          (contains-add_all_self docs doc_key result has_key))

-- The map of distinct values keeps a value under each key.
abbrev AreKeyed : Distinct → Type 0
AreKeyed m = All (λ (entry : Bytes × Value). encode_document_value entry.1 ≡ ok entry.0) m

set-AreKeyed :
    (key : Bytes) (v : Value) (m : Distinct)
    → encode_document_value v ≡ ok key
    → AreKeyed m
    → AreKeyed (distinct_set key v m)
unfolding distinct_set
set-AreKeyed key v [] h all = (h, tt)
set-AreKeyed key v ((k, u) ∷ m) h all = elim (Bool-cases (str_eq k key)) [
  | inl e ↦ rw e (h ∙ ap (λ b. ok b) (sym (str_eq→≡ k key e)), all.1)
  | inr e ↦ rw e (all.0, set-AreKeyed key v m h all.1)
]

set-KeyAmong_self :
    (key : Bytes) (v : Value) (m : Distinct)
    → encode_document_value v ≡ ok key
    → KeyAmong key (values_of (distinct_set key v m))
unfolding distinct_set values_of
set-KeyAmong_self key v [] h = inl h
set-KeyAmong_self key v ((k, u) ∷ m) h = elim (Bool-cases (str_eq k key)) [
  | inl e ↦ rw e (inl h)
  | inr e ↦ rw e (inr (set-KeyAmong_self key v m h))
]

set-KeyAmong :
    (bytes key : Bytes) (v : Value) (m : Distinct)
    → encode_document_value v ≡ ok key
    → AreKeyed m
    → KeyAmong bytes (values_of m)
    → KeyAmong bytes (values_of (distinct_set key v m))
unfolding distinct_set values_of
set-KeyAmong bytes key v [] h all among = elim among [ ]
set-KeyAmong bytes key v ((k, u) ∷ m) h all among = elim (Bool-cases (str_eq k key)) [
  | inl e ↦ rw e (elim among [
    | inl hu ↦ inl (h ∙ ap (λ b. ok b) (sym (str_eq→≡ k key e) ∙ same_ok all.0 hu))
    | inr later ↦ inr later
  ])
  | inr e ↦
      rw e (elim among [
        | inl hu ↦ inl hu
        | inr later ↦ inr (set-KeyAmong bytes key v m h all.1 later)
      ])
]

distinct_values-keeps :
    (bytes : Bytes) (vs : Items) (m m' : Distinct)
    → distinct_values vs m ≡ ok m'
    → AreKeyed m
    → KeyAmong bytes (values_of m)
    → KeyAmong bytes (values_of m')
unfolding distinct_values
distinct_values-keeps bytes nil m m' h all among =
    let e : m ≡ m' = cc in subst (λ x. KeyAmong bytes (values_of x)) e among
distinct_values-keeps bytes (cons v vs) m m' h all among =
    let (key, hk, h1) =
      >>=-eq-ok (canonical_key v) (λ key. distinct_values vs (distinct_set key v m)) h in
    distinct_values-keeps bytes vs (distinct_set key v m) m' h1 (set-AreKeyed key v m hk all)
      (set-KeyAmong bytes key v m hk all among)

pub distinct_values-KeyAmong :
    (u : Value) (bytes : Bytes) (vs : Items) (m m' : Distinct)
    → encode_document_value u ≡ ok bytes
    → distinct_values vs m ≡ ok m'
    → AreKeyed m
    → MemberOf u vs
    → KeyAmong bytes (values_of m')
unfolding distinct_values
distinct_values-KeyAmong u bytes nil m m' hu h all in_vs = elim in_vs [ ]
distinct_values-KeyAmong u bytes (cons v vs) m m' hu h all (inr later) =
    let (key, hk, h1) =
      >>=-eq-ok (canonical_key v) (λ key. distinct_values vs (distinct_set key v m)) h in
    distinct_values-KeyAmong u bytes vs (distinct_set key v m) m' hu h1
      (set-AreKeyed key v m hk all) later
distinct_values-KeyAmong u bytes (cons v vs) m m' hu h all (inl (b, hub, hvb)) =
    let (key, hk, h1) =
      >>=-eq-ok (canonical_key v) (λ key. distinct_values vs (distinct_set key v m)) h in
    let is_key : key ≡ bytes = same_ok hk hvb ∙ same_ok hub hu in
    distinct_values-keeps bytes vs (distinct_set key v m) m' h1 (set-AreKeyed key v m hk all) (
      subst (λ x. KeyAmong x (values_of (distinct_set key v m))) is_key
        (set-KeyAmong_self key v m hk))

-- A range of an index holds the documents whose value lies in it.
pub lookup_range-contains :
    (index : FieldIndex) (doc_key : Str) (doc : Fields) (u : Value) (bytes : Bytes) (c : ValueClass)
    (low high : Option IndexBound)
    → IsConsistent index
    → Covers index doc_key doc
    → LosslessFields doc
    → resolve_field doc (segments_of index) ≡ found u
    → encode_document_value u ≡ ok bytes
    → value_class_of u ≡ some c
    → WithinLower c low u
    → WithinUpper c high u
    → contains (lookup_range c low high index) doc_key ≡ true
unfolding lookup_range range_entries
lookup_range-contains index doc_key doc u bytes c low high o cov l hr hb hc hl hu =
    let (docs, hg, hd) = cov.listed u bytes hr hb in
    let (e, at_e, is_key) =
      o.placed u bytes c docs (resolve_field-Lossless doc (segments_of index) u l hr) hb hc hg in
    let stands : Stands c e = All-Occurs (Stands c) e (index.ordered c) (o.standing c) at_e in
    let is_u : u ≡ e.value =
      same_scalar c u e.value bytes (resolve_field-Lossless doc (segments_of index) u l hr) stands.2
        hc stands.0 hb (stands.1 ∙ ap (λ b. ok b) is_key) in
    collect_keys-contains index.by_value e docs _ [] doc_key
      (range-Occurs c (index.ordered c) (o.standing c) (o.ascending c) (o.short c) low high e at_e
        (subst (WithinLower c low) is_u hl) (subst (WithinUpper c high) is_u hu))
      (ap (λ b. map_get b index.by_value) is_key ∙ hg) hd
