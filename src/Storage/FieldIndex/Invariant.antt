-- ===== src/Storage/FieldIndex/Invariant.antt =====
-- What an index of packages/storage/src/indexing/field-index.ts knows: every key whose value has a class has
-- a sorted entry, the entries are sorted, and a document that it covers is found under the key of its field.
use mathlib.Core.Path.{subst}
use sinterdb.Prelude.{
  false, ap, ◌^◌, ◌<◌, ◌≡◌, refl, sym, ◌∙◌, true, some, List, [], ◌∷◌, Bytes, Str, ok, length,
  contains, All, Option-cases, Bool-cases, str_eq, inl, inr,
}
use sinterdb.Protocol.Document.{array, Value, Fields, get, document, end, field, null}
use sinterdb.Protocol.Encoder.{encode_document_value}
use sinterdb.Protocol.Canonical.{canonical, Lossless, LosslessFields}
use sinterdb.Protocol.Canonical.RoundTrip.{encode-eq_iff}
use sinterdb.Storage.Predicate.{found, missing, resolve_field, resolve_value}
use sinterdb.Storage.IndexValue.{
  ValueClass, strings, numbers, bigints, dates, binaries, ids, value_class_of, OrderedEntry,
  map_get,
}
use sinterdb.Storage.FieldIndex.{FieldIndex, segments_of, has_array_values, is_array}
use sinterdb.Storage.FieldIndex.ClassOrder.{Shape, Shape-of}
use sinterdb.Storage.FieldIndex.Entries.{Stands, IsAscending, Occurs}

pub record IsConsistent (index : FieldIndex) : Type 0 where
  pub standing : (c : ValueClass) → All (Stands c) (index.ordered c)
  pub ascending : (c : ValueClass) → IsAscending (index.ordered c)
  pub short : (c : ValueClass) → length (index.ordered c) < 2 ^ 31
  pub placed :
      (u : Value) (bytes : Bytes) (c : ValueClass) (docs : List Str)
      → Lossless u
      → encode_document_value u ≡ ok bytes
      → value_class_of u ≡ some c
      → map_get bytes index.by_value ≡ some docs
      → (e : OrderedEntry) × Occurs e (index.ordered c) × (e.key ≡ bytes)

-- The document is listed under the key of its value, or among those that lack the field.
pub record Covers (index : FieldIndex) (doc_key : Str) (doc : Fields) : Type 0 where
  pub keyed :
      (u : Value)
      → resolve_field doc (segments_of index) ≡ found u
      → (bytes : Bytes) × (encode_document_value u ≡ ok bytes)
  pub listed :
      (u : Value) (bytes : Bytes)
      → resolve_field doc (segments_of index) ≡ found u
      → encode_document_value u ≡ ok bytes
      → (docs : List Str) × (map_get bytes index.by_value ≡ some docs)
        × (contains docs doc_key ≡ true)
  pub absent :
      resolve_field doc (segments_of index) ≡ missing
      → index.spec.sparse ≡ false
      → contains index.missing_docs doc_key ≡ true

-- The index knows that it holds an array if the document's field is one.
abbrev pub IsCounted : FieldIndex → Fields → Type 0
IsCounted index doc =
    (u : Value)
    → resolve_field doc (segments_of index) ≡ found u
    → is_array u ≡ true
    → has_array_values index ≡ true

canonical_scalar : (c : ValueClass) (v : Value) → value_class_of v ≡ some c → canonical v ≡ v
unfolding canonical
canonical_scalar c v h = by_shape c v (Shape-of v c h)
  where
    by_shape : (c : ValueClass) (v : Value) → Shape c v → canonical v ≡ v
    by_shape strings v (s, e) = rw e refl
    by_shape numbers v (s, e, p) = rw e refl
    by_shape bigints v (s, e) = rw e refl
    by_shape dates v (s, e) = rw e refl
    by_shape binaries v (s, e) = rw e refl
    by_shape ids v (s, e) = rw e refl

-- Values that have a class are equal if their encodings are.
pub same_scalar :
    (c : ValueClass) (u v : Value) (bytes : Bytes)
    → Lossless u
    → Lossless v
    → value_class_of u ≡ some c
    → value_class_of v ≡ some c
    → encode_document_value u ≡ ok bytes
    → encode_document_value v ≡ ok bytes
    → u ≡ v
same_scalar c u v bytes lu lv hu hv eu ev =
    sym (canonical_scalar c u hu)
    ∙ (encode-eq_iff u v bytes bytes lu lv eu ev).0 refl
    ∙ canonical_scalar c v hv

class-canonical : (v : Value) → value_class_of (canonical v) ≡ value_class_of v
unfolding canonical value_class_of
class-canonical (array vs) = refl
class-canonical _ = refl

-- Values with one encoding are of one class.
pub same_class :
    (u v : Value) (bytes : Bytes)
    → Lossless u
    → Lossless v
    → encode_document_value u ≡ ok bytes
    → encode_document_value v ≡ ok bytes
    → value_class_of u ≡ value_class_of v
same_class u v bytes lu lv eu ev =
    sym (class-canonical u)
    ∙ ap value_class_of ((encode-eq_iff u v bytes bytes lu lv eu ev).0 refl)
    ∙ class-canonical v

-- What is found in a lossless document is lossless.
get-Lossless :
    (k : Str) (fs : Fields) (v : Value) → LosslessFields fs → get k fs ≡ some v → Lossless v
unfolding get
get-Lossless k end v l h = cc
get-Lossless k (field j u fs) v l h = elim (Bool-cases (str_eq j k)) [
  | inl e ↦
      let h' : some u ≡ some v = rw e at h in
      let same_value : u ≡ v = cc in subst Lossless same_value l.2
  | inr e ↦ get-Lossless k fs v l.3 (rw e at h)
]

resolve_value-Lossless :
    (v u : Value) (segments : List Str)
    → Lossless v
    → resolve_value v segments ≡ found u
    → Lossless u
unfolding resolve_value
resolve_value-Lossless v u [] l h = let e : v ≡ u = cc in subst Lossless e l
resolve_value-Lossless (document fs) u (segment ∷ segments) l h =
    elim (Option-cases (get segment fs)) [
      | inl e ↦ let h' : missing ≡ found u = rw (e, resolve_value) at h in cc
      | inr (v, e) ↦
          resolve_value-Lossless v u segments (get-Lossless segment fs v l e)
            (rw (e, resolve_value) at h)
    ]
resolve_value-Lossless null u (segment ∷ segments) l h = cc
resolve_value-Lossless _ u (segment ∷ segments) l h = cc

pub resolve_field-Lossless :
    (doc : Fields) (segments : List Str) (u : Value)
    → LosslessFields doc
    → resolve_field doc segments ≡ found u
    → Lossless u
unfolding resolve_field
resolve_field-Lossless doc [] u l h = cc
resolve_field-Lossless doc (segment ∷ segments) u l h = elim (Option-cases (get segment doc)) [
  | inl e ↦ let h' : missing ≡ found u = rw (e, resolve_field) at h in cc
  | inr (v, e) ↦
      resolve_value-Lossless v u segments (get-Lossless segment doc v l e)
        (rw (e, resolve_field) at h)
]
