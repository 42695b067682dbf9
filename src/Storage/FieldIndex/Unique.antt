-- ===== src/Storage/FieldIndex/Unique.antt =====
-- An index of packages/storage/src/indexing/field-index.ts through its life: documents are added after
-- `conflictFor` has found no conflict, and removed.
use mathlib.Core.Path.{subst}
use sinterdb.Prelude.{
  ◌≡◌, refl, sym, ap, ◌∙◌, ◌⊎◌, inl, inr, Bool, true, false, not, ◌&&◌, Option, none, some, List,
  [], ◌∷◌, ◌++◌, Bytes, Str, str_eq, str_eq→≡, str_eq_refl, ok, ◌>>=◌, All, if◌then◌else◌,
}
use sinterdb.Protocol.Errors.{Throws}
use sinterdb.Protocol.Document.{Value, Fields}
use sinterdb.Protocol.Encoder.{encode_document_value}
use sinterdb.Protocol.Canonical.{LosslessFields}
use sinterdb.Storage.Predicate.{ResolvedField, found, missing, resolve_field}
use sinterdb.Storage.IndexSpec.{IndexSpec, split}
use sinterdb.Storage.IndexValue.{map_get, canonical_key}
use sinterdb.Storage.FieldIndex.{
  FieldIndex, segments_of, new_index, add, remove, conflict_for, has_other,
}
use sinterdb.Storage.FieldIndex.Invariant.{Covers}
use sinterdb.Storage.FieldIndex.Maps.{has_other-contains}
use sinterdb.Storage.FieldIndex.Added.{HasRoom}
use sinterdb.Storage.FieldIndex.Tracks.{
  resolved_cases, All-without, Stored, Tracks, new_index-Tracks, add-Tracks,
}
use sinterdb.Storage.FieldIndex.Untracked.{AreOthers, remove-Tracks}
use sinterdb.Storage.FieldIndex.Listing.{Lists}
use sinterdb.Storage.FieldIndex.Lives.{Lives, begun, entered, left, finished, Lives-Lists}

pub data Evolves (spec : IndexSpec) : FieldIndex → List Stored → Type 0 where
  created : Evolves spec (new_index spec) []
  added :
      {index : FieldIndex} {docs : List Stored}
      → Evolves spec index docs
      → (k : Str) (d : Fields) (index' : FieldIndex) → AreOthers k docs
      → LosslessFields d
      → HasRoom index
      → conflict_for k d index ≡ ok false
      → add k d false index ≡ ok index'
      → Evolves spec index' ((k, d) ∷ docs)
  removed :
      {index : FieldIndex} (xs ys docs : List Stored) (k : Str) (d : Fields) (index' : FieldIndex)
      → Evolves spec index (xs ++ (k, d) ∷ ys)
      → AreOthers k (xs ++ ys)
      → docs ≡ xs ++ ys
      → remove k d index ≡ ok index'
      → Evolves spec index' docs

-- What such a history keeps up.
pub Evolves-Tracks :
    {spec : IndexSpec} {index : FieldIndex} {docs : List Stored}
    → Evolves spec index docs
    → Tracks spec index docs
Evolves-Tracks {spec} created = new_index-Tracks spec
Evolves-Tracks {spec} (added {index = i} {docs = ds} h k d index' others lossless room free done) =
    add-Tracks spec i ds (Evolves-Tracks h) k d lossless index' room done
Evolves-Tracks {spec} (removed {index = i} xs ys docs k d index' h others e done) =
    subst (Tracks spec index') (sym e)
      (remove-Tracks spec i xs ys k d (Evolves-Tracks h) others index' done)

Evolves-Lives :
    {spec : IndexSpec} {index : FieldIndex} {docs : List Stored}
    → Evolves spec index docs
    → Lives spec index docs
Evolves-Lives {spec} created = begun
Evolves-Lives {spec} (added h k d index' others lossless room free done) =
    entered (Evolves-Lives h) false k d index' others free done
Evolves-Lives {spec} (removed xs ys docs k d index' h others e done) =
    left xs ys docs k d index' (Evolves-Lives h) others e done

abbrev pub Keeps : IndexSpec → FieldIndex → List Stored → Type 0
Keeps spec index docs = Tracks spec index docs × Lists spec index docs

-- Through every history in which lossless documents are added under new keys, outside of bulk loading,
-- where `conflictFor` finds no conflict and there is room for 2 ^ 31 entries, and are removed, an index
-- keeps its definition, its sorted entries sorted and complete, and the number of arrays among the
-- fields; it lists every document that it holds under the key of its field, or among those that lack
-- the field unless it is sparse, and lists no other.
pub Evolves-Keeps :
    {spec : IndexSpec} {index : FieldIndex} {docs : List Stored}
    → Evolves spec index docs
    → Keeps spec index docs
Evolves-Keeps h = (Evolves-Tracks h, Lives-Lists (Evolves-Lives h))

-- Two documents that a unique index must not hold together: their fields have one encoding, or both
-- lack the field and the index is not sparse.
abbrev pub Collide : IndexSpec → Fields → Fields → Type 0
Collide spec d e =
    ((u : Value) × (v : Value) × (bytes : Bytes) × (resolve_field d (split spec.path) ≡ found u)
      × (resolve_field e (split spec.path) ≡ found v)
      × (encode_document_value u ≡ ok bytes)
      × (encode_document_value v ≡ ok bytes))
    ⊎ ((resolve_field d (split spec.path) ≡ missing)
        × (resolve_field e (split spec.path) ≡ missing)
        × (spec.sparse ≡ false))

abbrev pub AreApart : IndexSpec → List Stored → Type 0
AreApart spec [] = Unit
AreApart spec ((k, d) ∷ docs) =
    All (λ (entry : Stored). ¬ Collide spec d entry.1) docs × AreApart spec docs

str_eq_sym : (a b : Str) → str_eq a b ≡ false → str_eq b a ≡ false
str_eq_sym a b h = step (str_eq b a) refl
  where
    step : (c : Bool) → str_eq b a ≡ c → c ≡ false
    step false e = refl
    step true e =
        let t : str_eq a b ≡ true = ap (λ x. str_eq a x) (str_eq→≡ b a e) ∙ str_eq_refl a in
        let bad : ◌≡◌ {A = Bool} true false = sym t ∙ h in cc

module _ (index : FieldIndex) (k : Str) (d : Fields) (unique : index.spec.unique ≡ true)
    (free : conflict_for k d index ≡ ok false) where
  abbrev other_with : Bytes → Throws Bool
  other_with key =
      ok (elim (map_get key index.by_value) [ none ↦ false | some docs ↦ has_other k docs ])

  abbrev conflict_of : ResolvedField → Throws Bool
  conflict_of missing = ok (not index.spec.sparse && has_other k index.missing_docs)
  conflict_of (found value) = canonical_key value >>= other_with

  no_conflict : conflict_of (resolve_field d (segments_of index)) ≡ ok false
  unfolding conflict_for
  no_conflict = elim (resolved_cases (resolve_field d (segments_of index))) [
    | inl hr ↦ rw hr (with_field (rw (hr, conflict_for) at opened))
    | inr (value, hr) ↦ rw hr (with_field (rw (hr, conflict_for) at opened))
  ]
    where
      opened : conflict_for k d index ≡ ok false
      opened = free

      with_field :
          {r : Throws Bool}
          → (if not index.spec.unique then ok false else r) ≡ ok false
          → r ≡ ok false
      with_field {r} h = sym (ap (λ b. if not b then ok false else r) unique) ∙ h

  found_clash :
      (key : Bytes) (docs : List Str)
      → map_get key index.by_value ≡ some docs
      → has_other k docs ≡ true
      → ¬ (other_with key ≡ ok false)
  found_clash key docs hg other h =
      let bad : ◌≡◌ {A = Throws Bool} (ok (has_other k docs)) (ok false) =
        ap (λ (m : Option (List Str)). ok (elim m [ none ↦ false | some l ↦ has_other k l ]))
          (sym hg)
        ∙ h in
      let bad' : has_other k docs ≡ false = cc in
      let bad'' : ◌≡◌ {A = Bool} true false = sym other ∙ bad' in cc

  missing_clash :
      index.spec.sparse ≡ false
      → has_other k index.missing_docs ≡ true
      → ¬ (conflict_of missing ≡ ok false)
  missing_clash dense other h =
      let bad : (not index.spec.sparse && has_other k index.missing_docs) ≡ false = cc in
      let good : (not index.spec.sparse && has_other k index.missing_docs) ≡ true =
        ap (λ b. not b && has_other k index.missing_docs) dense ∙ other in
      let bad' : ◌≡◌ {A = Bool} true false = sym good ∙ bad in cc

  -- No covered document under another key collides with one that has no conflict.
  apart : (j : Str) (e : Fields) → str_eq k j ≡ false → Covers index j e → ¬ Collide index.spec d e
  apart j e other cov (inl (u, v, bytes, hu, hv, eu, ev)) =
      let (docs, hg, hj) = cov.listed v bytes hv ev in
      let h : conflict_of (found u) ≡ ok false = rw hu at no_conflict in
      found_clash bytes docs hg (has_other-contains k j docs (str_eq_sym k j other) hj)
        (ap (λ r. r >>= other_with) (sym eu) ∙ h)
  apart j e other cov (inr (hd, he, dense)) =
      missing_clash dense
        (has_other-contains k j index.missing_docs (str_eq_sym k j other) (cov.absent he dense))
        (rw hd at no_conflict)

  apart-All :
      (docs : List Stored)
      → AreOthers k docs
      → All (λ (entry : Stored). Covers index entry.0 entry.1) docs
      → All (λ (entry : Stored). ¬ Collide index.spec d entry.1) docs
  apart-All [] others covered = tt
  apart-All ((j, e) ∷ docs) others covered =
      (apart j e others.0 covered.0, apart-All docs others.1 covered.1)

AreApart-without :
    (spec : IndexSpec) (xs ys : List Stored) (entry : Stored)
    → AreApart spec (xs ++ entry ∷ ys)
    → AreApart spec (xs ++ ys)
AreApart-without spec [] ys (k, d) h = h.1
AreApart-without spec ((j, e) ∷ xs) ys entry h = (
  All-without (λ (x : Stored). ¬ Collide spec e x.1) xs ys entry h.0,
  AreApart-without spec xs ys entry h.1,
)

-- A unique index never holds two documents whose fields have one encoding, nor, unless it is sparse, two
-- that lack the field, through every life in which documents are added under new keys, in bulk or one by
-- one, where `conflictFor` finds no conflict, and are removed, and bulk loading is finished.
pub Lives-AreApart :
    {spec : IndexSpec} {index : FieldIndex} {docs : List Stored}
    → spec.unique ≡ true
    → Lives spec index docs
    → AreApart spec docs
Lives-AreApart unique begun = tt
Lives-AreApart {spec} unique (entered {index = i} {docs = ds} h bulk k d index' others free done) =
    let l : Lists spec i ds = Lives-Lists h in
    (
      subst (λ s. All (λ (entry : Stored). ¬ Collide s d entry.1) ds) l.same_spec
          (apart-All i k d (ap (λ (s : IndexSpec). s.unique) l.same_spec ∙ unique) free ds others
            l.covered),
      Lives-AreApart unique h,
    )
Lives-AreApart {spec} unique (left xs ys docs k d index' h others e done) =
    subst (AreApart spec) (sym e) (AreApart-without spec xs ys (k, d) (Lives-AreApart unique h))
Lives-AreApart unique (finished h) = Lives-AreApart unique h
