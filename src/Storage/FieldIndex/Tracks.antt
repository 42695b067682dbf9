-- ===== src/Storage/FieldIndex/Tracks.antt =====
-- An index of packages/storage/src/indexing/field-index.ts against the documents that were added to it and
-- not removed.
use mathlib.Core.Path.{subst}
use sinterdb.Prelude.{
  ℕ, ◌+◌, ◌≡◌, refl, sym, ap, ◌∙◌, ◌⊎◌, inl, inr, Bool, true, false, List, [], ◌∷◌, ◌++◌, Bytes,
  Str, ok, >>=-eq-ok, All, if◌then◌else◌, arith, lt→ltb,
}
use sinterdb.Protocol.Errors.{Throws}
use sinterdb.Protocol.Document.{Value, Fields}
use sinterdb.Protocol.Encoder.{encode_document_value}
use sinterdb.Protocol.Canonical.{Lossless, LosslessFields}
use sinterdb.Storage.Predicate.{ResolvedField, found, missing, resolve_field}
use sinterdb.Storage.IndexSpec.{IndexSpec}
use sinterdb.Storage.IndexValue.{canonical_key, map_get, set_add}
use sinterdb.Storage.FieldIndex.{FieldIndex, segments_of, is_array, new_index, add, add_found}
use sinterdb.Storage.FieldIndex.Invariant.{IsConsistent, Covers, IsCounted, resolve_field-Lossless}
use sinterdb.Storage.FieldIndex.Range.{contains-set_add, contains-set_add_self}
use sinterdb.Storage.FieldIndex.Added.{
  HasRoom, add_found-grown, grown-IsConsistent, grown-Covers, grown-Covers_self,
}

abbrev pub Stored : Type 0
Stored = Str × Fields

abbrev pub array_weight : ResolvedField → ℕ
array_weight missing = 0
array_weight (found u) = if is_array u then 1 else 0

abbrev pub count_arrays : List Str → List Stored → ℕ
count_arrays segments [] = 0
count_arrays segments ((k, d) ∷ docs) =
    array_weight (resolve_field d segments) + count_arrays segments docs

pub record Tracks (spec : IndexSpec) (index : FieldIndex) (docs : List Stored) : Type 0 where
  pub same_spec : index.spec ≡ spec
  pub consistent : IsConsistent index
  pub covered : All (λ (entry : Stored). Covers index entry.0 entry.1) docs
  pub lossless : All (λ (entry : Stored). LosslessFields entry.1) docs
  pub arrays : index.array_values ≡ count_arrays (segments_of index) docs

pub resolved_cases : (r : ResolvedField) → (r ≡ missing) ⊎ ((u : Value) × (r ≡ found u))
resolved_cases missing = inl refl
resolved_cases (found u) = inr (u, refl)

pub All-stored :
    (P Q : Stored → Type 0) (docs : List Stored)
    → ((entry : Stored) → P entry → Q entry)
    → All P docs
    → All Q docs
All-stored P Q [] f all = tt
All-stored P Q (entry ∷ docs) f all = (f entry all.0, All-stored P Q docs f all.1)

pub new_index-Tracks : (spec : IndexSpec) → Tracks spec (new_index spec) []
unfolding new_index map_get
new_index-Tracks spec = record {
  same_spec = refl;
  consistent = record {
    standing = λ c. tt;
    ascending = λ c. tt;
    short = λ c. omega arith;
    placed = λ u bytes c docs lu hu hc hg. cc;
  };
  covered = tt;
  lossless = tt;
  arrays = refl;
}

module _ (spec : IndexSpec) (index : FieldIndex) (docs : List Stored) (t : Tracks spec index docs)
    (k : Str) (d : Fields) (ld : LosslessFields d) where
  -- A document that lacks the field.
  abbrev with_missing : FieldIndex
  with_missing = record index {
    missing_docs = set_add k index.missing_docs;
    indexed_documents = index.indexed_documents + 1;
  }

  with_missing-Tracks :
      resolve_field d (segments_of index) ≡ missing → Tracks spec with_missing ((k, d) ∷ docs)
  with_missing-Tracks hr = record {
    same_spec = t.same_spec;
    consistent = record {
      standing = t.consistent.standing;
      ascending = t.consistent.ascending;
      short = t.consistent.short;
      placed = t.consistent.placed;
    };
    covered = (
      record {
        keyed = λ u h. let bad : missing ≡ found u = sym hr ∙ h in cc;
        listed = λ u bytes h hb. let bad : missing ≡ found u = sym hr ∙ h in cc;
        absent = λ h sparse. contains-set_add_self k index.missing_docs;
      },
      All-stored (λ entry. Covers index entry.0 entry.1)
          (λ entry. Covers with_missing entry.0 entry.1) docs
          (λ entry cov. record {
            keyed = cov.keyed;
            listed = cov.listed;
            absent =
                λ h sparse. contains-set_add k entry.0 index.missing_docs (cov.absent h sparse);
          })
          t.covered,
    );
    lossless = (ld, t.lossless);
    arrays = rw hr (t.arrays ∙ omega arith);
  }

  sparse-Tracks :
      resolve_field d (segments_of index) ≡ missing
      → index.spec.sparse ≡ true
      → Tracks spec index ((k, d) ∷ docs)
  sparse-Tracks hr is_sparse = record {
    same_spec = t.same_spec;
    consistent = t.consistent;
    covered = (
      record {
        keyed = λ u h. let bad : missing ≡ found u = sym hr ∙ h in cc;
        listed = λ u bytes h hb. let bad : missing ≡ found u = sym hr ∙ h in cc;
        absent = λ h sparse. let bad : ◌≡◌ {A = Bool} true false = sym is_sparse ∙ sparse in cc;
      },
      t.covered,
    );
    lossless = (ld, t.lossless);
    arrays = rw hr (t.arrays ∙ omega arith);
  }

  found-Tracks :
      (value : Value) (key : Bytes)
      → HasRoom index
      → resolve_field d (segments_of index) ≡ found value
      → encode_document_value value ≡ ok key
      → Tracks spec (add_found k value key false index) ((k, d) ∷ docs)
  found-Tracks value key room hr hk =
      let lv : Lossless value = resolve_field-Lossless d (segments_of index) value ld hr in
      rw (add_found-grown k value key index) (record {
        same_spec = t.same_spec;
        consistent = grown-IsConsistent index t.consistent value key lv hk room k;
        covered = (
          grown-Covers_self index k d value key hr hk,
          All-stored (λ entry. Covers index entry.0 entry.1) _ docs
              (λ entry cov. grown-Covers index k value key entry.0 entry.1 cov) t.covered,
        );
        lossless = (ld, t.lossless);
        arrays = rw hr (counted (is_array value));
      })
    where
      counted :
          (b : Bool)
          → (if b then index.array_values + 1 else index.array_values)
            ≡ (if b then 1 else 0) + count_arrays (segments_of index) docs
      counted true = omega (arith, t.arrays)
      counted false = omega (arith, t.arrays)

  pub add-Tracks :
      (index' : FieldIndex)
      → HasRoom index
      → add k d false index ≡ ok index'
      → Tracks spec index' ((k, d) ∷ docs)
  unfolding add
  add-Tracks index' room h = elim (resolved_cases (resolve_field d (segments_of index))) [
    | inl hr ↦
        let h1 : ◌≡◌ {A = Throws FieldIndex}
            (ok (if index.spec.sparse then index else with_missing)) (ok index') =
          rw (hr, add) at h in
        absent_added index.spec.sparse refl hr h1
    | inr (value, hr) ↦
        let (key, hk, h1) =
          >>=-eq-ok (canonical_key value) (λ key. ok (add_found k value key false index))
            (rw (hr, add) at h) in
        let is_index : add_found k value key false index ≡ index' = cc in
        subst (λ i. Tracks spec i ((k, d) ∷ docs)) is_index (found-Tracks value key room hr hk)
  ]
    where
      absent_added :
          (b : Bool)
          → index.spec.sparse ≡ b
          → resolve_field d (segments_of index) ≡ missing
          → ◌≡◌ {A = Throws FieldIndex} (ok (if b then index else with_missing)) (ok index')
          → Tracks spec index' ((k, d) ∷ docs)
      absent_added true s hr h1 =
          let is_index : index ≡ index' = cc in
          subst (λ i. Tracks spec i ((k, d) ∷ docs)) is_index (sparse-Tracks hr s)
      absent_added false s hr h1 =
          let is_index : with_missing ≡ index' = cc in
          subst (λ i. Tracks spec i ((k, d) ∷ docs)) is_index (with_missing-Tracks hr)

pub All-without :
    (P : Stored → Type 0) (xs ys : List Stored) (entry : Stored)
    → All P (xs ++ entry ∷ ys)
    → All P (xs ++ ys)
All-without P [] ys entry all = all.1
All-without P (x ∷ xs) ys entry all = (all.0, All-without P xs ys entry all.1)

pub All-at :
    (P : Stored → Type 0) (xs ys : List Stored) (entry : Stored)
    → All P (xs ++ entry ∷ ys)
    → P entry
All-at P [] ys entry all = all.0
All-at P (x ∷ xs) ys entry all = All-at P xs ys entry all.1

pub All-zip :
    (P Q R : Stored → Type 0) (docs : List Stored)
    → ((entry : Stored) → P entry → Q entry → R entry)
    → All P docs
    → All Q docs
    → All R docs
All-zip P Q R [] f all other = tt
All-zip P Q R (entry ∷ docs) f all other =
    (f entry all.0 other.0, All-zip P Q R docs f all.1 other.1)

pub count_arrays-without :
    (segments : List Str) (xs ys : List Stored) (k : Str) (d : Fields)
    → count_arrays segments (xs ++ (k, d) ∷ ys)
      ≡ array_weight (resolve_field d segments) + count_arrays segments (xs ++ ys)
count_arrays-without segments [] ys k d = refl
count_arrays-without segments ((j, e) ∷ xs) ys k d =
    omega (arith, count_arrays-without segments xs ys k d)

-- Each document that is tracked is covered, and the index knows if its field is an array.
pub Tracks-Covers :
    (spec : IndexSpec) (index : FieldIndex) (xs ys : List Stored) (k : Str) (d : Fields)
    → Tracks spec index (xs ++ (k, d) ∷ ys)
    → Covers index k d
Tracks-Covers spec index xs ys k d t =
    All-at (λ entry. Covers index entry.0 entry.1) xs ys (k, d) t.covered

pub Tracks-IsCounted :
    (spec : IndexSpec) (index : FieldIndex) (xs ys : List Stored) (k : Str) (d : Fields)
    → Tracks spec index (xs ++ (k, d) ∷ ys)
    → IsCounted index d
Tracks-IsCounted spec index xs ys k d t u hr is_arr =
    let total : index.array_values
        ≡ array_weight (resolve_field d (segments_of index))
          + count_arrays (segments_of index) (xs ++ ys) =
      t.arrays ∙ count_arrays-without (segments_of index) xs ys k d in
    let one : array_weight (resolve_field d (segments_of index)) ≡ 1 =
      ap array_weight hr ∙ ap (λ (b : Bool). if b then 1 else 0) is_arr in
    lt→ltb 0 index.array_values (omega (arith, total, one))
