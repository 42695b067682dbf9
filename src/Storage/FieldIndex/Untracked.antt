-- ===== src/Storage/FieldIndex/Untracked.antt =====
-- `remove` of packages/storage/src/indexing/field-index.ts, among documents with other keys, keeps track of
-- the documents that are left.
use mathlib.Core.Path.{subst}
use sinterdb.Prelude.{
  ◌+◌, ◌-◌, ◌≡◌, ◌∙◌, inl, inr, Bool, true, false, not, ◌&&◌, List, ◌∷◌, ◌++◌, Bytes, Str, str_eq,
  ok, >>=-eq-ok, contains, All, if◌then◌else◌, arith,
}
use sinterdb.Protocol.Errors.{Throws}
use sinterdb.Protocol.Document.{Value, Fields}
use sinterdb.Protocol.Encoder.{encode_document_value}
use sinterdb.Protocol.Canonical.{LosslessFields}
use sinterdb.Storage.Predicate.{found, missing, resolve_field}
use sinterdb.Storage.IndexSpec.{IndexSpec}
use sinterdb.Storage.IndexValue.{canonical_key, set_delete}
use sinterdb.Storage.FieldIndex.{FieldIndex, segments_of, is_array, remove, remove_found}
use sinterdb.Storage.FieldIndex.Invariant.{Covers}
use sinterdb.Storage.FieldIndex.Maps.{contains-set_delete}
use sinterdb.Storage.FieldIndex.Removed.{remove_found-shrunk, shrunk-IsConsistent, shrunk-Covers}
use sinterdb.Storage.FieldIndex.Tracks.{
  Stored, Tracks, array_weight, count_arrays, resolved_cases, All-without, All-at, All-zip,
  count_arrays-without,
}

abbrev pub AreOthers : Str → List Stored → Type 0
AreOthers k docs = All (λ (entry : Stored). str_eq k entry.0 ≡ false) docs

module _ (spec : IndexSpec) (index : FieldIndex) (xs ys : List Stored) (k : Str) (d : Fields)
    (t : Tracks spec index (xs ++ (k, d) ∷ ys)) (others : AreOthers k (xs ++ ys)) where
  rest_covered : All (λ (entry : Stored). Covers index entry.0 entry.1) (xs ++ ys)
  rest_covered = All-without (λ entry. Covers index entry.0 entry.1) xs ys (k, d) t.covered

  rest_lossless : All (λ (entry : Stored). LosslessFields entry.1) (xs ++ ys)
  rest_lossless = All-without (λ entry. LosslessFields entry.1) xs ys (k, d) t.lossless

  own_covered : Covers index k d
  own_covered = All-at (λ entry. Covers index entry.0 entry.1) xs ys (k, d) t.covered

  abbrev without_missing : FieldIndex
  without_missing = record index {
    missing_docs = set_delete k index.missing_docs;
    indexed_documents = index.indexed_documents - 1;
  }

  rest_arrays :
      index.array_values
      ≡ array_weight (resolve_field d (segments_of index))
        + count_arrays (segments_of index) (xs ++ ys)
  rest_arrays = t.arrays ∙ count_arrays-without (segments_of index) xs ys k d

  absent-Tracks :
      resolve_field d (segments_of index) ≡ missing → Tracks spec without_missing (xs ++ ys)
  absent-Tracks hr = record {
    same_spec = t.same_spec;
    consistent = record {
      standing = t.consistent.standing;
      ascending = t.consistent.ascending;
      short = t.consistent.short;
      placed = t.consistent.placed;
    };
    covered =
        All-zip (λ entry. Covers index entry.0 entry.1)
          (λ (entry : Stored). str_eq k entry.0 ≡ false) _ (xs ++ ys)
          (λ entry cov other. record {
            keyed = cov.keyed;
            listed = cov.listed;
            absent = λ h sparse.
                contains-set_delete k entry.0 index.missing_docs other (cov.absent h sparse);
          })
          rest_covered others;
    lossless = rest_lossless;
    arrays = rest_arrays ∙ rw hr (omega arith);
  }

  same-Tracks : resolve_field d (segments_of index) ≡ missing → Tracks spec index (xs ++ ys)
  same-Tracks hr = record {
    same_spec = t.same_spec;
    consistent = t.consistent;
    covered = rest_covered;
    lossless = rest_lossless;
    arrays = rest_arrays ∙ rw hr (omega arith);
  }

  removed-Tracks :
      (value : Value) (key : Bytes)
      → resolve_field d (segments_of index) ≡ found value
      → encode_document_value value ≡ ok key
      → Tracks spec (remove_found k value key index) (xs ++ ys)
  removed-Tracks value key hr hk =
      let (docs, hg, has_key) = own_covered.listed value key hr hk in
      rw (remove_found-shrunk k value key docs index hg has_key) (record {
        same_spec = t.same_spec;
        consistent = shrunk-IsConsistent index t.consistent value key docs (set_delete k docs) hg;
        covered =
            All-zip (λ entry. Covers index entry.0 entry.1)
              (λ (entry : Stored). str_eq k entry.0 ≡ false) _ (xs ++ ys)
              (λ entry cov other. shrunk-Covers index k entry.0 entry.1 value key docs hg other cov)
              rest_covered others;
        lossless = rest_lossless;
        arrays = counted (is_array value) (
            subst
              (λ r.
                index.array_values ≡ array_weight r + count_arrays (segments_of index) (xs ++ ys))
              hr rest_arrays);
      })
    where
      counted :
          (b : Bool)
          → index.array_values ≡ (if b then 1 else 0) + count_arrays (segments_of index) (xs ++ ys)
          → (if b then index.array_values - 1 else index.array_values)
            ≡ count_arrays (segments_of index) (xs ++ ys)
      counted true h = omega arith
      counted false h = omega arith

  pub remove-Tracks :
      (index' : FieldIndex) → remove k d index ≡ ok index' → Tracks spec index' (xs ++ ys)
  unfolding remove
  remove-Tracks index' h = elim (resolved_cases (resolve_field d (segments_of index))) [
    | inl hr ↦
        let h1 : ◌≡◌ {A = Throws FieldIndex}
            (ok (
              if not index.spec.sparse && contains index.missing_docs k
              then without_missing
              else index))
            (ok index') =
          rw (hr, remove) at h in
        absent_removed (not index.spec.sparse && contains index.missing_docs k) hr h1
    | inr (value, hr) ↦
        let (key, hk, h1) =
          >>=-eq-ok (canonical_key value) (λ key. ok (remove_found k value key index))
            (rw (hr, remove) at h) in
        let is_index : remove_found k value key index ≡ index' = cc in
        subst (λ i. Tracks spec i (xs ++ ys)) is_index (removed-Tracks value key hr hk)
  ]
    where
      absent_removed :
          (b : Bool)
          → resolve_field d (segments_of index) ≡ missing
          → ◌≡◌ {A = Throws FieldIndex} (ok (if b then without_missing else index)) (ok index')
          → Tracks spec index' (xs ++ ys)
      absent_removed true hr h1 =
          let is_index : without_missing ≡ index' = cc in
          subst (λ i. Tracks spec i (xs ++ ys)) is_index (absent-Tracks hr)
      absent_removed false hr h1 =
          let is_index : index ≡ index' = cc in
          subst (λ i. Tracks spec i (xs ++ ys)) is_index (same-Tracks hr)
