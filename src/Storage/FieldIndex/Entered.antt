-- ===== src/Storage/FieldIndex/Entered.antt =====
-- `add` of packages/storage/src/indexing/field-index.ts, in bulk or not, lists one document more.
use mathlib.Core.Path.{subst}
use sinterdb.Prelude.{
  ◌+◌, ◌≡◌, refl, sym, ap, ◌∙◌, ◌⊎◌, inl, inr, Bool, true, false, some, Bool-cases, List, ◌∷◌,
  Bytes, Str, str_eq, str_eq→≡, ok, >>=-eq-ok, contains, if◌then◌else◌,
}
use sinterdb.Protocol.Errors.{Throws}
use sinterdb.Protocol.Document.{Value, Fields}
use sinterdb.Protocol.Encoder.{encode_document_value}
use sinterdb.Storage.Predicate.{found, missing, resolve_field}
use sinterdb.Storage.IndexSpec.{IndexSpec}
use sinterdb.Storage.IndexValue.{canonical_key, map_get, map_set, set_add}
use sinterdb.Storage.FieldIndex.{FieldIndex, segments_of, add, add_found}
use sinterdb.Storage.FieldIndex.Invariant.{Covers}
use sinterdb.Storage.FieldIndex.Maps.{map_get-set_self, map_get-set_ne}
use sinterdb.Storage.FieldIndex.Range.{contains-set_add, contains-set_add_self}
use sinterdb.Storage.FieldIndex.Added.{docs_after, grown, grown-Covers, grown-Covers_self}
use sinterdb.Storage.FieldIndex.Tracks.{Stored, resolved_cases, All-stored}
use sinterdb.Storage.FieldIndex.Listing.{
  Held, HasKey, Lists, Lists-Alike, add_found-Alike, set_add-contains, docs_after-contains,
}

module _ (spec : IndexSpec) (index : FieldIndex) (docs : List Stored) (l : Lists spec index docs)
    (k : Str) (d : Fields) where
  abbrev HeldWith : Str → (Fields → Type 0) → List Stored → Type 0
  HeldWith j P entries = (e : Fields) × Held (j, e) entries × P e

  grown-Lists :
      (value : Value) (key : Bytes)
      → resolve_field d (segments_of index) ≡ found value
      → encode_document_value value ≡ ok key
      → Lists spec (grown k value key index) ((k, d) ∷ docs)
  grown-Lists value key hr hk = record {
    same_spec = l.same_spec;
    covered = (
      grown-Covers_self index k d value key hr hk,
      All-stored (λ entry. Covers index entry.0 entry.1)
          (λ entry. Covers (grown k value key index) entry.0 entry.1) docs
          (λ entry cov. grown-Covers index k value key entry.0 entry.1 cov) l.covered,
    );
    keyed_held = λ bytes ks j hg hj. by_key bytes ks j hg hj (Bool-cases (str_eq key bytes));
    missing_held =
        λ j h. let (dense, (e, held, he)) = l.missing_held j h in (dense, (e, inr held, he));
  }
    where
      older :
          (bytes : Bytes) (ks : List Str) (j : Str)
          → map_get bytes index.by_value ≡ some ks
          → contains ks j ≡ true
          → HeldWith j (λ e. HasKey index e bytes) ((k, d) ∷ docs)
      older bytes ks j hg hj =
          let (e, held, has) = l.keyed_held bytes ks j hg hj in (e, inr held, has)

      by_key :
          (bytes : Bytes) (ks : List Str) (j : Str)
          → map_get bytes (map_set key (docs_after k (map_get key index.by_value)) index.by_value)
            ≡ some ks
          → contains ks j ≡ true
          → (str_eq key bytes ≡ true) ⊎ (str_eq key bytes ≡ false)
          → HeldWith j (λ e. HasKey index e bytes) ((k, d) ∷ docs)
      by_key bytes ks j hg hj (inr other) =
          older bytes ks j
            (sym (
                map_get-set_ne bytes key (docs_after k (map_get key index.by_value)) index.by_value
                  other)
              ∙ hg)
            hj
      by_key bytes ks j hg hj (inl own) =
          let is_key : key ≡ bytes = str_eq→≡ key bytes own in
          let is_after : some (docs_after k (map_get key index.by_value)) ≡ some ks =
            sym (map_get-set_self key (docs_after k (map_get key index.by_value)) index.by_value)
            ∙ ap
                (λ b.
                  map_get b
                    (map_set key (docs_after k (map_get key index.by_value)) index.by_value))
                is_key
            ∙ hg in
          let same_docs : docs_after k (map_get key index.by_value) ≡ ks = cc in
          elim (docs_after-contains k j (map_get key index.by_value)
            (ap (λ m. contains m j) same_docs ∙ hj)) [
              | inl is_k ↦
                  (d, inl (ap (λ x. (x, d)) (str_eq→≡ k j is_k)), (value, hr, hk ∙ ap ok is_key))
              | inr (old, ho, hc) ↦
                  older bytes old j (ap (λ b. map_get b index.by_value) (sym is_key) ∙ ho) hc
            ]

  abbrev with_missing : FieldIndex
  with_missing = record index {
    missing_docs = set_add k index.missing_docs;
    indexed_documents = index.indexed_documents + 1;
  }

  with_missing-Lists :
      resolve_field d (segments_of index) ≡ missing
      → index.spec.sparse ≡ false
      → Lists spec with_missing ((k, d) ∷ docs)
  with_missing-Lists hr dense = record {
    same_spec = l.same_spec;
    covered = (
      record {
        keyed = λ u h. let bad : missing ≡ found u = sym hr ∙ h in cc;
        listed = λ u bytes h hb. let bad : missing ≡ found u = sym hr ∙ h in cc;
        absent = λ h sparse. contains-set_add_self k index.missing_docs;
      },
      All-stored (λ entry. Covers index entry.0 entry.1)
          (λ entry. Covers with_missing entry.0 entry.1) docs
          (λ entry cov. record {
            keyed = cov.keyed;
            listed = cov.listed;
            absent =
                λ h sparse. contains-set_add k entry.0 index.missing_docs (cov.absent h sparse);
          })
          l.covered,
    );
    keyed_held = λ bytes ks j hg hj.
        let (e, held, has) = l.keyed_held bytes ks j hg hj in (e, inr held, has);
    missing_held = λ j h. elim (set_add-contains k j index.missing_docs h) [
      | inl is_k ↦ (dense, (d, inl (ap (λ x. (x, d)) (str_eq→≡ k j is_k)), hr))
      | inr old ↦ (let (own, (e, held, he)) = l.missing_held j old in (own, (e, inr held, he)))
    ];
  }

  sparse-Lists :
      resolve_field d (segments_of index) ≡ missing
      → index.spec.sparse ≡ true
      → Lists spec index ((k, d) ∷ docs)
  sparse-Lists hr is_sparse = record {
    same_spec = l.same_spec;
    covered = (
      record {
        keyed = λ u h. let bad : missing ≡ found u = sym hr ∙ h in cc;
        listed = λ u bytes h hb. let bad : missing ≡ found u = sym hr ∙ h in cc;
        absent = λ h sparse. let bad : true ≡ false = sym is_sparse ∙ sparse in cc;
      },
      l.covered,
    );
    keyed_held = λ bytes ks j hg hj.
        let (e, held, has) = l.keyed_held bytes ks j hg hj in (e, inr held, has);
    missing_held = λ j h. let (own, (e, held, he)) = l.missing_held j h in (own, (e, inr held, he));
  }

  pub add-Lists :
      (bulk : Bool) (index' : FieldIndex)
      → add k d bulk index ≡ ok index'
      → Lists spec index' ((k, d) ∷ docs)
  unfolding add
  add-Lists bulk index' h = elim (resolved_cases (resolve_field d (segments_of index))) [
    | inl hr ↦
        let h1 : ◌≡◌ {A = Throws FieldIndex}
            (ok (if index.spec.sparse then index else with_missing)) (ok index') =
          rw (hr, add) at h in
        by_sparse index.spec.sparse refl hr h1
    | inr (value, hr) ↦
        let (key, hk, h1) =
          >>=-eq-ok (canonical_key value) (λ key. ok (add_found k value key bulk index))
            (rw (hr, add) at h) in
        let is_index : add_found k value key bulk index ≡ index' = cc in
        subst (λ i. Lists spec i ((k, d) ∷ docs)) is_index
          (Lists-Alike (grown k value key index) (add_found k value key bulk index)
            (add_found-Alike k value key bulk index) spec ((k, d) ∷ docs)
            (grown-Lists value key hr hk))
  ]
    where
      by_sparse :
          (b : Bool)
          → index.spec.sparse ≡ b
          → resolve_field d (segments_of index) ≡ missing
          → ◌≡◌ {A = Throws FieldIndex} (ok (if b then index else with_missing)) (ok index')
          → Lists spec index' ((k, d) ∷ docs)
      by_sparse true s hr h1 =
          let e : index ≡ index' = cc in
          subst (λ i. Lists spec i ((k, d) ∷ docs)) e (sparse-Lists hr s)
      by_sparse false s hr h1 =
          let e : with_missing ≡ index' = cc in
          subst (λ i. Lists spec i ((k, d) ∷ docs)) e (with_missing-Lists hr s)
