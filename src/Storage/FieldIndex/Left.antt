-- ===== src/Storage/FieldIndex/Left.antt =====
-- `remove` of packages/storage/src/indexing/field-index.ts takes a document from the lists.
use mathlib.Core.Path.{subst}
use sinterdb.Prelude.{
  ◌-◌, ◌≡◌, refl, sym, ap, ◌∙◌, ◌⊎◌, inl, inr, Bool, true, false, not, ◌&&◌, none, some, Bool-cases,
  List, [], ◌∷◌, ◌++◌, Bytes, Str, str_eq, str_eq→≡, str_eq_refl, ok, >>=-eq-ok, contains, All,
  if◌then◌else◌, ◌==◌, length,
}
use sinterdb.Protocol.Errors.{Throws}
use sinterdb.Protocol.Document.{Value, Fields}
use sinterdb.Protocol.Encoder.{encode_document_value}
use sinterdb.Storage.Predicate.{found, missing, resolve_field}
use sinterdb.Storage.IndexSpec.{IndexSpec}
use sinterdb.Storage.IndexValue.{canonical_key, map_get, map_set, map_delete, set_delete}
use sinterdb.Storage.FieldIndex.{FieldIndex, segments_of, remove, remove_found}
use sinterdb.Storage.FieldIndex.Invariant.{Covers}
use sinterdb.Storage.FieldIndex.Maps.{
  map_get-set_self, map_get-set_ne, map_get-delete_self, map_get-delete_ne, contains-set_delete,
}
use sinterdb.Storage.FieldIndex.Removed.{shrunk, remove_found-shrunk, shrunk-Covers}
use sinterdb.Storage.FieldIndex.Tracks.{Stored, resolved_cases, All-without, All-at, All-zip}
use sinterdb.Storage.FieldIndex.Untracked.{AreOthers}
use sinterdb.Storage.FieldIndex.Listing.{Held, HasKey, Lists, set_delete-contains}

Held-without :
    (xs ys : List Stored) (x entry : Stored)
    → Held entry (xs ++ x ∷ ys)
    → (x ≡ entry) ⊎ Held entry (xs ++ ys)
Held-without [] ys x entry h = h
Held-without (z ∷ xs) ys x entry (inl e) = inr (inl e)
Held-without (z ∷ xs) ys x entry (inr h) = elim (Held-without xs ys x entry h) [
  | inl e ↦ inl e
  | inr r ↦ inr (inr r)
]

module _ (spec : IndexSpec) (index : FieldIndex) (xs ys : List Stored) (k : Str) (d : Fields)
    (l : Lists spec index (xs ++ (k, d) ∷ ys)) (others : AreOthers k (xs ++ ys)) where
  rest_covered : All (λ (entry : Stored). Covers index entry.0 entry.1) (xs ++ ys)
  rest_covered = All-without (λ entry. Covers index entry.0 entry.1) xs ys (k, d) l.covered

  own_covered : Covers index k d
  own_covered = All-at (λ entry. Covers index entry.0 entry.1) xs ys (k, d) l.covered

  -- What is held under another key is held without the document as well.
  still-Held :
      (j : Str) (e : Fields)
      → str_eq k j ≡ false
      → Held (j, e) (xs ++ (k, d) ∷ ys)
      → Held (j, e) (xs ++ ys)
  still-Held j e other held = elim (Held-without xs ys (k, d) (j, e) held) [
    | inr rest ↦ rest
    | inl same_entry ↦
        let bad : str_eq k j ≡ true =
          ap (str_eq k) (sym (ap (λ (x : Stored). x.0) same_entry)) ∙ str_eq_refl k in
        let bad' : true ≡ false = sym bad ∙ other in cc
  ]

  shrunk-Lists :
      (value : Value) (key : Bytes) (docs : List Str)
      → resolve_field d (segments_of index) ≡ found value
      → encode_document_value value ≡ ok key
      → map_get key index.by_value ≡ some docs
      → Lists spec (shrunk value key (set_delete k docs) index) (xs ++ ys)
  shrunk-Lists value key docs hr hk hg = record {
    same_spec = l.same_spec;
    covered =
        All-zip (λ entry. Covers index entry.0 entry.1)
          (λ (entry : Stored). str_eq k entry.0 ≡ false) _ (xs ++ ys)
          (λ entry cov other. shrunk-Covers index k entry.0 entry.1 value key docs hg other cov)
          rest_covered others;
    keyed_held = λ bytes ks j h hj.
        by_key bytes ks j (Bool-cases (str_eq key bytes)) (length (set_delete k docs) == 0) h hj;
    missing_held = λ j h.
        let (dense, (e, held, he)) = l.missing_held j h in
        elim (Held-without xs ys (k, d) (j, e) held) [
          | inr rest ↦ (dense, (e, rest, he))
          | inl same_entry ↦
              let same_doc : d ≡ e = ap (λ (x : Stored). x.1) same_entry in
              let bad : found value ≡ missing =
                sym hr ∙ ap (λ x. resolve_field x (segments_of index)) same_doc ∙ he in
              cc
        ];
  }
    where
      by_own :
          (bytes : Bytes) (ks : List Str) (j : Str) (b : Bool)
          → key ≡ bytes
          → map_get key (
              if b
              then map_delete key index.by_value
              else map_set key (set_delete k docs) index.by_value)
            ≡ some ks
          → contains ks j ≡ true
          → (e : Fields) × Held (j, e) (xs ++ ys) × HasKey index e bytes
      by_own bytes ks j true is_key h hj =
          let bad : none ≡ some ks = sym (map_get-delete_self key index.by_value) ∙ h in cc
      by_own bytes ks j false is_key h hj =
          let e : some (set_delete k docs) ≡ some ks =
            sym (map_get-set_self key (set_delete k docs) index.by_value) ∙ h in
          let same_docs : set_delete k docs ≡ ks = cc in
          let (other, there) =
            set_delete-contains k j docs (ap (λ m. contains m j) same_docs ∙ hj) in
          let (e, held, has) =
            l.keyed_held bytes docs j (ap (λ b. map_get b index.by_value) (sym is_key) ∙ hg)
              there in
          (e, still-Held j e other held, has)

      apart_map :
          (bytes : Bytes) (b : Bool)
          → str_eq key bytes ≡ false
          → map_get bytes (
              if b
              then map_delete key index.by_value
              else map_set key (set_delete k docs) index.by_value)
            ≡ map_get bytes index.by_value
      apart_map bytes true other = map_get-delete_ne bytes key index.by_value other
      apart_map bytes false other =
          map_get-set_ne bytes key (set_delete k docs) index.by_value other

      by_key :
          (bytes : Bytes) (ks : List Str) (j : Str)
          → (str_eq key bytes ≡ true) ⊎ (str_eq key bytes ≡ false)
          → (b : Bool)
          → map_get bytes (
              if b
              then map_delete key index.by_value
              else map_set key (set_delete k docs) index.by_value)
            ≡ some ks
          → contains ks j ≡ true
          → (e : Fields) × Held (j, e) (xs ++ ys) × HasKey index e bytes
      by_key bytes ks j (inl own) b h hj =
          let is_key : key ≡ bytes = str_eq→≡ key bytes own in
          by_own bytes ks j b is_key
            (ap
                (λ x. map_get x (
                  if b
                  then map_delete key index.by_value
                  else map_set key (set_delete k docs) index.by_value))
                is_key
              ∙ h)
            hj
      by_key bytes ks j (inr other) b h hj =
          let (e, held, (u, hu, eu)) =
            l.keyed_held bytes ks j (sym (apart_map bytes b other) ∙ h) hj in
          elim (Held-without xs ys (k, d) (j, e) held) [
            | inr rest ↦ (e, rest, (u, hu, eu))
            | inl same_entry ↦
                let same_doc : d ≡ e = ap (λ (x : Stored). x.1) same_entry in
                let same_field : found value ≡ found u =
                  sym hr ∙ ap (λ x. resolve_field x (segments_of index)) same_doc ∙ hu in
                let same_value : value ≡ u = cc in
                let same_bytes : ok key ≡ ok bytes =
                  sym hk ∙ ap encode_document_value same_value ∙ eu in
                let is_key : key ≡ bytes = cc in
                let own : str_eq key bytes ≡ true =
                  ap (str_eq key) (sym is_key) ∙ str_eq_refl key in
                let bad : true ≡ false = sym own ∙ other in cc
          ]

  abbrev without_missing : FieldIndex
  without_missing = record index {
    missing_docs = set_delete k index.missing_docs;
    indexed_documents = index.indexed_documents - 1;
  }

  -- The document lacks the field and is listed nowhere else.
  still_keyed :
      resolve_field d (segments_of index) ≡ missing
      → (bytes : Bytes) (ks : List Str) (j : Str) → map_get bytes index.by_value ≡ some ks
      → contains ks j ≡ true
      → (e : Fields) × Held (j, e) (xs ++ ys) × HasKey index e bytes
  still_keyed hr bytes ks j hg hj =
      let (e, held, (u, hu, eu)) = l.keyed_held bytes ks j hg hj in
      elim (Held-without xs ys (k, d) (j, e) held) [
        | inr rest ↦ (e, rest, (u, hu, eu))
        | inl same_entry ↦
            let same_doc : d ≡ e = ap (λ (x : Stored). x.1) same_entry in
            let bad : missing ≡ found u =
              sym hr ∙ ap (λ x. resolve_field x (segments_of index)) same_doc ∙ hu in
            cc
      ]

  absent-Lists :
      resolve_field d (segments_of index) ≡ missing → Lists spec without_missing (xs ++ ys)
  absent-Lists hr = record {
    same_spec = l.same_spec;
    covered =
        All-zip (λ entry. Covers index entry.0 entry.1)
          (λ (entry : Stored). str_eq k entry.0 ≡ false) _ (xs ++ ys)
          (λ entry cov other. record {
            keyed = cov.keyed;
            listed = cov.listed;
            absent = λ h sparse.
                contains-set_delete k entry.0 index.missing_docs other (cov.absent h sparse);
          })
          rest_covered others;
    keyed_held = still_keyed hr;
    missing_held = λ j h.
        let (other, there) = set_delete-contains k j index.missing_docs h in
        let (dense, (e, held, he)) = l.missing_held j there in
        (dense, (e, still-Held j e other held, he));
  }

  same-Lists :
      resolve_field d (segments_of index) ≡ missing
      → index.spec.sparse ≡ true
      → Lists spec index (xs ++ ys)
  same-Lists hr is_sparse = record {
    same_spec = l.same_spec;
    covered = rest_covered;
    keyed_held = still_keyed hr;
    missing_held = λ j h.
        let (dense, rest) = l.missing_held j h in
        let bad : true ≡ false = sym is_sparse ∙ dense in cc;
  }

  pub remove-Lists :
      (index' : FieldIndex) → remove k d index ≡ ok index' → Lists spec index' (xs ++ ys)
  unfolding remove
  remove-Lists index' h = elim (resolved_cases (resolve_field d (segments_of index))) [
    | inl hr ↦
        let h1 : ◌≡◌ {A = Throws FieldIndex}
            (ok (
              if not index.spec.sparse && contains index.missing_docs k
              then without_missing
              else index))
            (ok index') =
          rw (hr, remove) at h in
        by_sparse index.spec.sparse (contains index.missing_docs k) refl (own_covered.absent hr) hr
          h1
    | inr (value, hr) ↦
        let (key, hk, h1) =
          >>=-eq-ok (canonical_key value) (λ key. ok (remove_found k value key index))
            (rw (hr, remove) at h) in
        let is_index : remove_found k value key index ≡ index' = cc in
        let (docs, hg, has_key) = own_covered.listed value key hr hk in
        subst (λ i. Lists spec i (xs ++ ys))
          (sym (remove_found-shrunk k value key docs index hg has_key) ∙ is_index)
          (shrunk-Lists value key docs hr hk hg)
  ]
    where
      by_sparse :
          (b c : Bool)
          → index.spec.sparse ≡ b
          → (index.spec.sparse ≡ false → c ≡ true)
          → resolve_field d (segments_of index) ≡ missing
          → ◌≡◌ {A = Throws FieldIndex}
              (ok (if not b && c then without_missing else index))
              (ok index')
          → Lists spec index' (xs ++ ys)
      by_sparse true c s listed hr h1 =
          let e : index ≡ index' = cc in subst (λ i. Lists spec i (xs ++ ys)) e (same-Lists hr s)
      by_sparse false true s listed hr h1 =
          let e : without_missing ≡ index' = cc in
          subst (λ i. Lists spec i (xs ++ ys)) e (absent-Lists hr)
      by_sparse false false s listed hr h1 = let bad : false ≡ true = listed s in cc
