-- ===== src/Storage/FieldIndex/Listing.antt =====
-- Which documents an index of packages/storage/src/indexing/field-index.ts lists: those that it is to hold
-- under the keys of their fields, and no other.
use sinterdb.Prelude.{
  ◌≡◌, refl, sym, ap, ◌∙◌, ◌⊎◌, inl, inr, Bool, true, false, Option, none, some, Option-cases,
  Bool-cases, List, [], ◌∷◌, ◌++◌, Bytes, Str, str_eq, str_eq→≡, ok, contains, All,
}
use sinterdb.Protocol.Document.{Value, Fields}
use sinterdb.Protocol.Encoder.{encode_document_value}
use sinterdb.Storage.Predicate.{found, missing, resolve_field}
use sinterdb.Storage.IndexSpec.{IndexSpec, split}
use sinterdb.Storage.IndexValue.{map_get, set_add, set_delete, value_class_of}
use sinterdb.Storage.FieldIndex.{FieldIndex, segments_of, new_index, insert_ordered, add_found}
use sinterdb.Storage.FieldIndex.Invariant.{Covers}
use sinterdb.Storage.FieldIndex.Added.{docs_after, grown}
use sinterdb.Storage.FieldIndex.Tracks.{Stored, All-stored}

abbrev pub Held : Stored → List Stored → Type 0
Held entry [] = ⊥
Held entry (x ∷ docs) = (x ≡ entry) ⊎ Held entry docs

abbrev pub HasKey : FieldIndex → Fields → Bytes → Type 0
HasKey index d bytes =
    (u : Value) × (resolve_field d (segments_of index) ≡ found u)
    × (encode_document_value u ≡ ok bytes)

-- What the map and the set list is held, and what is held is listed.
pub record Lists (spec : IndexSpec) (index : FieldIndex) (docs : List Stored) : Type 0 where
  pub same_spec : index.spec ≡ spec
  pub covered : All (λ (entry : Stored). Covers index entry.0 entry.1) docs
  pub keyed_held :
      (bytes : Bytes) (ks : List Str) (j : Str)
      → map_get bytes index.by_value ≡ some ks
      → contains ks j ≡ true
      → (d : Fields) × Held (j, d) docs × HasKey index d bytes
  pub missing_held :
      (j : Str)
      → contains index.missing_docs j ≡ true
      → (index.spec.sparse ≡ false)
        × ((d : Fields) × Held (j, d) docs × (resolve_field d (segments_of index) ≡ missing))

pub new_index-Lists : (spec : IndexSpec) → Lists spec (new_index spec) []
unfolding new_index map_get contains
new_index-Lists spec = record {
  same_spec = refl;
  covered = tt;
  keyed_held = λ bytes ks j hg hj. cc;
  missing_held = λ j h. cc;
}

-- Indexes with one definition and one set of lists; their sorted entries may differ.
abbrev pub Alike : FieldIndex → FieldIndex → Type 0
Alike i j = (i.spec ≡ j.spec) × (i.by_value ≡ j.by_value) × (i.missing_docs ≡ j.missing_docs)

module _ (i i' : FieldIndex) (alike : Alike i i') where
  pub same_field : (d : Fields) → resolve_field d (segments_of i) ≡ resolve_field d (segments_of i')
  same_field d = ap (λ (s : IndexSpec). resolve_field d (split s.path)) alike.0

  Covers-Alike : (k : Str) (d : Fields) → Covers i k d → Covers i' k d
  Covers-Alike k d cov = record {
    keyed = λ u h. cov.keyed u (same_field d ∙ h);
    listed = λ u bytes h hb.
        let (docs, hg, hk) = cov.listed u bytes (same_field d ∙ h) hb in
        (docs, ap (map_get bytes) (sym alike.1) ∙ hg, hk);
    absent = λ h sparse.
        ap (λ l. contains l k) (sym alike.2)
        ∙ cov.absent (same_field d ∙ h) (ap (λ (s : IndexSpec). s.sparse) alike.0 ∙ sparse);
  }

  pub Lists-Alike : (spec : IndexSpec) (docs : List Stored) → Lists spec i docs → Lists spec i' docs
  Lists-Alike spec docs l = record {
    same_spec = sym alike.0 ∙ l.same_spec;
    covered =
        All-stored (λ entry. Covers i entry.0 entry.1) (λ entry. Covers i' entry.0 entry.1) docs
          (λ entry cov. Covers-Alike entry.0 entry.1 cov) l.covered;
    keyed_held = λ bytes ks j hg hj.
        let (d, held, (u, hu, eu)) = l.keyed_held bytes ks j (ap (map_get bytes) alike.1 ∙ hg) hj in
        (d, held, (u, sym (same_field d) ∙ hu, eu));
    missing_held = λ j h.
        let (dense, (d, held, hd)) = l.missing_held j (ap (λ m. contains m j) alike.2 ∙ h) in
        (
          ap (λ (s : IndexSpec). s.sparse) (sym alike.0) ∙ dense,
          (d, held, sym (same_field d) ∙ hd),
        );
  }

pub add_found-Alike :
    (k : Str) (value : Value) (key : Bytes) (bulk : Bool) (index : FieldIndex)
    → Alike (grown k value key index) (add_found k value key bulk index)
unfolding add_found insert_ordered
add_found-Alike k value key bulk index = elim (Option-cases (map_get key index.by_value)) [
  | inr (docs, e) ↦ rw (e, add_found) (refl, refl, refl)
  | inl e ↦ elim (Option-cases (value_class_of value)) [
    | inl f ↦ rw (e, f, add_found, insert_ordered) (refl, refl, refl)
    | inr (c, f) ↦ by_bulk c bulk e f
  ]
]
  where
    by_bulk :
        (c : _) (bulk : Bool)
        → map_get key index.by_value ≡ none
        → value_class_of value ≡ some c
        → Alike (grown k value key index) (add_found k value key bulk index)
    by_bulk c true e f = rw (e, f, add_found, insert_ordered) (refl, refl, refl)
    by_bulk c false e f = rw (e, f, add_found, insert_ordered) (refl, refl, refl)

contains_append :
    (ks : List Str) (k j : Str)
    → contains (ks ++ k ∷ []) j ≡ true
    → (str_eq k j ≡ true) ⊎ (contains ks j ≡ true)
unfolding contains
contains_append [] k j h = elim (Bool-cases (str_eq k j)) [
  | inl e ↦ inl e
  | inr e ↦ let h' : false ≡ true = rw e at h in cc
]
contains_append (x ∷ ks) k j h = elim (Bool-cases (str_eq x j)) [
  | inl e ↦ inr (rw e refl)
  | inr e ↦ elim (contains_append ks k j (rw e at h)) [ inl m ↦ inl m | inr m ↦ inr (rw e m) ]
]

pub set_add-contains :
    (k j : Str) (ks : List Str)
    → contains (set_add k ks) j ≡ true
    → (str_eq k j ≡ true) ⊎ (contains ks j ≡ true)
unfolding set_add
set_add-contains k j ks h = elim (Bool-cases (contains ks k)) [
  | inl e ↦ inr (rw (e, set_add) at h)
  | inr e ↦ contains_append ks k j (rw (e, set_add) at h)
]

pub docs_after-contains :
    (k j : Str) (o : Option (List Str))
    → contains (docs_after k o) j ≡ true
    → (str_eq k j ≡ true) ⊎ ((ks : List Str) × (o ≡ some ks) × (contains ks j ≡ true))
unfolding contains
docs_after-contains k j none h = elim (contains_append [] k j h) [
  | inl e ↦ inl e
  | inr e ↦ inl (not_in e)
]
  where
    not_in : contains [] j ≡ true → str_eq k j ≡ true
    not_in e = cc
docs_after-contains k j (some ks) h = elim (set_add-contains k j ks h) [
  | inl e ↦ inl e
  | inr e ↦ inr (ks, refl, e)
]

pub set_delete-contains :
    (k j : Str) (ks : List Str)
    → contains (set_delete k ks) j ≡ true
    → (str_eq k j ≡ false) × (contains ks j ≡ true)
unfolding set_delete contains
set_delete-contains k j [] h = cc
set_delete-contains k j (x ∷ ks) h = elim (Bool-cases (str_eq x k)) [
  | inl e ↦
      let (other, there) = set_delete-contains k j ks (rw e at h) in
      (other, rw (ap (λ y. str_eq y j) (str_eq→≡ x k e) ∙ other) there)
  | inr e ↦ elim (Bool-cases (str_eq x j)) [
    | inl f ↦ (
      elim (Bool-cases (str_eq k j)) [
        | inr g ↦ g
        | inl g ↦
            let bad : str_eq x k ≡ true = ap (str_eq x) (str_eq→≡ k j g) ∙ f in
            let bad' : true ≡ false = sym bad ∙ e in cc
      ],
      rw f refl,
    )
    | inr f ↦
        let (other, there) = set_delete-contains k j ks (rw f at (rw e at h)) in (other, rw f there)
  ]
]
