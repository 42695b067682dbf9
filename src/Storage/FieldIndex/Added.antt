-- ===== src/Storage/FieldIndex/Added.antt =====
-- `add` of packages/storage/src/indexing/field-index.ts, outside of bulk loading, keeps an index consistent
-- and covers one document more.
use mathlib.Core.Path.{subst}
use sinterdb.Prelude.{
  ℕ, ◌+◌, ◌^◌, ◌<◌, ◌≡◌, refl, sym, ap, ◌∙◌, true, false, Option, none, some, List, [], ◌∷◌, Bytes,
  Str, str_eq, str_eq→≡, ok, length, length-append, take, drop, take-append-drop, contains, All,
  Bool-cases, Option-cases, inl, inr, if◌then◌else◌, arith, str_eq_refl,
}
use sinterdb.Protocol.Document.{Value, Fields}
use sinterdb.Protocol.Encoder.{encode_document_value}
use sinterdb.Protocol.Canonical.{Lossless}
use sinterdb.Storage.Predicate.{found, missing, resolve_field}
use sinterdb.Storage.IndexValue.{
  ValueClass, class_eq, value_class_of, OrderedEntry, set_add, map_get, map_set, set_class,
  lower_bound, splice_in,
}
use sinterdb.Storage.FieldIndex.{FieldIndex, segments_of, is_array, insert_ordered, add_found}
use sinterdb.Storage.FieldIndex.Entries.{Stands, IsAscending, Occurs}
use sinterdb.Storage.FieldIndex.Ascending.{
  inserted-Stands, inserted-IsAscending, inserted-Occurs_self, splice-Occurs,
}
use sinterdb.Storage.FieldIndex.Range.{contains-set_add, contains-set_add_self}
use sinterdb.Storage.FieldIndex.Maps.{map_get-set_self, map_get-set_ne, class_eq→≡, class_eq_refl}
use sinterdb.Storage.FieldIndex.Invariant.{IsConsistent, Covers, same_class}

abbrev pub docs_after : Str → Option (List Str) → List Str
docs_after doc_key none = doc_key ∷ []
docs_after doc_key (some docs) = set_add doc_key docs

abbrev entry_of : Value → Bytes → OrderedEntry
entry_of value key = record { value = value; key = key }

abbrev pub Ordered : Type 0
Ordered = ValueClass → List OrderedEntry

abbrev with_entry : Value → Bytes → Option ValueClass → Ordered → Ordered
with_entry value key none ordered = ordered
with_entry value key (some c) ordered =
    set_class c (splice_in (lower_bound (ordered c) value) (entry_of value key) (ordered c)) ordered

abbrev ordered_after : Value → Bytes → Option (List Str) → Ordered → Ordered
ordered_after value key none ordered = with_entry value key (value_class_of value) ordered
ordered_after value key (some docs) ordered = ordered

-- The index after the map and the entries have changed.
abbrev pub grown : Str → Value → Bytes → FieldIndex → FieldIndex
grown doc_key value key index = record index {
  by_value = map_set key (docs_after doc_key (map_get key index.by_value)) index.by_value;
  ordered = ordered_after value key (map_get key index.by_value) index.ordered;
  array_values = if is_array value then index.array_values + 1 else index.array_values;
  indexed_documents = index.indexed_documents + 1;
}

pub add_found-grown :
    (doc_key : Str) (value : Value) (key : Bytes) (index : FieldIndex)
    → add_found doc_key value key false index ≡ grown doc_key value key index
unfolding add_found insert_ordered
add_found-grown doc_key value key index = elim (Option-cases (map_get key index.by_value)) [
  | inr (docs, e) ↦ rw (e, add_found) refl
  | inl e ↦ elim (Option-cases (value_class_of value)) [
    | inl f ↦ rw (e, f, add_found, insert_ordered) refl
    | inr (c, f) ↦ rw (e, f, add_found, insert_ordered) refl
  ]
]

pub set_class-elim {κ} :
    (P : ValueClass → List OrderedEntry → Type κ) (c : ValueClass) (entries : List OrderedEntry)
    (ordered : Ordered)
    → P c entries
    → ((d : ValueClass) → P d (ordered d))
    → (d : ValueClass) → P d (set_class c entries ordered d)
unfolding set_class
set_class-elim P c entries ordered new old d = elim (Bool-cases (class_eq c d)) [
  | inl e ↦ rw e (subst (λ k. P k entries) (class_eq→≡ c d e) new)
  | inr e ↦ rw e (old d)
]

length-splice_in :
    (n : ℕ) (e : OrderedEntry) (es : List OrderedEntry) → length (splice_in n e es) ≡ length es + 1
length-splice_in n e es = omega (
  arith,
  length-append (take n es) (e ∷ drop n es),
  length-append (take n es) (drop n es),
  ap (λ (l : List OrderedEntry). length l) (take-append-drop n es),
)

-- There is room for one entry more in every class.
abbrev pub HasRoom : FieldIndex → Type 0
HasRoom index = (c : ValueClass) → length (index.ordered c) + 1 < 2 ^ 31

module _ (index : FieldIndex) (o : IsConsistent index) (value : Value) (key : Bytes)
    (lossless : Lossless value) (encodes : encode_document_value value ≡ ok key)
    (room : HasRoom index) where
  abbrev IsGood : ValueClass → List OrderedEntry → Type 0
  IsGood d es = All (Stands d) es × IsAscending es × (length es < 2 ^ 31)

  old-IsGood : (d : ValueClass) → IsGood d (index.ordered d)
  old-IsGood d = (o.standing d, o.ascending d, o.short d)

  with_entry-IsGood :
      (k : Option ValueClass)
      → value_class_of value ≡ k
      → (d : ValueClass) → IsGood d (with_entry value key k index.ordered d)
  with_entry-IsGood none h d = old-IsGood d
  with_entry-IsGood (some c) h d =
      let stands : Stands c (entry_of value key) = (h, encodes, lossless) in
      set_class-elim IsGood c _ index.ordered
        (
          inserted-Stands c (entry_of value key) stands (index.ordered c) (o.standing c)
              (o.ascending c) (o.short c),
          inserted-IsAscending c (entry_of value key) stands (index.ordered c) (o.standing c)
              (o.ascending c) (o.short c),
          omega (
            arith,
            room c,
            length-splice_in (lower_bound (index.ordered c) value) (entry_of value key)
                (index.ordered c),
          ),
        )
        old-IsGood d

  ordered_after-IsGood :
      (m : Option (List Str)) (d : ValueClass)
      → IsGood d (ordered_after value key m index.ordered d)
  ordered_after-IsGood none d = with_entry-IsGood (value_class_of value) refl d
  ordered_after-IsGood (some docs) d = old-IsGood d

  with_entry-keeps :
      (k : Option ValueClass) (e : OrderedEntry) (d : ValueClass)
      → Occurs e (index.ordered d)
      → Occurs e (with_entry value key k index.ordered d)
  with_entry-keeps none e d h = h
  with_entry-keeps (some c) e d h =
      set_class-elim (λ k es. Occurs e (index.ordered k) → Occurs e es) c _ index.ordered
        (splice-Occurs (lower_bound (index.ordered c) value) (entry_of value key) e
          (index.ordered c))
        (λ k at_e. at_e) d h

  ordered_after-keeps :
      (m : Option (List Str)) (e : OrderedEntry) (d : ValueClass)
      → Occurs e (index.ordered d)
      → Occurs e (ordered_after value key m index.ordered d)
  ordered_after-keeps none e d h = with_entry-keeps (value_class_of value) e d h
  ordered_after-keeps (some docs) e d h = h

  new_entry :
      (c : ValueClass)
      → value_class_of value ≡ some c
      → Occurs (entry_of value key) (with_entry value key (value_class_of value) index.ordered c)
  unfolding set_class
  new_entry c h = rw h (
      rw (class_eq_refl c) (
        inserted-Occurs_self c (entry_of value key) (h, encodes, lossless) (index.ordered c)
          (o.standing c) (o.ascending c) (o.short c)))

  -- After the change every key of a class has an entry.
  placed_after :
      (m : Option (List Str)) (u : Value) (bytes : Bytes) (c : ValueClass) (docs docs' : List Str)
      → map_get key index.by_value ≡ m
      → Lossless u
      → encode_document_value u ≡ ok bytes
      → value_class_of u ≡ some c
      → map_get bytes (map_set key docs' index.by_value) ≡ some docs
      → (e : OrderedEntry) × Occurs e (ordered_after value key m index.ordered c) × (e.key ≡ bytes)
  placed_after m u bytes c docs docs' hm lu hu hc hg = elim (Bool-cases (str_eq key bytes)) [
    | inr other ↦
        let (e, at_e, is_key) =
          o.placed u bytes c docs lu hu hc
            (sym (map_get-set_ne bytes key docs' index.by_value other) ∙ hg) in
        (e, ordered_after-keeps m e c at_e, is_key)
    | inl own ↦ by_map m hm (str_eq→≡ key bytes own)
  ]
    where
      by_map :
          (m : Option (List Str))
          → map_get key index.by_value ≡ m
          → key ≡ bytes
          → (e : OrderedEntry) × Occurs e (ordered_after value key m index.ordered c)
            × (e.key ≡ bytes)
      by_map (some old) hm is_key =
          o.placed u bytes c old lu hu hc (ap (λ b. map_get b index.by_value) (sym is_key) ∙ hm)
      by_map none hm is_key =
          let same : value_class_of value ≡ some c =
            same_class value u bytes lossless lu (encodes ∙ ap (λ b. ok b) is_key) hu ∙ hc in
          (entry_of value key, new_entry c same, is_key)

  pub grown-IsConsistent : (doc_key : Str) → IsConsistent (grown doc_key value key index)
  grown-IsConsistent doc_key = record {
    standing = λ d. (ordered_after-IsGood (map_get key index.by_value) d).0;
    ascending = λ d. (ordered_after-IsGood (map_get key index.by_value) d).1;
    short = λ d. (ordered_after-IsGood (map_get key index.by_value) d).2;
    placed = λ u bytes c docs lu hu hc hg.
        placed_after (map_get key index.by_value) u bytes c docs
          (docs_after doc_key (map_get key index.by_value)) refl lu hu hc hg;
  }

docs_after-keeps :
    (doc_key j : Str) (m : Option (List Str)) (docs : List Str)
    → m ≡ some docs
    → contains docs j ≡ true
    → contains (docs_after doc_key m) j ≡ true
docs_after-keeps doc_key j none docs e h = cc
docs_after-keeps doc_key j (some ks) docs e h =
    let same : ks ≡ docs = cc in
    contains-set_add doc_key j ks (subst (λ l. contains l j ≡ true) (sym same) h)

docs_after_self :
    (doc_key : Str) (m : Option (List Str)) → contains (docs_after doc_key m) doc_key ≡ true
unfolding contains
docs_after_self doc_key none = rw (str_eq_refl doc_key) refl
docs_after_self doc_key (some ks) = contains-set_add_self doc_key ks

pub grown-Covers :
    (index : FieldIndex) (doc_key : Str) (value : Value) (key : Bytes) (j : Str) (d : Fields)
    → Covers index j d
    → Covers (grown doc_key value key index) j d
grown-Covers index doc_key value key j d cov = record {
  keyed = cov.keyed;
  absent = cov.absent;
  listed = λ u bytes hr hb.
      let (docs, hg, hj) = cov.listed u bytes hr hb in
      elim (Bool-cases (str_eq key bytes)) [
        | inr other ↦ (
          docs,
          map_get-set_ne bytes key (docs_after doc_key (map_get key index.by_value)) index.by_value
                other
              ∙ hg,
          hj,
        )
        | inl own ↦
            let is_key : key ≡ bytes = str_eq→≡ key bytes own in
            let there : map_get key index.by_value ≡ some docs =
              ap (λ b. map_get b index.by_value) is_key ∙ hg in
            (
              docs_after doc_key (map_get key index.by_value),
              subst
                  (λ b.
                    map_get b
                      (map_set key (docs_after doc_key (map_get key index.by_value)) index.by_value)
                    ≡ some (docs_after doc_key (map_get key index.by_value)))
                  is_key
                  (map_get-set_self key (docs_after doc_key (map_get key index.by_value))
                    index.by_value),
              docs_after-keeps doc_key j (map_get key index.by_value) docs there hj,
            )
      ];
}

pub grown-Covers_self :
    (index : FieldIndex) (doc_key : Str) (doc : Fields) (value : Value) (key : Bytes)
    → resolve_field doc (segments_of index) ≡ found value
    → encode_document_value value ≡ ok key
    → Covers (grown doc_key value key index) doc_key doc
grown-Covers_self index doc_key doc value key hr hk = record {
  keyed = λ u h.
      let same : value ≡ u = let e : found value ≡ found u = sym hr ∙ h in cc in
      (key, ap encode_document_value (sym same) ∙ hk);
  absent = λ h sparse. let e : found value ≡ missing = sym hr ∙ h in cc;
  listed = λ u bytes h hb.
      let same : value ≡ u = let e : found value ≡ found u = sym hr ∙ h in cc in
      let is_key : key ≡ bytes =
        let e : ok key ≡ ok bytes = sym hk ∙ ap encode_document_value same ∙ hb in cc in
      (
        docs_after doc_key (map_get key index.by_value),
        subst
            (λ b.
              map_get b
                (map_set key (docs_after doc_key (map_get key index.by_value)) index.by_value)
              ≡ some (docs_after doc_key (map_get key index.by_value)))
            is_key
            (map_get-set_self key (docs_after doc_key (map_get key index.by_value)) index.by_value),
        docs_after_self doc_key (map_get key index.by_value),
      );
}
