-- ===== src/Storage/FieldIndex/Removed.antt =====
-- `remove` of packages/storage/src/indexing/field-index.ts keeps an index consistent and covers the other
-- documents as before.
use mathlib.Core.Path.{subst}
use sinterdb.Prelude.{
  ℕ, ◌-◌, ◌^◌, ◌<◌, ◌≡◌, refl, sym, ap, ◌∙◌, Bool, true, false, Option, none, some, List, ◌++◌,
  Bytes, Str, str_eq, str_eq→≡, ok, length, length-append, take, drop, take-append-drop, contains,
  All, Bool-cases, Option-cases, inl, inr, if◌then◌else◌, arith, str_eq_refl, ◌==◌,
}
use sinterdb.Protocol.Document.{Value, Fields}
use sinterdb.Protocol.Encoder.{encode_document_value}
use sinterdb.Protocol.Canonical.{Lossless}
use sinterdb.Storage.IndexValue.{
  ValueClass, value_class_of, OrderedEntry, KeyMap, set_delete, map_get, map_set, map_delete,
  set_class, lower_bound,
}
use sinterdb.Storage.FieldIndex.{FieldIndex, is_array, remove_run, remove_ordered, remove_found}
use sinterdb.Storage.FieldIndex.Entries.{
  Stands, IsAscending, Occurs, Occurs-split, Occurs-left, Occurs-right,
}
use sinterdb.Storage.FieldIndex.Maps.{
  map_get-set_self, map_get-set_ne, map_get-delete_ne, map_get-delete_self, contains-set_delete,
  empty-contains,
}
use sinterdb.Storage.FieldIndex.Added.{Ordered, set_class-elim}
use sinterdb.Storage.FieldIndex.Invariant.{IsConsistent, Covers}
use sinterdb.Storage.FieldIndex.Runs.{All-tail, IsAscending-tail, length-run, Occurs-run}

abbrev without_entry : Value → Bytes → Option ValueClass → Ordered → Ordered
without_entry value key none ordered = ordered
without_entry value key (some c) ordered =
    set_class c
      (take (lower_bound (ordered c) value) (ordered c)
        ++ remove_run value key (drop (lower_bound (ordered c) value) (ordered c)))
      ordered

-- The index after a document has left the set of a key, of which `left` is left.
abbrev pub shrunk : Value → Bytes → List Str → FieldIndex → FieldIndex
shrunk value key left index = record index {
  by_value =
      if length left == 0 then map_delete key index.by_value else map_set key left index.by_value;
  ordered =
      if length left == 0
      then without_entry value key (value_class_of value) index.ordered
      else index.ordered;
  array_values = if is_array value then index.array_values - 1 else index.array_values;
  indexed_documents = index.indexed_documents - 1;
}

pub remove_found-shrunk :
    (doc_key : Str) (value : Value) (key : Bytes) (docs : List Str) (index : FieldIndex)
    → map_get key index.by_value ≡ some docs
    → contains docs doc_key ≡ true
    → remove_found doc_key value key index ≡ shrunk value key (set_delete doc_key docs) index
unfolding remove_found remove_ordered
remove_found-shrunk doc_key value key docs index hg hk =
    elim (Bool-cases (length (set_delete doc_key docs) == 0)) [
      | inr e ↦ rw (hg, hk, e, remove_found) refl
      | inl e ↦ elim (Option-cases (value_class_of value)) [
        | inl f ↦ rw (hg, hk, e, f, remove_found, remove_ordered) refl
        | inr (c, f) ↦ rw (hg, hk, e, f, remove_found, remove_ordered) refl
      ]
    ]

module _ (index : FieldIndex) (o : IsConsistent index) (value : Value) (key : Bytes) where
  abbrev IsGood : ValueClass → List OrderedEntry → Type 0
  IsGood d es = All (Stands d) es × IsAscending es × (length es < 2 ^ 31)

  without_entry-IsGood :
      (k : Option ValueClass) (d : ValueClass)
      → IsGood d (without_entry value key k index.ordered d)
  without_entry-IsGood none d = (o.standing d, o.ascending d, o.short d)
  without_entry-IsGood (some c) d =
      set_class-elim IsGood c _ index.ordered
        (
          All-tail (Stands c) value key (take n es) (drop n es)
              (subst (All (Stands c)) (sym whole) (o.standing c)),
          IsAscending-tail value key (take n es) (drop n es)
              (subst IsAscending (sym whole) (o.ascending c)),
          omega (
            arith,
            o.short c,
            length-append (take n es) (remove_run value key (drop n es)),
            length-append (take n es) (drop n es),
            ap (λ (l : List OrderedEntry). length l) whole,
            length-run value key (drop n es),
          ),
        )
        (λ e. (o.standing e, o.ascending e, o.short e)) d
    where
      es : List OrderedEntry
      es = index.ordered c

      n : ℕ
      n = lower_bound (index.ordered c) value

      whole : take n es ++ drop n es ≡ es
      whole = take-append-drop n es

  without_entry-keeps :
      (k : Option ValueClass) (e : OrderedEntry) (d : ValueClass)
      → str_eq e.key key ≡ false
      → Occurs e (index.ordered d)
      → Occurs e (without_entry value key k index.ordered d)
  without_entry-keeps none e d other h = h
  without_entry-keeps (some c) e d other h =
      set_class-elim (λ k es. Occurs e (index.ordered k) → Occurs e es) c _ index.ordered
        (λ at_e.
          elim (Occurs-split e (take n es) (drop n es)
            (subst (Occurs e) (sym (take-append-drop n es)) at_e)) [
              | inl k ↦ Occurs-left e (take n es) (remove_run value key (drop n es)) k
              | inr k ↦
                  Occurs-right e (take n es) (remove_run value key (drop n es))
                    (Occurs-run value key e (drop n es) other k)
            ])
        (λ k at_e. at_e) d h
    where
      es : List OrderedEntry
      es = index.ordered c

      n : ℕ
      n = lower_bound (index.ordered c) value

  placed_shrunk :
      (b : Bool) (u : Value) (bytes : Bytes) (c : ValueClass) (old docs left : List Str)
      → map_get key index.by_value ≡ some old
      → Lossless u
      → encode_document_value u ≡ ok bytes
      → value_class_of u ≡ some c
      → map_get bytes (if b then map_delete key index.by_value else map_set key left index.by_value)
        ≡ some docs
      → (e : OrderedEntry) × Occurs e (
          (if b
              then without_entry value key (value_class_of value) index.ordered
              else index.ordered)
            c)
        × (e.key ≡ bytes)
  placed_shrunk true u bytes c old docs left hm lu hu hc hg = elim (Bool-cases (str_eq key bytes)) [
    | inl own ↦
        let gone : none ≡ some docs =
          sym (map_get-delete_self key index.by_value)
          ∙ ap (λ b. map_get b (map_delete key index.by_value)) (str_eq→≡ key bytes own)
          ∙ hg in
        cc
    | inr other ↦
        let (e, at_e, is_key) =
          o.placed u bytes c docs lu hu hc
            (sym (map_get-delete_ne bytes key index.by_value other) ∙ hg) in
        (
          e,
          without_entry-keeps (value_class_of value) e c
              (differ e is_key (str_eq e.key key) refl other) at_e,
          is_key,
        )
  ]
    where
      differ :
          (e : OrderedEntry)
          → e.key ≡ bytes
          → (b : Bool) → str_eq e.key key ≡ b
          → str_eq key bytes ≡ false
          → b ≡ false
      differ e is_key false h other = refl
      differ e is_key true h other =
          let same : key ≡ bytes = sym (str_eq→≡ e.key key h) ∙ is_key in
          let bad : ◌≡◌ {A = Bool} true false =
            sym (str_eq_refl key) ∙ ap (str_eq key) same ∙ other in
          cc
  placed_shrunk false u bytes c old docs left hm lu hu hc hg =
      elim (Bool-cases (str_eq key bytes)) [
        | inl own ↦
            o.placed u bytes c old lu hu hc
              (ap (λ b. map_get b index.by_value) (sym (str_eq→≡ key bytes own)) ∙ hm)
        | inr other ↦
            o.placed u bytes c docs lu hu hc
              (sym (map_get-set_ne bytes key left index.by_value other) ∙ hg)
      ]

  IsGood-shrunk :
      (b : Bool) (d : ValueClass)
      → IsGood d (
          (if b
              then without_entry value key (value_class_of value) index.ordered
              else index.ordered)
            d)
  IsGood-shrunk true d = without_entry-IsGood (value_class_of value) d
  IsGood-shrunk false d = (o.standing d, o.ascending d, o.short d)

  pub shrunk-IsConsistent :
      (docs left : List Str)
      → map_get key index.by_value ≡ some docs
      → IsConsistent (shrunk value key left index)
  shrunk-IsConsistent docs left hm = record {
    standing = λ d. (IsGood-shrunk (length left == 0) d).0;
    ascending = λ d. (IsGood-shrunk (length left == 0) d).1;
    short = λ d. (IsGood-shrunk (length left == 0) d).2;
    placed = λ u bytes c ds lu hu hc hg.
        placed_shrunk (length left == 0) u bytes c docs ds left hm lu hu hc hg;
  }

listed_shrunk :
    (key bytes : Bytes) (m : KeyMap) (left old docs : List Str) (j : Str)
    → map_get key m ≡ some old
    → (contains old j ≡ true → contains left j ≡ true)
    → map_get bytes m ≡ some docs
    → contains docs j ≡ true
    → (ds : List Str) × (map_get bytes
          (if length left == 0 then map_delete key m else map_set key left m)
        ≡ some ds)
      × (contains ds j ≡ true)
listed_shrunk key bytes m left old docs j hm keeps hg hj = elim (Bool-cases (str_eq key bytes)) [
  | inr other ↦ elim (Bool-cases (length left == 0)) [
    | inl e ↦ (docs, rw e (map_get-delete_ne bytes key m other ∙ hg), hj)
    | inr e ↦ (docs, rw e (map_get-set_ne bytes key left m other ∙ hg), hj)
  ]
  | inl own ↦
      let is_key : key ≡ bytes = str_eq→≡ key bytes own in
      let same : old ≡ docs =
        let e : some old ≡ some docs = sym hm ∙ ap (λ b. map_get b m) is_key ∙ hg in cc in
      let in_left : contains left j ≡ true =
        keeps (subst (λ l. contains l j ≡ true) (sym same) hj) in
      elim (Bool-cases (length left == 0)) [
        | inl e ↦ let bad : ◌≡◌ {A = Bool} true false = sym in_left ∙ empty-contains left j e in cc
        | inr e ↦ (
          left,
          rw e (
              subst (λ b. map_get b (map_set key left m) ≡ some left) is_key
                (map_get-set_self key left m)),
          in_left,
        )
      ]
]

pub shrunk-Covers :
    (index : FieldIndex) (doc_key j : Str) (d : Fields) (value : Value) (key : Bytes)
    (docs : List Str)
    → map_get key index.by_value ≡ some docs
    → str_eq doc_key j ≡ false
    → Covers index j d
    → Covers (shrunk value key (set_delete doc_key docs) index) j d
shrunk-Covers index doc_key j d value key docs hm other cov = record {
  keyed = cov.keyed;
  absent = cov.absent;
  listed = λ u bytes hr hb.
      let (ds, hg, hj) = cov.listed u bytes hr hb in
      listed_shrunk key bytes index.by_value (set_delete doc_key docs) docs ds j hm
        (contains-set_delete doc_key j docs other) hg hj;
}
