-- ===== src/Storage/FieldIndex/Range.antt =====
-- `lookupRange` of packages/storage/src/indexing/field-index.ts: what lies within the bounds is read.
use mathlib.Core.Path.{subst}
use sinterdb.Prelude.{
  ℕ, ◌+◌, ◌-◌, ◌^◌, ◌<◌, ◌≡◌, refl, sym, ap, ◌∙◌, inl, inr, Bool, true, false, Option, none, some,
  List, [], ◌∷◌, ◌++◌, Str, length, take, drop, arith, if◌then◌else◌, Bool-cases, Option-cases, All,
  take-append-drop, drop-drop, drop-append_self, str_eq, str_eq→≡, str_eq_refl, append-nil,
  contains,
}
use sinterdb.Protocol.Document.{Value}
use sinterdb.Storage.IndexValue.{
  ValueClass, value_class_of, OrderedEntry, IndexBound, KeyMap, is_below, is_at_most, set_add,
  map_get,
}
use sinterdb.Storage.FieldIndex.{range_start, range_end, add_all, collect_keys}
use sinterdb.Storage.FieldIndex.Bisect.{take-lead, drop-lead}
use sinterdb.Storage.FieldIndex.Entries.{
  Stands, IsAscending, Occurs, All-Occurs, Occurs-split, All-drop,
}
use sinterdb.Storage.FieldIndex.Ascending.{
  below-IsMonotone, at_most-IsMonotone, lower_bound-lead, upper_bound-lead,
}

-- What is not before the start and not from the end on lies between them.
between :
    (P Q : OrderedEntry → Type 0) (start stop : ℕ) (e : OrderedEntry) (es : List OrderedEntry)
    → Occurs e es
    → All P (take start es)
    → ¬ P e
    → All Q (drop stop es)
    → ¬ Q e
    → Occurs e (take (stop - start) (drop start es))
between P Q start stop e es h before not_p behind not_q =
    elim (Occurs-split e (take start es) (drop start es)
      (subst (Occurs e) (sym (take-append-drop start es)) h)) [
        | inl k ↦ absurd (not_p (All-Occurs P e (take start es) before k))
        | inr k ↦
            elim (Occurs-split e (take (stop - start) (drop start es))
              (drop (stop - start) (drop start es))
              (subst (Occurs e) (sym (take-append-drop (stop - start) (drop start es))) k)) [
                | inl inside ↦ inside
                | inr after ↦
                    absurd (not_q (All-Occurs Q e (drop (stop - start) (drop start es)) rest after))
              ]
      ]
  where
    same_place : drop (stop - start) (drop start es) ≡ drop (start - stop) (drop stop es)
    same_place =
        let e1 : start + (stop - start) ≡ stop + (start - stop) = omega arith in
        drop-drop start (stop - start) es
        ∙ ap (λ n. drop n es) e1
        ∙ sym (drop-drop stop (start - stop) es)

    rest : All Q (drop (stop - start) (drop start es))
    rest = subst (All Q) (sym same_place) (All-drop Q (start - stop) (drop stop es) behind)

-- A value lies within a bound of its class.
abbrev pub WithinLower : ValueClass → Option IndexBound → Value → Type 0
WithinLower c none v = Unit
WithinLower c (some b) v =
    (value_class_of b.value ≡ some c)
    × ((if b.inclusive then is_below b.value v else is_at_most b.value v) ≡ false)

abbrev pub WithinUpper : ValueClass → Option IndexBound → Value → Type 0
WithinUpper c none v = Unit
WithinUpper c (some b) v =
    (value_class_of b.value ≡ some c)
    × ((if b.inclusive then is_at_most b.value v else is_below b.value v) ≡ true)

module _ (c : ValueClass) (es : List OrderedEntry) (hes : All (Stands c) es) (asc : IsAscending es)
    (short : length es < 2 ^ 31) where
  abbrev Cut : Type 1
  Cut = OrderedEntry → Type 0

  lower_cut :
      (low : Option IndexBound) (e : OrderedEntry)
      → WithinLower c low e.value
      → (P : Cut) × All P (take (range_start es low) es) × (¬ P e)
  unfolding range_start
  lower_cut none e h = (λ x. ⊥, tt, λ p. p)
  lower_cut (some b) e h = elim (Bool-cases b.inclusive) [
    | inl i ↦ rw i (
      λ x. is_below b.value x.value ≡ true,
      rw (lower_bound-lead c b.value h.0 es hes asc short) (take-lead (is_below b.value) es),
      λ p.
          let no_p : is_below b.value e.value ≡ false = rw i at (h.1) in
          let bad : ◌≡◌ {A = Bool} true false = sym p ∙ no_p in cc,
    )
    | inr i ↦ rw i (
      λ x. is_at_most b.value x.value ≡ true,
      rw (upper_bound-lead c b.value h.0 es hes asc short) (take-lead (is_at_most b.value) es),
      λ p.
          let no_p : is_at_most b.value e.value ≡ false = rw i at (h.1) in
          let bad : ◌≡◌ {A = Bool} true false = sym p ∙ no_p in cc,
    )
  ]

  upper_cut :
      (high : Option IndexBound) (e : OrderedEntry)
      → WithinUpper c high e.value
      → (Q : Cut) × All Q (drop (range_end es high) es) × (¬ Q e)
  unfolding range_end
  upper_cut none e h =
      let nothing : drop (length es) es ≡ [] =
        ap (λ l. drop (length es) l) (sym (append-nil es)) ∙ drop-append_self es [] in
      (λ x. ⊥, subst (All (λ x. ⊥)) (sym nothing) tt, λ p. p)
  upper_cut (some b) e h = elim (Bool-cases b.inclusive) [
    | inl i ↦ rw i (
      λ x. is_at_most b.value x.value ≡ false,
      rw (upper_bound-lead c b.value h.0 es hes asc short)
          (drop-lead (is_at_most b.value) es (at_most-IsMonotone c b.value h.0 es hes asc)),
      λ p.
          let no_p : is_at_most b.value e.value ≡ true = rw i at (h.1) in
          let bad : ◌≡◌ {A = Bool} true false = sym no_p ∙ p in cc,
    )
    | inr i ↦ rw i (
      λ x. is_below b.value x.value ≡ false,
      rw (lower_bound-lead c b.value h.0 es hes asc short)
          (drop-lead (is_below b.value) es (below-IsMonotone c b.value h.0 es hes asc)),
      λ p.
          let no_p : is_below b.value e.value ≡ true = rw i at (h.1) in
          let bad : ◌≡◌ {A = Bool} true false = sym no_p ∙ p in cc,
    )
  ]

  pub range-Occurs :
      (low high : Option IndexBound) (e : OrderedEntry)
      → Occurs e es
      → WithinLower c low e.value
      → WithinUpper c high e.value
      → Occurs e (take (range_end es high - range_start es low) (drop (range_start es low) es))
  range-Occurs low high e at_e hl hu =
      let (P, before, not_p) = lower_cut low e hl in
      let (Q, behind, not_q) = upper_cut high e hu in
      between P Q (range_start es low) (range_end es high) e es at_e before not_p behind not_q

pub contains-append :
    (xs ys : List Str) (k : Str) → contains xs k ≡ true → contains (xs ++ ys) k ≡ true
unfolding contains
contains-append [] ys k h = cc
contains-append (x ∷ xs) ys k h = ground (arith, contains-append xs ys k)

contains-append_self : (xs : List Str) (k : Str) → contains (xs ++ k ∷ []) k ≡ true
unfolding contains
contains-append_self [] k = rw (str_eq_refl k) refl
contains-append_self (x ∷ xs) k = ground (arith, contains-append_self xs k)

pub contains-set_add :
    (j k : Str) (ks : List Str) → contains ks k ≡ true → contains (set_add j ks) k ≡ true
unfolding set_add
contains-set_add j k ks h = ground (arith, contains-append ks (j ∷ []) k)

pub contains-set_add_self : (k : Str) (ks : List Str) → contains (set_add k ks) k ≡ true
unfolding set_add
contains-set_add_self k ks = ground (arith, contains-append_self ks k)

pub contains-add_all :
    (js : List Str) (k : Str) (ks : List Str)
    → contains ks k ≡ true
    → contains (add_all js ks) k ≡ true
unfolding add_all
contains-add_all [] k ks h = h
contains-add_all (j ∷ js) k ks h = contains-add_all js k (set_add j ks) (contains-set_add j k ks h)

pub contains-add_all_self :
    (js : List Str) (k : Str) (ks : List Str)
    → contains js k ≡ true
    → contains (add_all js ks) k ≡ true
unfolding add_all contains
contains-add_all_self [] k ks h = cc
contains-add_all_self (j ∷ js) k ks h = elim (Bool-cases (str_eq j k)) [
  | inl e ↦ contains-add_all js k (set_add j ks) (
      subst (λ i. contains (set_add i ks) k ≡ true) (sym (str_eq→≡ j k e))
        (contains-set_add_self k ks))
  | inr e ↦ contains-add_all_self js k (set_add j ks) (rw e at h)
]

step_keys : KeyMap → OrderedEntry → List Str → List Str
step_keys m entry result = elim (map_get entry.key m) [
  | none ↦ result
  | some docs ↦ add_all docs result
]

step_keys-keeps :
    (m : KeyMap) (x : OrderedEntry) (result : List Str) (k : Str)
    → contains result k ≡ true
    → contains (step_keys m x result) k ≡ true
unfolding step_keys
step_keys-keeps m x result k h = elim (Option-cases (map_get x.key m)) [
  | inl e ↦ rw (e, step_keys) h
  | inr (docs, e) ↦ rw (e, step_keys) (contains-add_all docs k result h)
]

collect_keys-keeps :
    (m : KeyMap) (es : List OrderedEntry) (result : List Str) (k : Str)
    → contains result k ≡ true
    → contains (collect_keys m es result) k ≡ true
unfolding collect_keys step_keys
collect_keys-keeps m [] result k h = h
collect_keys-keeps m (x ∷ es) result k h =
    collect_keys-keeps m es (step_keys m x result) k (step_keys-keeps m x result k h)

-- The documents of every entry that is read are collected.
pub collect_keys-contains :
    (m : KeyMap) (e : OrderedEntry) (docs : List Str) (es : List OrderedEntry) (result : List Str)
    (k : Str)
    → Occurs e es
    → map_get e.key m ≡ some docs
    → contains docs k ≡ true
    → contains (collect_keys m es result) k ≡ true
unfolding collect_keys step_keys
collect_keys-contains m e docs [] result k at_e hg hk = elim at_e [ ]
collect_keys-contains m e docs (x ∷ es) result k (inl is_e) hg hk =
    let hg' : map_get x.key m ≡ some docs = ap (λ (y : OrderedEntry). map_get y.key m) is_e ∙ hg in
    let now : contains (step_keys m x result) k ≡ true =
      rw (hg', step_keys) (contains-add_all_self docs k result hk) in
    collect_keys-keeps m es (step_keys m x result) k now
collect_keys-contains m e docs (x ∷ es) result k (inr later) hg hk =
    collect_keys-contains m e docs es (step_keys m x result) k later hg hk
