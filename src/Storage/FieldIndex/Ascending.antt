-- ===== src/Storage/FieldIndex/Ascending.antt =====
-- Inserting, removing and reading a range keep the sorted entries of an index of
-- packages/storage/src/indexing/field-index.ts sorted, and lose nothing else.
use mathlib.Core.Path.{subst}
use sinterdb.Prelude.{
  ℕ, ◌^◌, ◌<◌, ◌≡◌, refl, sym, ◌∙◌, inl, inr, Bool, true, false, some, List, [], ◌∷◌, ◌++◌, length,
  take, drop, All, take-append-drop,
}
use sinterdb.Protocol.Document.{Value}
use sinterdb.Storage.IndexValue.{
  ValueClass, value_class_of, OrderedEntry, is_below, is_at_most, lower_bound, upper_bound,
  splice_in,
}
use sinterdb.Storage.FieldIndex.Bisect.{lead, IsMonotone, bisect-lead, take-lead, drop-lead}
use sinterdb.Storage.FieldIndex.Entries.{
  Stands, AtMost, IsAscending, Occurs, Occurs-split, Occurs-left, Occurs-right, All-drop,
  AtMost-trans, AtMost-below, not_below-AtMost, below-AtMost,
}

module _ (c : ValueClass) (v : Value) (hv : value_class_of v ≡ some c) where
  failing_below :
      (e : OrderedEntry) (es : List OrderedEntry)
      → Stands c e
      → All (Stands c) es
      → All (λ (x : OrderedEntry). AtMost e.value x.value) es
      → is_below v e.value ≡ false
      → All (λ (x : OrderedEntry). is_below v x.value ≡ false) es
  failing_below e [] he hes all h = tt
  failing_below e (x ∷ es) he hes all h =
      (not_now (is_below v x.value) refl, failing_below e es he hes.1 all.1 h)
    where
      not_now : (b : Bool) → is_below v x.value ≡ b → b ≡ false
      not_now false k = refl
      not_now true k =
          let k' : is_below v e.value ≡ true =
            AtMost-below c e.value x.value v he.0 hes.0.0 hv all.0 k in
          let k'' : ◌≡◌ {A = Bool} true false = sym k' ∙ h in cc

  pub below-IsMonotone :
      (es : List OrderedEntry) → All (Stands c) es → IsAscending es → IsMonotone (is_below v) es
  below-IsMonotone [] hes asc = tt
  below-IsMonotone (e ∷ es) hes asc =
      (failing_below e es hes.0 hes.1 asc.0, below-IsMonotone es hes.1 asc.1)

  failing-AtMost :
      (e : OrderedEntry) (es : List OrderedEntry)
      → Stands c e
      → All (Stands c) es
      → All (λ (x : OrderedEntry). AtMost e.value x.value) es
      → is_at_most v e.value ≡ false
      → All (λ (x : OrderedEntry). is_at_most v x.value ≡ false) es
  failing-AtMost e [] he hes all h = tt
  failing-AtMost e (x ∷ es) he hes all h =
      (not_now (is_at_most v x.value) refl, failing-AtMost e es he hes.1 all.1 h)
    where
      not_now : (b : Bool) → is_at_most v x.value ≡ b → b ≡ false
      not_now false k = refl
      not_now true k =
          let k' : is_at_most v e.value ≡ true =
            AtMost-trans c e.value x.value v he.0 hes.0.0 hv all.0 k in
          let k'' : ◌≡◌ {A = Bool} true false = sym k' ∙ h in cc

  pub at_most-IsMonotone :
      (es : List OrderedEntry) → All (Stands c) es → IsAscending es → IsMonotone (is_at_most v) es
  at_most-IsMonotone [] hes asc = tt
  at_most-IsMonotone (e ∷ es) hes asc =
      (failing-AtMost e es hes.0 hes.1 asc.0, at_most-IsMonotone es hes.1 asc.1)

  -- The two searches, on sorted entries of one class.
  module _ (es : List OrderedEntry) (hes : All (Stands c) es) (asc : IsAscending es)
      (short : length es < 2 ^ 31) where
    pub lower_bound-lead : lower_bound es v ≡ lead (is_below v) es
    unfolding lower_bound
    lower_bound-lead = bisect-lead (is_below v) es (below-IsMonotone es hes asc) short

    pub upper_bound-lead : upper_bound es v ≡ lead (is_at_most v) es
    unfolding upper_bound
    upper_bound-lead = bisect-lead (is_at_most v) es (at_most-IsMonotone es hes asc) short

All-splice {κ} :
    (P : OrderedEntry → Type κ) (e : OrderedEntry) (xs ys : List OrderedEntry)
    → P e
    → All P (xs ++ ys)
    → All P (xs ++ e ∷ ys)
All-splice P e [] ys pe all = (pe, all)
All-splice P e (x ∷ xs) ys pe all = (all.0, All-splice P e xs ys pe all.1)

IsAscending-splice :
    (e : OrderedEntry) (xs ys : List OrderedEntry)
    → IsAscending (xs ++ ys)
    → All (λ (x : OrderedEntry). AtMost x.value e.value) xs
    → All (λ (y : OrderedEntry). AtMost e.value y.value) ys
    → IsAscending (xs ++ e ∷ ys)
IsAscending-splice e [] ys asc before behind = (behind, asc)
IsAscending-splice e (x ∷ xs) ys asc before behind = (
  All-splice (λ (y : OrderedEntry). AtMost x.value y.value) e xs ys before.0 asc.0,
  IsAscending-splice e xs ys asc.1 before.1 behind,
)

All-map {κ ι} :
    (P : OrderedEntry → Type κ) (Q : OrderedEntry → Type ι) (es : List OrderedEntry)
    → ((e : OrderedEntry) → P e → Q e)
    → All P es
    → All Q es
All-map P Q [] f all = tt
All-map P Q (e ∷ es) f all = (f e all.0, All-map P Q es f all.1)

All-both {κ ι} :
    (P : OrderedEntry → Type κ) (Q : OrderedEntry → Type ι) (es : List OrderedEntry)
    → All P es
    → All Q es
    → All (λ e. P e × Q e) es
All-both P Q [] all other = tt
All-both P Q (e ∷ es) all other = ((all.0, other.0), All-both P Q es all.1 other.1)

-- Inserting at the lower bound of the value.
module _ (c : ValueClass) (e : OrderedEntry) (he : Stands c e) (es : List OrderedEntry)
    (hes : All (Stands c) es) (asc : IsAscending es) (short : length es < 2 ^ 31) where
  pub inserted-Stands : All (Stands c) (splice_in (lower_bound es e.value) e es)
  inserted-Stands =
      All-splice (Stands c) e (take (lower_bound es e.value) es) (drop (lower_bound es e.value) es)
        he (subst (All (Stands c)) (sym (take-append-drop (lower_bound es e.value) es)) hes)

  pub inserted-IsAscending : IsAscending (splice_in (lower_bound es e.value) e es)
  inserted-IsAscending = rw (lower_bound-lead c e.value he.0 es hes asc short) (
      IsAscending-splice e (take n es) (drop n es)
        (subst IsAscending (sym (take-append-drop n es)) asc)
        (All-map (λ (x : OrderedEntry). is_below e.value x.value ≡ true)
          (λ (x : OrderedEntry). AtMost x.value e.value) (take n es)
          (λ x. below-AtMost c x.value e.value) (take-lead (is_below e.value) es))
        (All-map (λ (x : OrderedEntry). Stands c x × (is_below e.value x.value ≡ false))
          (λ (x : OrderedEntry). AtMost e.value x.value) (drop n es)
          (λ x h. not_below-AtMost c x.value e.value h.0.0 he.0 h.1)
          (All-both (Stands c) (λ (x : OrderedEntry). is_below e.value x.value ≡ false) (drop n es)
            (All-drop (Stands c) n es hes)
            (drop-lead (is_below e.value) es (below-IsMonotone c e.value he.0 es hes asc)))))
    where
      n : ℕ
      n = lead (is_below e.value) es

  pub inserted-Occurs_self : Occurs e (splice_in (lower_bound es e.value) e es)
  inserted-Occurs_self =
      Occurs-right e (take (lower_bound es e.value) es) (e ∷ drop (lower_bound es e.value) es)
        (inl refl)

pub splice-Occurs :
    (n : ℕ) (e x : OrderedEntry) (es : List OrderedEntry)
    → Occurs x es
    → Occurs x (splice_in n e es)
splice-Occurs n e x es h =
    elim (Occurs-split x (take n es) (drop n es)
      (subst (Occurs x) (sym (take-append-drop n es)) h)) [
        | inl k ↦ Occurs-left x (take n es) (e ∷ drop n es) k
        | inr k ↦ Occurs-right x (take n es) (e ∷ drop n es) (inr k)
      ]
