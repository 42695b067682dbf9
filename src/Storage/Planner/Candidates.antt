-- ===== src/Storage/Planner/Candidates.antt =====
-- The candidates of one index's plans in packages/storage/src/indexing/planner.ts.
use mathlib.Core.Path.{subst}
use sinterdb.Prelude.{
  ℕ, ◌≡◌, refl, inl, inr, Bool, true, false, Option, none, some, List, [], ◌∷◌, ◌++◌, Bytes, Str,
  ok, ◌>>=◌, >>=-eq-ok, contains, All, All-append, Bool-cases, Option-cases,
}
use sinterdb.Protocol.Document.{Value, Items, Fields}
use sinterdb.Protocol.Encoder.{encode_document_value}
use sinterdb.Protocol.Canonical.{LosslessFields}
use sinterdb.Storage.Predicate.{ResolvedField, found, missing, resolve_field}
use sinterdb.Storage.IndexValue.{IndexBound, ValueClass}
use sinterdb.Storage.FieldIndex.{
  FieldIndex, segments_of, estimate_equal, lookup_range, has_array_values,
}
use sinterdb.Storage.FieldIndex.Invariant.{IsConsistent, Covers, IsCounted}
use sinterdb.Storage.Planner.{
  Constraint, equals, one_of, lower, upper, QueryPlan, collscan, ixscan, equal, distinct_values,
  values_of, total_estimate, plan_constraint, plan_constraints, no_range, narrow_all, range_plan,
  plan_range, plan_index, equal_keys, candidate_keys,
}
use sinterdb.Storage.Planner.Constraints.{MemberOf, Holds, AllHold}
use sinterdb.Storage.Planner.Bounds.{Within, narrow_all-Within}
use sinterdb.Storage.Planner.Access.{
  KeyAmong, equal_keys-contains, distinct_values-KeyAmong, lookup_range-contains,
}

-- Whatever candidates a plan returns, the document is among them.
abbrev pub Finds : Str → QueryPlan → Type 0
Finds doc_key plan =
    (keys : List Str) → candidate_keys plan ≡ ok (some keys) → contains keys doc_key ≡ true

pub collscan-Finds : (doc_key : Str) (n : ℕ) → Finds doc_key (collscan n)
unfolding candidate_keys
collscan-Finds doc_key n keys h = cc

module _ (index : FieldIndex) (doc_key : Str) (doc : Fields) (ordered : IsConsistent index)
    (covers : Covers index doc_key doc) (counted : IsCounted index doc)
    (lossless : LosslessFields doc) where
  equal-Finds :
      (u : Value) (bytes : Bytes) (vs : List Value) (via_membership : Bool) (n : ℕ)
      → resolve_field doc (segments_of index) ≡ found u
      → encode_document_value u ≡ ok bytes
      → KeyAmong bytes vs
      → Finds doc_key (ixscan index (equal vs) via_membership n)
  unfolding candidate_keys
  equal-Finds u bytes vs via_membership n hr hb among keys h =
      let (docs, listed, has_key) = covers.listed u bytes hr hb in
      let (ks, h1, h2) = >>=-eq-ok (equal_keys vs index []) (λ keys. ok (some keys)) h in
      let is_keys : ks ≡ keys = cc in
      subst (λ l. contains l doc_key ≡ true) is_keys
        (equal_keys-contains index doc_key bytes docs listed has_key vs [] ks h1 among)

  member-Finds :
      (u : Value) (bytes : Bytes) (vs : Items) (plans : List QueryPlan)
      → resolve_field doc (segments_of index) ≡ found u
      → encode_document_value u ≡ ok bytes
      → MemberOf u vs
      → (distinct_values vs [] >>= λ distinct. total_estimate (values_of distinct) index 0 >>= λ n.
          ok (ixscan index (equal (values_of distinct)) true n ∷ []))
        ≡ ok plans
      → All (Finds doc_key) plans
  member-Finds u bytes vs plans hr hb in_vs h =
      let (distinct, h1, h2) =
        >>=-eq-ok (distinct_values vs [])
          (λ distinct. total_estimate (values_of distinct) index 0 >>= λ n.
            ok (ixscan index (equal (values_of distinct)) true n ∷ []))
          h in
      let (n, h3, h4) =
        >>=-eq-ok (total_estimate (values_of distinct) index 0)
          (λ n. ok (ixscan index (equal (values_of distinct)) true n ∷ [])) h2 in
      let is_plans : ixscan index (equal (values_of distinct)) true n ∷ [] ≡ plans = cc in
      subst (All (Finds doc_key)) is_plans (
        equal-Finds u bytes (values_of distinct) true n hr hb
            (distinct_values-KeyAmong u bytes vs [] distinct hb h1 tt in_vs),
        tt,
      )

  plan_constraint-Finds :
      (c : Constraint) (r : ResolvedField) (plans : List QueryPlan)
      → resolve_field doc (segments_of index) ≡ r
      → Holds c r
      → plan_constraint index c ≡ ok plans
      → All (Finds doc_key) plans
  unfolding plan_constraint
  plan_constraint-Finds (equals v) (found u) plans hr (bytes, hu, hv) h =
      let (n, h1, h2) =
        >>=-eq-ok (estimate_equal v index) (λ n. ok (ixscan index (equal (v ∷ [])) false n ∷ []))
          h in
      let is_plans : ixscan index (equal (v ∷ [])) false n ∷ [] ≡ plans = cc in
      subst (All (Finds doc_key)) is_plans (equal-Finds u bytes (v ∷ []) false n hr hu (inl hv), tt)
  plan_constraint-Finds (equals v) missing plans hr holds h = elim holds [ ]
  plan_constraint-Finds (one_of vs) missing plans hr holds h = elim holds [ ]
  plan_constraint-Finds (one_of vs) (found u) plans hr (inl array_value) h =
      let no_plans : [] ≡ plans =
        let h' : ok [] ≡ ok plans = rw (counted u hr array_value) at h in cc in
      subst (All (Finds doc_key)) no_plans tt
  plan_constraint-Finds (one_of vs) (found u) plans hr (inr in_vs) h =
      elim (Bool-cases (has_array_values index)) [
        | inl e ↦
            let no_plans : [] ≡ plans = let h' : ok [] ≡ ok plans = rw e at h in cc in
            subst (All (Finds doc_key)) no_plans tt
        | inr e ↦
            let (bytes, hb) = covers.keyed u hr in
            member-Finds u bytes vs plans hr hb in_vs (rw e at h)
      ]
  plan_constraint-Finds (lower v inclusive) r plans hr holds h =
      let no_plans : [] ≡ plans = cc in subst (All (Finds doc_key)) no_plans tt
  plan_constraint-Finds (upper v inclusive) r plans hr holds h =
      let no_plans : [] ≡ plans = cc in subst (All (Finds doc_key)) no_plans tt

  plan_constraints-Finds :
      (cs : List Constraint) (r : ResolvedField) (plans : List QueryPlan)
      → resolve_field doc (segments_of index) ≡ r
      → AllHold cs r
      → plan_constraints index cs ≡ ok plans
      → All (Finds doc_key) plans
  unfolding plan_constraints
  plan_constraints-Finds [] r plans hr all h =
      let no_plans : [] ≡ plans = cc in subst (All (Finds doc_key)) no_plans tt
  plan_constraints-Finds (c ∷ cs) r plans hr all h =
      let (now, h1, h2) =
        >>=-eq-ok (plan_constraint index c)
          (λ now. plan_constraints index cs >>= λ later. ok (now ++ later)) h in
      let (later, h3, h4) = >>=-eq-ok (plan_constraints index cs) (λ later. ok (now ++ later)) h2 in
      let is_plans : now ++ later ≡ plans = cc in
      subst (All (Finds doc_key)) is_plans (
        All-append (Finds doc_key) now later (plan_constraint-Finds c r now hr all.0 h1)
          (plan_constraints-Finds cs r later hr all.1 h3))

  module _ (scaled_count : ℕ → ℕ → ℕ → ℕ) where
    Within-Finds :
        (u : Value) (c : Option ValueClass) (low high : Option IndexBound)
        → resolve_field doc (segments_of index) ≡ found u
        → Within (record { value_class = c; lower_end = low; upper_end = high }) u
        → All (Finds doc_key) (
            range_plan scaled_count index
              (some (record { value_class = c; lower_end = low; upper_end = high })))
    unfolding range_plan candidate_keys
    Within-Finds u none low high hr w = tt
    Within-Finds u (some c) low high hr w =
        let (bytes, hb) = covers.keyed u hr in
        (
          λ keys h.
              let is_keys : lookup_range c low high index ≡ keys = cc in
              subst (λ l. contains l doc_key ≡ true) is_keys
                (lookup_range-contains index doc_key doc u bytes c low high ordered covers lossless
                  hr hb w.0 w.1 w.2),
          tt,
        )

    plan_range-Finds :
        (cs : List Constraint) (r : ResolvedField)
        → resolve_field doc (segments_of index) ≡ r
        → AllHold cs r
        → All (Finds doc_key) (plan_range scaled_count index cs)
    unfolding plan_range range_plan narrow_all
    plan_range-Finds [] missing hr all = tt
    plan_range-Finds (equals v ∷ cs) missing hr all = elim all.0 [ ]
    plan_range-Finds (one_of vs ∷ cs) missing hr all = elim all.0 [ ]
    plan_range-Finds (lower v inclusive ∷ cs) missing hr all = elim all.0 [ ]
    plan_range-Finds (upper v inclusive ∷ cs) missing hr all = elim all.0 [ ]
    plan_range-Finds cs (found u) hr all = elim (Option-cases (narrow_all cs no_range)) [
      | inl e ↦ rw e tt
      | inr (s, e) ↦ rw e (
          Within-Finds u s.value_class s.lower_end s.upper_end hr
            (narrow_all-Within cs no_range s u all e (refl, refl)))
    ]

    pub plan_index-Finds :
        (cs : List Constraint) (plans : List QueryPlan)
        → AllHold cs (resolve_field doc (segments_of index))
        → plan_index scaled_count index cs ≡ ok plans
        → All (Finds doc_key) plans
    unfolding plan_index
    plan_index-Finds cs plans all h =
        let (ps, h1, h2) =
          >>=-eq-ok (plan_constraints index cs) (λ ps. ok (ps ++ plan_range scaled_count index cs))
            h in
        let is_plans : ps ++ plan_range scaled_count index cs ≡ plans = cc in
        subst (All (Finds doc_key)) is_plans (
          All-append (Finds doc_key) ps (plan_range scaled_count index cs)
            (plan_constraints-Finds cs (resolve_field doc (segments_of index)) ps refl all h1)
            (plan_range-Finds cs (resolve_field doc (segments_of index)) refl all))
