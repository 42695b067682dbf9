-- ===== src/Storage/Planner/Sound.antt =====
-- `planQuery` and `candidateKeys` of packages/storage/src/indexing/planner.ts: an index only narrows the
-- candidates.
use mathlib.Core.Path.{subst}
use sinterdb.Prelude.{
  ℕ, ◌≡◌, refl, sym, ap, ◌∙◌, inl, inr, Bool, true, false, Option, none, some, List, [], ◌∷◌, ◌++◌,
  Bytes, Str, units, ok, >>=-eq-ok, contains, All, Bool-cases, Option-cases, if◌then◌else◌, ◌==◌,
  length,
}
use sinterdb.Protocol.CustomId.{to_hex_string}
use sinterdb.Protocol.Document.{Fields, get, id, document}
use sinterdb.Protocol.Canonical.{LosslessFields}
use sinterdb.Storage.IndexSpec.{split}
use sinterdb.Storage.Predicate.{found, resolve_field, resolve_value, CompiledFilter}
use sinterdb.Storage.Filter.{compile_filter, collect_clauses, matches_clauses, Clauses}
use sinterdb.Storage.FieldIndex.{FieldIndex}
use sinterdb.Storage.FieldIndex.Invariant.{IsConsistent, Covers, IsCounted}
use sinterdb.Storage.FieldIndex.Tracks.{Stored, Tracks, Tracks-Covers, Tracks-IsCounted}
use sinterdb.Storage.Planner.{
  Constraint, QueryPlan, collscan, idlookup, Constraints, constraints_get, collect, plan_id,
  best_keys, plan_index, preferred, choose, plan_indexes, plan_query, candidate_keys,
}
use sinterdb.Storage.Planner.Constraints.{AllHold}
use sinterdb.Storage.Filter.Agreement.{compile_filter-clauses}
use sinterdb.Storage.Planner.Collect.{AllSound, get-AllSound, collect-AllSound}
use sinterdb.Storage.Planner.Ids.{best_keys-GoodKeys}
use sinterdb.Storage.Planner.Candidates.{Finds, collscan-Finds, plan_index-Finds}

-- A consistent index that covers the document.
abbrev pub IsCurrent : Str → Fields → FieldIndex → Type 0
IsCurrent doc_key doc index = IsConsistent index × Covers index doc_key doc × IsCounted index doc

module _ (scaled_count : ℕ → ℕ → ℕ → ℕ) (doc_key : Str) (doc : Fields)
    (lossless : LosslessFields doc) where
  choose-Finds :
      (candidates : List QueryPlan) (best : QueryPlan)
      → All (Finds doc_key) candidates
      → Finds doc_key best
      → Finds doc_key (choose scaled_count candidates best)
  unfolding choose
  choose-Finds [] best all h = h
  choose-Finds (candidate ∷ candidates) best all h =
      choose-Finds candidates (if preferred scaled_count candidate best then candidate else best)
        all.1 (either (preferred scaled_count candidate best))
    where
      either : (b : Bool) → Finds doc_key (if b then candidate else best)
      either true = all.0
      either false = h

  plan_indexes-Finds :
      (indexes : List FieldIndex) (constraints : Constraints) (best plan : QueryPlan)
      → All (IsCurrent doc_key doc) indexes
      → AllSound constraints doc
      → Finds doc_key best
      → plan_indexes scaled_count indexes constraints best ≡ ok plan
      → Finds doc_key plan
  unfolding plan_indexes choose
  plan_indexes-Finds [] constraints best plan all sound h hp =
      let is_plan : best ≡ plan = cc in subst (Finds doc_key) is_plan h
  plan_indexes-Finds (index ∷ indexes) constraints best plan all sound h hp =
      elim (Option-cases (constraints_get index.spec.path constraints)) [
        | inl e ↦ plan_indexes-Finds indexes constraints best plan all.1 sound h (rw e at hp)
        | inr (cs, e) ↦
            let (candidates, h1, h2) =
              >>=-eq-ok (plan_index scaled_count index cs)
                (λ candidates.
                  plan_indexes scaled_count indexes constraints
                    (choose scaled_count candidates best))
                (rw e at hp) in
            plan_indexes-Finds indexes constraints (choose scaled_count candidates best) plan all.1
              sound
              (choose-Finds candidates best
                (plan_index-Finds index doc_key doc all.0.0 all.0.1 all.0.2 lossless scaled_count cs
                  candidates (get-AllSound doc index.spec.path cs constraints sound e) h1)
                h)
              h2
      ]

  plan_id-Finds :
      (o : Option (List Constraint)) (bytes : Bytes) (plan : QueryPlan)
      → ((cs : List Constraint) → o ≡ some cs → AllHold cs (found (id bytes)))
      → doc_key ≡ to_hex_string bytes
      → plan_id o ≡ some plan
      → Finds doc_key plan
  unfolding plan_id candidate_keys
  plan_id-Finds none bytes plan all is_key h = cc
  plan_id-Finds (some cs) bytes plan all is_key h = elim (Option-cases (best_keys cs none)) [
    | inl e ↦ let h' : none ≡ some plan = rw (e, plan_id) at h in cc
    | inr (ks, e) ↦
        let is_plan : idlookup ks (length ks) ≡ plan =
          let h' : some (idlookup ks (length ks)) ≡ some plan = rw (e, plan_id) at h in cc in
        let own : contains ks (to_hex_string bytes) ≡ true =
          rw e at (best_keys-GoodKeys cs none bytes (all cs refl) tt) in
        subst (Finds doc_key) is_plan (λ keys hk.
          let is_keys : ks ≡ keys = cc in
          subst (λ l. contains l doc_key ≡ true) is_keys
            (subst (λ k. contains ks k ≡ true) (sym is_key) own))
  ]

  id_resolved :
      (bytes : Bytes)
      → get (units "_id") doc ≡ some (id bytes)
      → resolve_field doc (split (units "_id")) ≡ found (id bytes)
  unfolding split resolve_field resolve_value
  id_resolved bytes h = rw (h, resolve_field) refl

  pub plan-Finds :
      (filter : Fields) (clauses : Clauses) (indexes : List FieldIndex) (total : ℕ) (bytes : Bytes)
      (plan : QueryPlan)
      → collect_clauses filter ≡ ok clauses
      → matches_clauses clauses doc ≡ ok true
      → get (units "_id") doc ≡ some (id bytes)
      → doc_key ≡ to_hex_string bytes
      → All (IsCurrent doc_key doc) indexes
      → plan_query scaled_count filter indexes total ≡ ok plan
      → Finds doc_key plan
  unfolding plan_query
  plan-Finds filter clauses indexes total bytes plan hc hm has_id is_key current hp =
      let sound : AllSound (collect filter []) doc = collect-AllSound doc filter clauses hc hm in
      let id_holds : (cs : List Constraint)
          → constraints_get (units "_id") (collect filter []) ≡ some cs
          → AllHold cs (found (id bytes)) =
        λ cs e.
          subst (AllHold cs) (id_resolved bytes has_id)
            (get-AllSound doc (units "_id") cs (collect filter []) sound e) in
      elim (Bool-cases (total == 0)) [
        | inl e ↦
            let is_plan : collscan total ≡ plan =
              let h' : ok (collscan total) ≡ ok plan = rw (e, plan_query) at hp in cc in
            subst (Finds doc_key) is_plan (collscan-Finds doc_key total)
        | inr e ↦
            elim (Option-cases (plan_id (constraints_get (units "_id") (collect filter [])))) [
              | inl f ↦
                  plan_indexes-Finds indexes (collect filter []) (collscan total) plan current sound
                    (collscan-Finds doc_key total) (rw (e, f, plan_query) at hp)
              | inr (q, f) ↦
                  let is_plan : q ≡ plan =
                    let h' : ok q ≡ ok plan = rw (e, f, plan_query) at hp in cc in
                  subst (Finds doc_key) is_plan (
                    plan_id-Finds (constraints_get (units "_id") (collect filter [])) bytes q
                      id_holds is_key f)
            ]
      ]

-- Every index at hand tracks the documents.
abbrev pub TrackAll : List FieldIndex → List Stored → Type 0
TrackAll indexes docs = All (λ (index : FieldIndex). Tracks index.spec index docs) indexes

TrackAll-IsCurrent :
    (indexes : List FieldIndex) (xs ys : List Stored) (k : Str) (d : Fields)
    → TrackAll indexes (xs ++ (k, d) ∷ ys)
    → All (IsCurrent k d) indexes
TrackAll-IsCurrent [] xs ys k d all = tt
TrackAll-IsCurrent (index ∷ indexes) xs ys k d all = (
  (
    all.0.consistent,
    Tracks-Covers index.spec index xs ys k d all.0,
    Tracks-IsCounted index.spec index xs ys k d all.0,
  ),
  TrackAll-IsCurrent indexes xs ys k d all.1,
)

-- A plan only narrows the candidates: a stored document that the compiled filter matches is among
-- them, if its key is the hexadecimal form of its _id, if it is lossless, and if every index at hand
-- tracks the stored documents. It does not matter which plan the estimates lead to.
pub plan_query-Finds :
    (scaled_count : ℕ → ℕ → ℕ → ℕ) (filter : Fields) (matches : CompiledFilter)
    (indexes : List FieldIndex) (total : ℕ) (xs ys : List Stored) (doc_key : Str) (doc : Fields)
    (bytes : Bytes) (plan : QueryPlan) (keys : List Str)
    → compile_filter (document filter) ≡ ok matches
    → matches doc ≡ ok true
    → get (units "_id") doc ≡ some (id bytes)
    → doc_key ≡ to_hex_string bytes
    → LosslessFields doc
    → TrackAll indexes (xs ++ (doc_key, doc) ∷ ys)
    → plan_query scaled_count filter indexes total ≡ ok plan
    → candidate_keys plan ≡ ok (some keys)
    → contains keys doc_key ≡ true
plan_query-Finds scaled_count filter matches indexes total xs ys doc_key doc bytes plan keys hf hm
      has_id is_key lossless tracked hp hk =
    let (clauses, hc, is_matches) = compile_filter-clauses filter matches hf in
    plan-Finds scaled_count doc_key doc lossless filter clauses indexes total bytes plan hc
      (ap (λ (f : CompiledFilter). f doc) is_matches ∙ hm) has_id is_key
      (TrackAll-IsCurrent indexes xs ys doc_key doc tracked) hp keys hk
