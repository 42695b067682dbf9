-- ===== src/Storage/Update/Seed.antt =====
-- The document that packages/storage/src/update.ts derives from a filter for an upsert.
use sinterdb.Prelude.{
  ◌≡◌, refl, sym, ap, ◌∙◌, fun_ext, true, false, not, ◌&&◌, Option, none, some, Option-cases,
  Bool-cases, inl, inr, List, [], ◌∷◌, Str, str_eq, str_eq→≡, starts_with, ok, ◌>>=◌, >>=-eq-ok,
  require-eq-ok, arith, units,
}
use sinterdb.Protocol.Document.{Value, Fields, document, end, field, get}
use sinterdb.Storage.Errors.{storage, invalid_update}
use sinterdb.Storage.IndexSpec.{split, are_segments}
use sinterdb.Storage.Predicate.{ResolvedField, found, missing, resolve_field, dollar, has_operator}
use sinterdb.Storage.Update.{
  assign, overlaps, overlaps_assigned, assigning, extract_equality, at_parent, apply_operator,
  seed_fields, seed_document_from_filter,
}
use sinterdb.Storage.Update.Frame.{at_parent-frame}
use sinterdb.Storage.Update.Paths.{overlaps_comm, split-cons}
use sinterdb.Storage.Update.Outcome.{at_parent-outcome, operator-IsLocal, value_at}

assigning-apply_operator : (v : Value) → assigning v ≡ apply_operator assign v
unfolding apply_operator
assigning-apply_operator v = fun_ext (λ key. fun_ext (λ parent. refl))

value_at-found :
    (p : List Str) (fs : Fields) (v : Value) → value_at p fs ≡ some v → resolve_field fs p ≡ found v
value_at-found p fs v h = by_result (resolve_field fs p) h
  where
    by_result :
        (r : ResolvedField)
        → ◌≡◌ {A = Option Value} (elim r [ found u ↦ some u | missing ↦ none ]) (some v)
        → r ≡ found v
    by_result (found u) e = let e' : u ≡ v = cc in ap found e'
    by_result missing e = cc

module _ (v : Value) (path : Str) (seed grown : Fields)
    (walked : at_parent true (assigning v) (split path) seed ≡ ok grown) where
  as_operator : at_parent true (apply_operator assign v) (split path) seed ≡ ok grown
  as_operator =
      ap (λ change. at_parent true change (split path) seed) (sym (assigning-apply_operator v))
      ∙ walked

  grown-found : resolve_field grown (split path) ≡ found v
  grown-found =
      let (s, ss, e) = split-cons path in
      let made : ok (some v) ≡ ok (value_at (s ∷ ss) grown) =
        at_parent-outcome assign v s ss seed grown
          (ap (λ l. at_parent true (apply_operator assign v) l seed) (sym e) ∙ as_operator) in
      let made' : value_at (s ∷ ss) grown ≡ some v = cc in
      ap (resolve_field grown) e ∙ value_at-found (s ∷ ss) grown v made'

  grown-frame :
      (p : List Str)
      → overlaps (split path) p ≡ false
      → resolve_field grown p ≡ resolve_field seed p
  grown-frame p apart =
      at_parent-frame true (apply_operator assign v) (operator-IsLocal assign v) (split path) p seed
        grown apart as_operator

-- A path that overlaps nothing that is still accepted.
abbrev IsGuarded : List (List Str) → List Str → Type 0
IsGuarded assigned p = (q : List Str) → overlaps_assigned assigned q ≡ false → overlaps q p ≡ false

module _ (assigned : List (List Str)) (key : Str) (v : Value) (rest seed seed' : Fields) where
  -- What one field of the filter does.
  pub record Assigned (u : Value) : Type 0 where
    pub grown : Fields
    pub apart : overlaps_assigned assigned (split key) ≡ false
    pub walked : at_parent true (assigning u) (split key) seed ≡ ok grown
    pub others : seed_fields (split key ∷ assigned) rest grown ≡ ok seed'

  assigned_lem :
      (u : Value)
      → starts_with dollar key ≡ false
      → extract_equality v ≡ some u
      → seed_fields assigned (field key v rest) seed ≡ ok seed'
      → Assigned u
  unfolding seed_fields
  assigned_lem u no_dollar e h =
      let (valid, h1) =
        require-eq-ok (are_segments (split key) && not (overlaps_assigned assigned (split key)))
          (storage invalid_update)
          (at_parent true (assigning u) (split key) seed
            >>= seed_fields (split key ∷ assigned) rest)
          (rw (e, seed_fields) at (rw (no_dollar, seed_fields) at h)) in
      let (grown, h2, h3) =
        >>=-eq-ok (at_parent true (assigning u) (split key) seed)
          (seed_fields (split key ∷ assigned) rest) h1 in
      record { grown = grown; apart = ground (arith, valid); walked = h2; others = h3 }

IsGuarded-cons :
    (assigned : List (List Str)) (other p : List Str)
    → IsGuarded assigned p
    → IsGuarded (other ∷ assigned) p
unfolding overlaps_assigned
IsGuarded-cons assigned other p guarded q h = guarded q (ground (arith, h))

IsGuarded-self : (assigned : List (List Str)) (p : List Str) → IsGuarded (p ∷ assigned) p
unfolding overlaps_assigned
IsGuarded-self assigned p q h = overlaps_comm q p ∙ ground (arith, h)

-- What is assigned stays.
seed_fields-kept :
    (fs : Fields) (assigned : List (List Str)) (p : List Str) (seed seed' : Fields)
    → IsGuarded assigned p
    → seed_fields assigned fs seed ≡ ok seed'
    → resolve_field seed' p ≡ resolve_field seed p
unfolding seed_fields
seed_fields-kept end assigned p seed seed' guarded h =
    let e : seed ≡ seed' = cc in ap (λ x. resolve_field x p) (sym e)
seed_fields-kept (field key v rest) assigned p seed seed' guarded h =
    elim (Bool-cases (starts_with dollar key)) [
      | inl e ↦ seed_fields-kept rest assigned p seed seed' guarded (rw (e, seed_fields) at h)
      | inr no_dollar ↦ elim (Option-cases (extract_equality v)) [
        | inl e ↦
            seed_fields-kept rest assigned p seed seed' guarded
              (rw (e, seed_fields) at (rw (no_dollar, seed_fields) at h))
        | inr (u, e) ↦
            let a = assigned_lem assigned key v rest seed seed' u no_dollar e h in
            seed_fields-kept rest (split key ∷ assigned) p a.grown seed'
              (IsGuarded-cons assigned (split key) p guarded) a.others
            ∙ grown-frame u key seed a.grown a.walked p (guarded (split key) a.apart)
      ]
    ]

seed_fields-found :
    (fs : Fields) (assigned : List (List Str)) (key : Str) (v u : Value) (seed seed' : Fields)
    → get key fs ≡ some v
    → starts_with dollar key ≡ false
    → extract_equality v ≡ some u
    → seed_fields assigned fs seed ≡ ok seed'
    → resolve_field seed' (split key) ≡ found u
unfolding get seed_fields
seed_fields-found end assigned key v u seed seed' has no_dollar e h = cc
seed_fields-found (field k w rest) assigned key v u seed seed' has no_dollar e h =
    elim (Bool-cases (str_eq k key)) [
      | inl is_key ↦
          let same_value : w ≡ v = (let has' : some w ≡ some v = rw is_key at has in cc) in
          let same_key : k ≡ key = str_eq→≡ k key is_key in here w same_value same_key h
      | inr other ↦ elim (Bool-cases (starts_with dollar k)) [
        | inl s ↦
            seed_fields-found rest assigned key v u seed seed' (rw other at has) no_dollar e
              (rw (s, seed_fields) at h)
        | inr s ↦ elim (Option-cases (extract_equality w)) [
          | inl f ↦
              seed_fields-found rest assigned key v u seed seed' (rw other at has) no_dollar e
                (rw (f, seed_fields) at (rw (s, seed_fields) at h))
          | inr (x, f) ↦
              let a = assigned_lem assigned k w rest seed seed' x s f h in
              seed_fields-found rest (split k ∷ assigned) key v u a.grown seed' (rw other at has)
                no_dollar e a.others
        ]
      ]
    ]
  where
    here :
        (w : Value)
        → w ≡ v
        → k ≡ key
        → seed_fields assigned (field k w rest) seed ≡ ok seed'
        → resolve_field seed' (split key) ≡ found u
    here w same_value same_key h =
        let a = assigned_lem assigned key v rest seed seed' u no_dollar e (
          sym (
            ap (λ x. seed_fields assigned x seed)
              (ap (λ j. field j w rest) same_key ∙ ap (λ y. field key y rest) same_value))
          ∙ h) in
        seed_fields-kept rest (split key ∷ assigned) (split key) a.grown seed'
          (IsGuarded-self assigned (split key)) a.others
        ∙ grown-found u key seed a.grown a.walked

-- What a field of a filter is required to be equal to outright: a value that is not a document, a
-- document none of whose names starts with a dollar sign, or the operand of an only `$eq`.
abbrev pub IsPlain : Value → Type 0
IsPlain (document fs) = ⊥
IsPlain _ = Unit

abbrev pub HasNoDollar : Fields → Type 0
HasNoDollar end = Unit
HasNoDollar (field name v fs) = (starts_with dollar name ≡ false) × HasNoDollar fs

pub data Requires : Value → Value → Type 0 where
  plain : (v : Value) → IsPlain v → Requires v v
  contents : (fs : Fields) → HasNoDollar fs → Requires (document fs) (document fs)
  equal_to : (u : Value) → Requires (document (field (units "$eq") u end)) u

HasNoDollar-has_operator : (fs : Fields) → HasNoDollar fs → has_operator fs ≡ false
unfolding has_operator
HasNoDollar-has_operator end h = refl
HasNoDollar-has_operator (field name v fs) (h, hs) = rw h (HasNoDollar-has_operator fs hs)

plain-extract_equality : (v : Value) → IsPlain v → extract_equality v ≡ some v
unfolding extract_equality
plain-extract_equality (document fs) h = absurd h
plain-extract_equality _ h = refl

not-eq_name : (name : Str) → starts_with dollar name ≡ false → str_eq name (units "$eq") ≡ false
not-eq_name name h = elim (Bool-cases (str_eq name (units "$eq"))) [
  | inr e ↦ e
  | inl e ↦
      let bad : starts_with dollar (units "$eq") ≡ false =
        ap (starts_with dollar) (sym (str_eq→≡ name (units "$eq") e)) ∙ h in
      absurd (ground (arith, bad))
]

contents-extract_equality :
    (fs : Fields) → HasNoDollar fs → extract_equality (document fs) ≡ some (document fs)
unfolding extract_equality has_operator
contents-extract_equality end h = refl
contents-extract_equality (field name v end) h =
    rw (not-eq_name name h.0) (rw (HasNoDollar-has_operator (field name v end) h) refl)
contents-extract_equality (field name v (field k w fs)) h =
    rw (HasNoDollar-has_operator (field name v (field k w fs)) h) refl

Requires-extract_equality : (v u : Value) → Requires v u → extract_equality v ≡ some u
unfolding extract_equality str_eq
Requires-extract_equality v u (plain w h) = plain-extract_equality w h
Requires-extract_equality v u (contents fs h) = contents-extract_equality fs h
Requires-extract_equality v u (equal_to w) = refl

-- Where an upsert's document is derived from a filter, it has, at the path of each top-level field of
-- the filter whose name starts with no dollar sign, the value that the field is required to be equal
-- to outright: the field's value, if it is not a document or one without operators, and `u` if it is
-- exactly `{ $eq: u }`.
pub seed_document_from_filter-found :
    (filter seed : Fields) (key : Str) (v u : Value)
    → seed_document_from_filter filter ≡ ok seed
    → get key filter ≡ some v
    → starts_with dollar key ≡ false
    → Requires v u
    → resolve_field seed (split key) ≡ found u
unfolding seed_document_from_filter
seed_document_from_filter-found filter seed key v u h has plain_key required =
    seed_fields-found filter [] key v u end seed has plain_key
      (Requires-extract_equality v u required) h
