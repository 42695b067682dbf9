-- ===== src/Storage/Update/Frame.antt =====
-- What an update of packages/storage/src/update.ts leaves alone.
use mathlib.Core.Path.{subst}
use sinterdb.Prelude.{
  ◌≡◌, refl, sym, ap, ◌∙◌, Bool, true, false, Option, none, some, Option-cases, Bool-cases, inl,
  inr, List, [], ◌∷◌, Str, str_eq, str_eq→≡, str_eq_refl, Result, ok, err, ◌>>=◌, >>=-eq-ok,
  if◌then◌else◌, ◌⊎◌, arith,
}
use sinterdb.Protocol.Document.{Value, Fields, document, end, field, get}
use sinterdb.Storage.Errors.{Thrown, storage, invalid_update}
use sinterdb.Storage.Predicate.{ResolvedField, missing, resolve_field, resolve_value}
use sinterdb.Storage.Update.{overlaps, set_field, delete_field, at_parent}

pub get-set_field : (key : Str) (v : Value) (fs : Fields) → get key (set_field key v fs) ≡ some v
unfolding get set_field
get-set_field key v end = rw (str_eq_refl key) refl
get-set_field key v (field k u fs) = elim (Bool-cases (str_eq k key)) [
  | inl e ↦ rw e (rw e refl)
  | inr e ↦ rw e (rw e (get-set_field key v fs))
]

unequal : (a b c : Str) → str_eq a b ≡ true → str_eq b c ≡ false → str_eq a c ≡ false
unequal a b c h k = subst (λ x. str_eq x c ≡ false) (sym (str_eq→≡ a b h)) k

pub get-set_field_other :
    (key q : Str) (v : Value) (fs : Fields)
    → str_eq key q ≡ false
    → get q (set_field key v fs) ≡ get q fs
unfolding get set_field
get-set_field_other key q v end h = rw h refl
get-set_field_other key q v (field k u fs) h = elim (Bool-cases (str_eq k key)) [
  | inl e ↦ rw e (rw (unequal k key q e h) refl)
  | inr e ↦ rw e (ap (λ o. if str_eq k q then some u else o) (get-set_field_other key q v fs h))
]

pub get-delete_field : (key : Str) (fs : Fields) → get key (delete_field key fs) ≡ none
unfolding get delete_field
get-delete_field key end = refl
get-delete_field key (field k u fs) = elim (Bool-cases (str_eq k key)) [
  | inl e ↦ rw e (get-delete_field key fs)
  | inr e ↦ rw e (rw e (get-delete_field key fs))
]

pub get-delete_field_other :
    (key q : Str) (fs : Fields) → str_eq key q ≡ false → get q (delete_field key fs) ≡ get q fs
unfolding get delete_field
get-delete_field_other key q end h = refl
get-delete_field_other key q (field k u fs) h = elim (Bool-cases (str_eq k key)) [
  | inl e ↦ rw e (rw (unequal k key q e h) (get-delete_field_other key q fs h))
  | inr e ↦ rw e (ap (λ o. if str_eq k q then some u else o) (get-delete_field_other key q fs h))
]

-- A change of one field leaves the others.
abbrev pub IsLocal : (Str → Fields → Result Thrown Fields) → Type 0
IsLocal change =
    (key q : Str) (fs fs' : Fields)
    → change key fs ≡ ok fs'
    → str_eq key q ≡ false
    → get q fs' ≡ get q fs

abbrev pub resolve_option : Option Value → List Str → ResolvedField
resolve_option none segments = missing
resolve_option (some v) segments = resolve_value v segments

pub resolve_field-cons :
    (fs : Fields) (q : Str) (ps : List Str)
    → resolve_field fs (q ∷ ps) ≡ resolve_option (get q fs) ps
unfolding resolve_field
resolve_field-cons fs q ps = elim (Option-cases (get q fs)) [
  | inl e ↦ rw (e, resolve_field) refl
  | inr (v, e) ↦ rw (e, resolve_field) refl
]

pub resolve_field_eq :
    (fs fs' : Fields) (q : Str) (ps : List Str)
    → get q fs' ≡ get q fs
    → resolve_field fs' (q ∷ ps) ≡ resolve_field fs (q ∷ ps)
resolve_field_eq fs fs' q ps h =
    resolve_field-cons fs' q ps ∙ ap (λ o. resolve_option o ps) h ∙ sym (resolve_field-cons fs q ps)

resolve_document :
    (fs : Fields) (q : Str) (ps : List Str)
    → resolve_value (document fs) (q ∷ ps) ≡ resolve_field fs (q ∷ ps)
unfolding resolve_value resolve_field
resolve_document fs q ps = refl

pub resolve_field-set_field :
    (fs inner : Fields) (s q : Str) (ps : List Str)
    → resolve_field (set_field s (document inner) fs) (s ∷ q ∷ ps) ≡ resolve_field inner (q ∷ ps)
resolve_field-set_field fs inner s q ps =
    resolve_field-cons (set_field s (document inner) fs) s (q ∷ ps)
    ∙ ap (λ o. resolve_option o (q ∷ ps)) (get-set_field s (document inner) fs)
    ∙ resolve_document inner q ps

module _ (create : Bool) (change : Str → Fields → Result Thrown Fields) where
  -- The walk went on in the document at the segment, or in a new one.
  pub record Descended (s n : Str) (r : List Str) (fs fs' : Fields) : Type 0 where
    pub inner : Fields
    pub changed : Fields
    pub walked : at_parent create change (n ∷ r) inner ≡ ok changed
    pub is_set : fs' ≡ set_field s (document changed) fs
    pub within :
        (q : Str) (ps : List Str) → resolve_field fs (s ∷ q ∷ ps) ≡ resolve_field inner (q ∷ ps)

  -- The walk ended, and nothing is changed.
  pub record Ended (s : Str) (fs fs' : Fields) : Type 0 where
    pub unchanged : fs ≡ fs'
    pub not_created : create ≡ false
    pub nothing : (q : Str) (ps : List Str) → resolve_field fs (s ∷ q ∷ ps) ≡ missing

  module _ (s n : Str) (r : List Str) (fs fs' : Fields) where
    abbrev Outcome : Type 0
    Outcome = Descended s n r fs fs' ⊎ Ended s fs fs'

    descend :
        (inner : Fields)
        → ((q : Str) (ps : List Str) → resolve_field fs (s ∷ q ∷ ps) ≡ resolve_field inner (q ∷ ps))
        → (at_parent create change (n ∷ r) inner >>= λ changed.
            ok (set_field s (document changed) fs))
          ≡ ok fs'
        → Outcome
    descend inner within h =
        let (changed, walked, e) =
          >>=-eq-ok (at_parent create change (n ∷ r) inner)
            (λ changed. ok (set_field s (document changed) fs)) h in
        inl (record {
          inner = inner;
          changed = changed;
          walked = walked;
          is_set = (let e' : set_field s (document changed) fs ≡ fs' = cc in sym e');
          within = within;
        })

    resolved_at :
        {o : Option Value}
        → get s fs ≡ o
        → (q : Str) (ps : List Str) → resolve_field fs (s ∷ q ∷ ps) ≡ resolve_option o (q ∷ ps)
    resolved_at e q ps = resolve_field-cons fs s (q ∷ ps) ∙ ap (λ o. resolve_option o (q ∷ ps)) e

    pub at_parent-cases : at_parent create change (s ∷ n ∷ r) fs ≡ ok fs' → Outcome
    unfolding at_parent resolve_field resolve_value get
    at_parent-cases h = elim (Option-cases (get s fs)) [
      | inl e ↦ at_missing create refl e (rw (e, at_parent) at h)
      | inr (v, e) ↦ at_value v create refl e (rw (e, at_parent) at h)
    ]
      where
        at_missing :
            (b : Bool)
            → create ≡ b
            → get s fs ≡ none
            → ◌≡◌ {A = Result Thrown Fields}
                (elim b [
                  | true ↦ at_parent create change (n ∷ r) end >>= λ changed.
                      ok (set_field s (document changed) fs)
                  | false ↦ ok fs
                ])
                (ok fs')
            → Outcome
        at_missing true c e h = descend end (λ q ps. resolved_at e q ps) h
        at_missing false c e h = inr (record {
          unchanged = (let e' : fs ≡ fs' = cc in e');
          not_created = c;
          nothing = λ q ps. resolved_at e q ps;
        })

        at_value :
            (v : Value) (b : Bool)
            → create ≡ b
            → get s fs ≡ some v
            → ◌≡◌ {A = Result Thrown Fields}
                (elim v [
                  | document inner ↦ at_parent create change (n ∷ r) inner >>= λ changed.
                      ok (set_field s (document changed) fs)
                  | _ ↦ elim b [ true ↦ err (storage invalid_update) | false ↦ ok fs ]
                ])
                (ok fs')
            → Outcome
        at_value (document inner) b c e h = descend inner (λ q ps. resolved_at e q ps) h
        at_value v true c e h = cc
        at_value v false c e h = inr (record {
          unchanged = (let e' : fs ≡ fs' = cc in e');
          not_created = c;
          nothing = λ q ps. resolved_at e q ps;
        })

  below :
      (s n : Str) (r : List Str) (fs fs' : Fields) (d : Descended s n r fs fs') (q : Str)
      (ps : List Str)
      → ((p : List Str)
          → overlaps (n ∷ r) p ≡ false
          → resolve_field d.changed p ≡ resolve_field d.inner p)
      → s ≡ q
      → overlaps (n ∷ r) ps ≡ false
      → resolve_field fs' (q ∷ ps) ≡ resolve_field fs (q ∷ ps)
  unfolding overlaps
  below s n r fs fs' d q [] within is_q apart = cc
  below s n r fs fs' d q (p ∷ ps) within is_q apart =
      subst (λ x. resolve_field fs' (x ∷ p ∷ ps) ≡ resolve_field fs (x ∷ p ∷ ps)) is_q
        (ap (λ x. resolve_field x (s ∷ p ∷ ps)) d.is_set
          ∙ resolve_field-set_field fs d.changed s p ps
          ∙ within (p ∷ ps) apart
          ∙ sym (d.within p ps))

  -- A change below one path leaves what stands at a path that does not overlap it.
  pub at_parent-frame :
      IsLocal change
      → (segments p : List Str) (fs fs' : Fields) → overlaps segments p ≡ false
      → at_parent create change segments fs ≡ ok fs'
      → resolve_field fs' p ≡ resolve_field fs p
  unfolding at_parent overlaps
  at_parent-frame local [] p fs fs' h e = cc
  at_parent-frame local (s ∷ segments) [] fs fs' h e = cc
  at_parent-frame local (key ∷ []) (q ∷ ps) fs fs' h e =
      resolve_field_eq fs fs' q ps (local key q fs fs' e (ground arith))
  at_parent-frame local (s ∷ n ∷ r) (q ∷ ps) fs fs' h e = elim (at_parent-cases s n r fs fs' e) [
    | inr o ↦ ap (λ x. resolve_field x (q ∷ ps)) (sym o.unchanged)
    | inl d ↦ elim (Bool-cases (str_eq s q)) [
      | inr other ↦
          resolve_field_eq fs fs' q ps
            (ap (get q) d.is_set ∙ get-set_field_other s q (document d.changed) fs other)
      | inl same ↦
          below s n r fs fs' d q ps
            (λ p h'. at_parent-frame local (n ∷ r) p d.inner d.changed h' d.walked)
            (str_eq→≡ s q same) (rw same at h)
    ]
  ]
