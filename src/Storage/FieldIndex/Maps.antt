-- ===== src/Storage/FieldIndex/Maps.antt =====
-- The maps and sets of packages/storage/src/indexing/field-index.ts.
use sinterdb.Prelude.{
  ◌≡◌, refl, sym, ap, ◌∙◌, Bool, true, false, none, some, List, [], ◌∷◌, Bytes, Str, str_eq,
  str_eq→≡, str_eq_refl, contains, Bool-cases, if◌then◌else◌, inl, inr, arith, length, ◌==◌,
}
use sinterdb.Storage.IndexValue.{
  ValueClass, strings, numbers, bigints, dates, binaries, ids, class_eq, KeyMap, map_get, map_set,
  map_delete, set_delete,
}
use sinterdb.Storage.FieldIndex.{has_other}

pub map_get-set_self :
    (key : Bytes) (docs : List Str) (m : KeyMap) → map_get key (map_set key docs m) ≡ some docs
unfolding map_get map_set
map_get-set_self key docs [] = rw (str_eq_refl key) refl
map_get-set_self key docs ((k, old) ∷ m) = elim (Bool-cases (str_eq k key)) [
  | inl e ↦ rw e (rw e refl)
  | inr e ↦ rw e (rw e (map_get-set_self key docs m))
]

pub map_get-set_ne :
    (b key : Bytes) (docs : List Str) (m : KeyMap)
    → str_eq key b ≡ false
    → map_get b (map_set key docs m) ≡ map_get b m
unfolding map_get map_set
map_get-set_ne b key docs [] h = rw h refl
map_get-set_ne b key docs ((k, old) ∷ m) h = elim (Bool-cases (str_eq k key)) [
  | inl e ↦
      let e' : str_eq k b ≡ false = ap (λ x. str_eq x b) (str_eq→≡ k key e) ∙ h in rw e (rw e' refl)
  | inr e ↦ rw e (ap (λ r. if str_eq k b then some old else r) (map_get-set_ne b key docs m h))
]

pub map_get-delete_ne :
    (b key : Bytes) (m : KeyMap) → str_eq key b ≡ false → map_get b (map_delete key m) ≡ map_get b m
unfolding map_get map_delete
map_get-delete_ne b key [] h = refl
map_get-delete_ne b key ((k, old) ∷ m) h = elim (Bool-cases (str_eq k key)) [
  | inl e ↦
      let e' : str_eq k b ≡ false = ap (λ x. str_eq x b) (str_eq→≡ k key e) ∙ h in
      rw e (rw e' (map_get-delete_ne b key m h))
  | inr e ↦ rw e (ap (λ r. if str_eq k b then some old else r) (map_get-delete_ne b key m h))
]

pub map_get-delete_self : (key : Bytes) (m : KeyMap) → map_get key (map_delete key m) ≡ none
unfolding map_get map_delete
map_get-delete_self key [] = refl
map_get-delete_self key ((k, old) ∷ m) = elim (Bool-cases (str_eq k key)) [
  | inl e ↦ rw e (map_get-delete_self key m)
  | inr e ↦ rw e (rw e (map_get-delete_self key m))
]

pub contains-set_delete :
    (k j : Str) (ks : List Str)
    → str_eq k j ≡ false
    → contains ks j ≡ true
    → contains (set_delete k ks) j ≡ true
unfolding set_delete contains
contains-set_delete k j [] h c = c
contains-set_delete k j (x ∷ ks) h c = elim (Bool-cases (str_eq x k)) [
  | inl e ↦
      let e' : str_eq x j ≡ false = ap (λ y. str_eq y j) (str_eq→≡ x k e) ∙ h in
      rw e (contains-set_delete k j ks h (rw e' at c))
  | inr e ↦ elim (Bool-cases (str_eq x j)) [
    | inl f ↦ rw e (rw f refl)
    | inr f ↦ rw e (rw f (contains-set_delete k j ks h (rw f at c)))
  ]
]

pub empty-contains : (ks : List Str) (j : Str) → (length ks == 0) ≡ true → contains ks j ≡ false
unfolding contains
empty-contains [] j h = refl
empty-contains (x ∷ ks) j h = absurd (ground arith)

-- Another key than that of the document is found.
pub has_other-contains :
    (k j : Str) (ks : List Str) → str_eq j k ≡ false → contains ks j ≡ true → has_other k ks ≡ true
unfolding has_other contains
has_other-contains k j [] h c = cc
has_other-contains k j (x ∷ ks) h c = elim (Bool-cases (str_eq x k)) [
  | inr e ↦ rw e refl
  | inl e ↦
      let e' : str_eq x j ≡ false = differ (str_eq x j) refl e in
      rw e (has_other-contains k j ks h (rw e' at c))
]
  where
    differ : (b : Bool) → str_eq x j ≡ b → str_eq x k ≡ true → b ≡ false
    differ false f e = refl
    differ true f e =
        let t : str_eq j k ≡ true = ap (λ y. str_eq y k) (sym (str_eq→≡ x j f)) ∙ e in
        let bad : ◌≡◌ {A = Bool} true false = sym t ∙ h in cc

pub class_eq→≡ : (c d : ValueClass) → class_eq c d ≡ true → c ≡ d
class_eq→≡ strings strings h = refl
class_eq→≡ numbers numbers h = refl
class_eq→≡ bigints bigints h = refl
class_eq→≡ dates dates h = refl
class_eq→≡ binaries binaries h = refl
class_eq→≡ ids ids h = refl
class_eq→≡ _ _ h = cc

pub class_eq_refl : (c : ValueClass) → class_eq c c ≡ true
class_eq_refl strings = refl
class_eq_refl numbers = refl
class_eq_refl bigints = refl
class_eq_refl dates = refl
class_eq_refl binaries = refl
class_eq_refl ids = refl
