-- ===== src/Storage/Sort/Laws.antt =====
-- What packages/storage/src/sort.ts promises of the sorted documents.
use mathlib.Core.Path.{ap₂, subst}
use mathlib.Core.List.Perm
use mathlib.Core.List.{Perm}
use sinterdb.Prelude.{
  fun_ext, All, ◌≡◌, refl, sym, ap, ◌∙◌, Bool, true, false, List, [], ◌∷◌, map, Bool-cases, inl,
  inr, ok, ◌>>=◌, >>=-eq-ok, require-eq-ok, Str, not, ◌==◌, length, contains,
}
use sinterdb.Prelude.Int.{ℤ}
use sinterdb.Protocol.Document.{Fields}
use sinterdb.Storage.Compare.{Comparison, less, same, greater, is_greater}
use sinterdb.Storage.Compare.Order.{IsOrder, le_trans, turn_greater, compare_key}
use sinterdb.Storage.IndexSpec.{split}
use sinterdb.Storage.Filter.{are_path_segments}
use sinterdb.Storage.Ordering.{Says, KeyBefore, Says-or_else, Says-flip, compare_key-Says}
use sinterdb.Storage.Sort.Meaning.{resolved, key_at, Directed, Before, InOrder}
use sinterdb.Storage.Sort.{
  SortKey, insert_by, sort_by, sort_documents, decorate, undecorate, compare_decorated,
  compile_sort, parse_sort_specification, parse_entries, compare_by, directed, compare_sort_values,
}
use sinterdb.Storage.Sort.Order.{
  compare_at, compare_documents, IsOrder-documents, resolve_sort_value-ranked,
  compare_sort_values-key,
}

-- Nothing stands before something that is less.
abbrev pub IsSorted {ℓ} : {A : Type ℓ} → (A → A → Comparison) → List A → Type 0
IsSorted compare [] = Unit
IsSorted compare (x ∷ xs) = All (λ y. is_greater (compare x y) ≡ false) xs × IsSorted compare xs

module _ {ℓ} {A : Type ℓ} (compare : A → A → Comparison) (o : IsOrder compare) where
  lower-All :
      (x y : A) (ys : List A)
      → is_greater (compare x y) ≡ false
      → All (λ z. is_greater (compare y z) ≡ false) ys
      → All (λ z. is_greater (compare x z) ≡ false) ys
  lower-All x y [] h all = tt
  lower-All x y (z ∷ ys) h all = (le_trans compare o x y z h all.0, lower-All x y ys h all.1)

  All-insert {κ} :
      (P : A → Type κ) (x : A) (ys : List A) → P x → All P ys → All P (insert_by compare x ys)
  unfolding insert_by
  All-insert P x [] px all = (px, tt)
  All-insert P x (y ∷ ys) px all = elim (Bool-cases (is_greater (compare x y))) [
    | inl e ↦ rw e (all.0, All-insert P x ys px all.1)
    | inr e ↦ rw e (px, all)
  ]

  insert-IsSorted :
      (x : A) (ys : List A) → IsSorted compare ys → IsSorted compare (insert_by compare x ys)
  unfolding insert_by
  insert-IsSorted x [] s = (tt, tt)
  insert-IsSorted x (y ∷ ys) s = elim (Bool-cases (is_greater (compare x y))) [
    | inl e ↦ rw e (
      All-insert (λ z. is_greater (compare y z) ≡ false) x ys (turn_greater compare o x y e) s.0,
      insert-IsSorted x ys s.1,
    )
    | inr e ↦ rw e ((e, lower-All x y ys e s.0), s)
  ]

  pub sort-IsSorted : (xs : List A) → IsSorted compare (sort_by compare xs)
  unfolding sort_by
  sort-IsSorted [] = tt
  sort-IsSorted (x ∷ xs) = insert-IsSorted x (sort_by compare xs) (sort-IsSorted xs)

  insert-perm : (x : A) (ys : List A) → Perm (insert_by compare x ys) (x ∷ ys)
  unfolding insert_by
  insert-perm x [] = Perm.rfl
  insert-perm x (y ∷ ys) = elim (Bool-cases (is_greater (compare x y))) [
    | inl e ↦ rw e (Perm.trans (Perm.cons y (insert-perm x ys)) (Perm.swap x y ys))
    | inr e ↦ rw e Perm.rfl
  ]

  pub sort-perm : (xs : List A) → Perm (sort_by compare xs) xs
  unfolding sort_by
  sort-perm [] = Perm.rfl
  sort-perm (x ∷ xs) = Perm.trans (insert-perm x (sort_by compare xs)) (Perm.cons x (sort-perm xs))

-- Sorting what is decorated, and undecorating.
module _ {ℓ κ} {A : Type ℓ} {B : Type κ} (f : A → B) (compare : B → B → Comparison) where
  abbrev below : A → A → Comparison
  below a b = compare (f a) (f b)

  insert-map :
      (x : A) (ys : List A) → insert_by compare (f x) (map f ys) ≡ map f (insert_by below x ys)
  unfolding insert_by
  insert-map x [] = refl
  insert-map x (y ∷ ys) = elim (Bool-cases (is_greater (compare (f x) (f y)))) [
    | inl e ↦ rw e (ap (f y ∷◌) (insert-map x ys))
    | inr e ↦ rw e refl
  ]

  pub sort-map : (xs : List A) → sort_by compare (map f xs) ≡ map f (sort_by below xs)
  unfolding sort_by
  sort-map [] = refl
  sort-map (x ∷ xs) = ap (insert_by compare (f x)) (sort-map xs) ∙ insert-map x (sort_by below xs)

undecorate-decorate :
    (keys : List SortKey) (docs : List Fields) → map undecorate (map (decorate keys) docs) ≡ docs
undecorate-decorate keys [] = refl
undecorate-decorate keys (doc ∷ docs) = ap (doc ∷◌) (undecorate-decorate keys docs)

sort_documents_lem :
    (keys : List SortKey) (docs : List Fields)
    → sort_documents keys docs ≡ sort_by (compare_documents keys) docs
unfolding sort_documents
sort_documents_lem keys docs =
    ap (map undecorate) (sort-map (decorate keys) (compare_decorated keys) docs)
    ∙ undecorate-decorate keys (sort_by (compare_documents keys) docs)

sort_documents_of :
    (specification : List (Str × Bool)) (sort : List Fields → List Fields) (keys : List SortKey)
    → parse_sort_specification specification ≡ ok keys
    → compile_sort specification ≡ ok sort
    → sort ≡ sort_by (compare_documents keys)
unfolding compile_sort
sort_documents_of specification sort keys hp h =
    let made : sort_documents keys ≡ sort =
      let e : ok (sort_documents keys) ≡ ok sort =
        sym (ap (λ r. r >>= λ ks. ok (sort_documents ks)) hp) ∙ h in
      cc in
    sym made ∙ fun_ext (sort_documents_lem keys)

abbrev entry_key : (Str × Bool) → SortKey
entry_key (path, descending) = record { segments = split path; descending = descending }

parse_entries-keys :
    (seen : List Str) (entries : List (Str × Bool)) (keys : List SortKey)
    → parse_entries seen entries ≡ ok keys
    → keys ≡ map entry_key entries
unfolding parse_entries
parse_entries-keys seen [] keys h = cc
parse_entries-keys seen ((path, descending) ∷ entries) keys h =
    let (named, h1) = require-eq-ok (not (length path == 0)) _ _ h in
    let (fresh, h2) = require-eq-ok (not (contains seen path)) _ _ h1 in
    let (valid, h3) = require-eq-ok (are_path_segments (split path)) _ _ h2 in
    let (rest, h4, h5) = >>=-eq-ok (parse_entries (path ∷ seen) entries) _ h3 in
    let e : entry_key (path, descending) ∷ rest ≡ keys = cc in
    sym e ∙ ap (entry_key (path, descending) ∷◌) (parse_entries-keys (path ∷ seen) entries rest h4)

parse_sort_specification-keys :
    (spec : List (Str × Bool)) (keys : List SortKey)
    → parse_sort_specification spec ≡ ok keys
    → keys ≡ map entry_key spec
unfolding parse_sort_specification
parse_sort_specification-keys spec keys h =
    parse_entries-keys [] spec keys (require-eq-ok (not (length spec == 0)) _ _ h).1

-- Documents whose keys are the same at all paths.
abbrev Tied : List (Str × Bool) → Fields → Fields → Type 0
Tied [] a b = Unit
Tied ((path, descending) ∷ spec) a b = (key_at path a ≡ key_at path b) × Tied spec a b

Says-at :
    (path : Str) (a b : Fields)
    → Says
        (compare_at (split path) a b)
        (KeyBefore (key_at path a) (key_at path b))
        (key_at path a ≡ key_at path b)
        (KeyBefore (key_at path b) (key_at path a))
Says-at path a b =
    let e : compare_at (split path) a b ≡ compare_key (key_at path a) (key_at path b) =
      ap₂ compare_sort_values (resolve_sort_value-ranked (split path) a)
        (resolve_sort_value-ranked (split path) b)
      ∙ compare_sort_values-key (resolved (split path) a) (resolved (split path) b) in
    rw e (compare_key-Says (key_at path a) (key_at path b))

Says-directed :
    (descending : Bool) (c : Comparison) (x y : List ℤ)
    → Says c (KeyBefore x y) (x ≡ y) (KeyBefore y x)
    → Says (directed descending c) (Directed descending x y) (x ≡ y) (Directed descending y x)
Says-directed false c x y s = s
Says-directed true c x y s = Says-flip c (KeyBefore x y) (x ≡ y) (KeyBefore y x) s

Says-documents :
    (spec : List (Str × Bool)) (a b : Fields)
    → Says
        (compare_documents (map entry_key spec) a b)
        (Before spec a b)
        (Tied spec a b)
        (Before spec b a)
unfolding compare_by
Says-documents [] a b = ((λ h. h), tt, λ h. h)
Says-documents ((path, descending) ∷ spec) a b =
    Says-or_else (directed descending (compare_at (split path) a b))
      (compare_documents (map entry_key spec) a b)
      (Directed descending (key_at path a) (key_at path b)) (key_at path a ≡ key_at path b)
      (key_at path b ≡ key_at path a) (Directed descending (key_at path b) (key_at path a))
      (Before spec a b) (Tied spec a b) (Before spec b a) (Tied ((path, descending) ∷ spec) a b) sym
      sym (λ e f. (e, f)) (λ h. h)
      (Says-directed descending (compare_at (split path) a b) (key_at path a) (key_at path b)
        (Says-at path a b))
      (Says-documents spec a b)

not-Before :
    (spec : List (Str × Bool)) (a b : Fields)
    → is_greater (compare_documents (map entry_key spec) a b) ≡ false
    → ¬ Before spec b a
not-Before spec a b h =
    by_order (compare_documents (map entry_key spec) a b) h (Says-documents spec a b)
  where
    by_order :
        (c : Comparison)
        → is_greater c ≡ false
        → Says c (Before spec a b) (Tied spec a b) (Before spec b a)
        → ¬ Before spec b a
    by_order less h (l, e, g) = g
    by_order same h (l, e, g) = g
    by_order greater h s = cc

All-not-Before :
    (spec : List (Str × Bool)) (a : Fields) (docs : List Fields)
    → All (λ b. is_greater (compare_documents (map entry_key spec) a b) ≡ false) docs
    → All (λ b. ¬ Before spec b a) docs
All-not-Before spec a [] all = tt
All-not-Before spec a (b ∷ docs) all = (not-Before spec a b all.0, All-not-Before spec a docs all.1)

sorted-InOrder :
    (spec : List (Str × Bool)) (docs : List Fields)
    → IsSorted (compare_documents (map entry_key spec)) docs
    → InOrder spec docs
sorted-InOrder spec [] s = tt
sorted-InOrder spec (a ∷ docs) s = (All-not-Before spec a docs s.0, sorted-InOrder spec docs s.1)

-- A sort that `compileSort` made returns the documents that it is given, each as often, and puts none
-- behind one that it is before under the specification: at the first path where the keys of the two
-- differ its key is the smaller one, or the larger one if the path is descending.
pub compile_sort-IsSorted :
    (specification : List (Str × Bool)) (sort : List Fields → List Fields) (docs : List Fields)
    → compile_sort specification ≡ ok sort
    → InOrder specification (sort docs) × Perm (sort docs) docs
unfolding compile_sort
compile_sort-IsSorted specification sort docs h =
    let (keys, hp, h1) = >>=-eq-ok (parse_sort_specification specification) _ h in
    let keys_are = parse_sort_specification-keys specification keys hp in
    rw (sort_documents_of specification sort keys hp h) (
      sorted-InOrder specification (sort_by (compare_documents keys) docs) (
          subst (λ ks. IsSorted (compare_documents ks) (sort_by (compare_documents keys) docs))
            keys_are (sort-IsSorted (compare_documents keys) (IsOrder-documents keys) docs)),
      sort-perm (compare_documents keys) (IsOrder-documents keys) docs,
    )
