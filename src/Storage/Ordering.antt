-- ===== src/Storage/Ordering.antt =====
-- Orders as the documentation of filters, sorting and indexes describes them, apart from the comparisons
-- of the code (packages/storage/src/filter.ts, sort.ts).
use mathlib.Core.Path.{subst}
use sinterdb.Prelude.{
  ℕ, ◌<◌, ◌+◌, ◌≡◌, refl, sym, ap, ◌∙◌, ◌⊎◌, inl, inr, false, Bool-cases, List, [], ◌∷◌, ltb, arith,
  ltb→lt,
}
use sinterdb.Prelude.Int.{ℤ, pos, negsuc, ltb_ℤ, pos_part, neg_part}
use sinterdb.Storage.Compare.{
  Comparison, less, same, greater, flip, or_else, compare_ℕ, compare_ℤ, compare_units,
}
use sinterdb.Storage.Compare.Order.{compare_key}

-- Lists of numbers in dictionary order: strings by their code units, byte arrays by their bytes.
abbrev pub LexBefore : List ℕ → List ℕ → Type 0
LexBefore xs [] = ⊥
LexBefore [] (y ∷ ys) = Unit
LexBefore (x ∷ xs) (y ∷ ys) = (x < y) ⊎ ((x ≡ y) × LexBefore xs ys)

abbrev pub Under : ℤ → ℤ → Type 0
Under a b = pos_part a + neg_part b < pos_part b + neg_part a

-- Lists of integers in dictionary order.
abbrev pub KeyBefore : List ℤ → List ℤ → Type 0
KeyBefore xs [] = ⊥
KeyBefore [] (y ∷ ys) = Unit
KeyBefore (x ∷ xs) (y ∷ ys) = Under x y ⊎ ((x ≡ y) × KeyBefore xs ys)

-- What a comparison says of the statements that the left is before, level with, and behind the right.
abbrev pub Says : Comparison → Type 0 → Type 0 → Type 0 → Type 0
Says less L E G = L × ¬ E × ¬ G
Says same L E G = ¬ L × E × ¬ G
Says greater L E G = ¬ L × ¬ E × G

not-lt : (a b : ℕ) → ltb a b ≡ false → ¬ (a < b)
not-lt a b e h = ground arith

compare_ℕ-Says : (a b : ℕ) → Says (compare_ℕ a b) (a < b) (a ≡ b) (b < a)
compare_ℕ-Says a b = elim (Bool-cases (ltb a b)) [
  | inl e ↦ (let l = ltb→lt a b e in rw e (l, (λ h. omega (arith, l)), (λ h. omega (arith, l))))
  | inr e ↦ elim (Bool-cases (ltb b a)) [
    | inl f ↦
        (let l = ltb→lt b a f in rw (e, f) ((λ h. omega (arith, l)), (λ h. omega (arith, l)), l))
    | inr f ↦
        (let l = not-lt a b e in let r = not-lt b a f in rw (e, f) (l, omega (arith, l, r), r))
  ]
]

antisym_ℤ : (a b : ℤ) → ¬ Under a b → ¬ Under b a → a ≡ b
antisym_ℤ (pos a) (pos b) h k = ap pos (omega (arith, h, k))
antisym_ℤ (pos a) (negsuc b) h k = absurd (omega (arith, h, k))
antisym_ℤ (negsuc a) (pos b) h k = absurd (omega (arith, h, k))
antisym_ℤ (negsuc a) (negsuc b) h k = ap negsuc (omega (arith, h, k))

apart_ℤ : (a b : ℤ) → Under a b → ¬ (a ≡ b)
apart_ℤ a b l e = let l' : Under b b = subst (λ x. Under x b) e l in omega (arith, l')

pub compare_ℤ-Says : (a b : ℤ) → Says (compare_ℤ a b) (Under a b) (a ≡ b) (Under b a)
compare_ℤ-Says a b = elim (Bool-cases (ltb_ℤ a b)) [
  | inl e ↦ (let l = ltb→lt _ _ e in rw e (l, apart_ℤ a b l, (λ h. omega (arith, l, h))))
  | inr e ↦ elim (Bool-cases (ltb_ℤ b a)) [
    | inl f ↦
        (let l = ltb→lt _ _ f in
          rw (e, f) ((λ h. omega (arith, l, h)), (λ h. apart_ℤ b a l (sym h)), l))
    | inr f ↦ (let l = not-lt _ _ e in let r = not-lt _ _ f in rw (e, f) (l, antisym_ℤ a b l r, r))
  ]
]

-- A comparison of heads and of what follows them, where `E''` says that both are level.
pub Says-or_else :
    (c d : Comparison) (L E F G L' E' G' E'' : Type 0)
    → (E → F)
    → (F → E)
    → (E → E' → E'')
    → (E'' → E × E')
    → Says c L E G
    → Says d L' E' G'
    → Says (or_else c d) (L ⊎ (E × L')) E'' (G ⊎ (F × G'))
Says-or_else less d L E F G L' E' G' E'' to back both parts (l, e, g) t =
    (inl l, (λ h. e (parts h).0), λ h. elim h [ inl k ↦ g k | inr k ↦ e (back k.0) ])
Says-or_else greater d L E F G L' E' G' E'' to back both parts (l, e, g) t =
    ((λ h. elim h [ inl k ↦ l k | inr k ↦ e k.0 ]), (λ h. e (parts h).0), inl g)
Says-or_else same less L E F G L' E' G' E'' to back both parts (l, e, g) (l', e', g') =
    (inr (e, l'), (λ h. e' (parts h).1), λ h. elim h [ inl k ↦ g k | inr k ↦ g' k.1 ])
Says-or_else same greater L E F G L' E' G' E'' to back both parts (l, e, g) (l', e', g') =
    ((λ h. elim h [ inl k ↦ l k | inr k ↦ l' k.1 ]), (λ h. e' (parts h).1), inr (to e, g'))
Says-or_else same same L E F G L' E' G' E'' to back both parts (l, e, g) (l', e', g') = (
  (λ h. elim h [ inl k ↦ l k | inr k ↦ l' k.1 ]),
  both e e',
  λ h. elim h [ inl k ↦ g k | inr k ↦ g' k.1 ],
)

pub Says-flip : (c : Comparison) (L E G : Type 0) → Says c L E G → Says (flip c) G E L
Says-flip less L E G (l, e, g) = (g, e, l)
Says-flip same L E G (l, e, g) = (g, e, l)
Says-flip greater L E G (l, e, g) = (g, e, l)

uncons : {A : Type 0} {x y : A} {xs ys : List A} → x ∷ xs ≡ y ∷ ys → (x ≡ y) × (xs ≡ ys)
uncons h = (cc, cc)

recons : {A : Type 0} {x y : A} {xs ys : List A} → x ≡ y → xs ≡ ys → x ∷ xs ≡ y ∷ ys
recons {x = x} {y = y} {xs = xs} {ys = ys} e f = ap (◌∷ xs) e ∙ ap (y ∷◌) f

pub compare_units-Says :
    (xs ys : List ℕ) → Says (compare_units xs ys) (LexBefore xs ys) (xs ≡ ys) (LexBefore ys xs)
unfolding compare_units
compare_units-Says [] [] = ((λ h. h), refl, (λ h. h))
compare_units-Says [] (y ∷ ys) = (tt, (λ h. cc), (λ h. h))
compare_units-Says (x ∷ xs) [] = ((λ h. h), (λ h. cc), tt)
compare_units-Says (x ∷ xs) (y ∷ ys) =
    Says-or_else (compare_ℕ x y) (compare_units xs ys) (x < y) (x ≡ y) (y ≡ x) (y < x)
      (LexBefore xs ys) (xs ≡ ys) (LexBefore ys xs) (x ∷ xs ≡ y ∷ ys) sym sym recons uncons
      (compare_ℕ-Says x y) (compare_units-Says xs ys)

pub compare_key-Says :
    (xs ys : List ℤ) → Says (compare_key xs ys) (KeyBefore xs ys) (xs ≡ ys) (KeyBefore ys xs)
unfolding compare_key
compare_key-Says [] [] = ((λ h. h), refl, (λ h. h))
compare_key-Says [] (y ∷ ys) = (tt, (λ h. cc), (λ h. h))
compare_key-Says (x ∷ xs) [] = ((λ h. h), (λ h. cc), tt)
compare_key-Says (x ∷ xs) (y ∷ ys) =
    Says-or_else (compare_ℤ x y) (compare_key xs ys) (Under x y) (x ≡ y) (y ≡ x) (Under y x)
      (KeyBefore xs ys) (xs ≡ ys) (KeyBefore ys xs) (x ∷ xs ≡ y ∷ ys) sym sym recons uncons
      (compare_ℤ-Says x y) (compare_key-Says xs ys)
