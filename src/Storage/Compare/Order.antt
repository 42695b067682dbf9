-- ===== src/Storage/Compare/Order.antt =====
-- Comparisons that order their values, and the comparison of lists of integers in dictionary order, to
-- which all comparisons of the storage engine come down.
use mathlib.Core.Path.{ap₂, subst}
use sinterdb.Prelude.{fun_ext, ℕ, ◌≡◌, refl, sym, ap, ◌∙◌, List, [], ◌∷◌, map, arith, true, false}
use sinterdb.Prelude.Int.{ℤ, pos}
use sinterdb.Storage.Compare.{
  Comparison, less, same, greater, flip, is_greater, is_less, or_else, compare_ℕ, compare_ℤ,
  compare_units,
}

-- A total order up to what it does not tell apart.
pub record IsOrder {ℓ} {A : Type ℓ} (compare : A → A → Comparison) : Type ℓ where
  pub turned : (a b : A) → compare b a ≡ flip (compare a b)
  pub same_trans : (a b c : A) → compare a b ≡ same → compare a c ≡ compare b c
  pub less_trans : (a b c : A) → compare a b ≡ less → compare b c ≡ less → compare a c ≡ less

pub IsOrder-ℤ : IsOrder compare_ℤ
IsOrder-ℤ = record {
  turned = λ a b. ground arith;
  same_trans = λ a b c h. ground arith;
  less_trans = λ a b c h k. ground arith;
}

pub IsOrder-pull {ℓ κ} :
    {A : Type ℓ} {B : Type κ} (f : B → A) (compare : A → A → Comparison)
    → IsOrder compare
    → IsOrder (λ (a b : B). compare (f a) (f b))
IsOrder-pull f compare o = record {
  turned = λ a b. o.turned (f a) (f b);
  same_trans = λ a b c. o.same_trans (f a) (f b) (f c);
  less_trans = λ a b c. o.less_trans (f a) (f b) (f c);
}

unfoldable pub compare_key : List ℤ → List ℤ → Comparison
compare_key [] [] = same
compare_key [] (y ∷ ys) = less
compare_key (x ∷ xs) [] = greater
compare_key (x ∷ xs) (y ∷ ys) = or_else (compare_ℤ x y) (compare_key xs ys)

pub or_else-flip : (c d : Comparison) → or_else (flip c) (flip d) ≡ flip (or_else c d)
or_else-flip less d = refl
or_else-flip same d = refl
or_else-flip greater d = refl

-- One step of a dictionary order, from the facts on the heads and on what follows.
pub or_else_same :
    (p q r p' q' r' : Comparison)
    → (p ≡ same → r ≡ q)
    → (p' ≡ same → r' ≡ q')
    → or_else p p' ≡ same
    → or_else r r' ≡ or_else q q'
or_else_same same q r same q' r' h k e = rw (h refl) (rw (k refl) refl)
or_else_same same q r less q' r' h k e = cc
or_else_same same q r greater q' r' h k e = cc
or_else_same less q r p' q' r' h k e = cc
or_else_same greater q r p' q' r' h k e = cc

pub or_else_less :
    (p q r p' q' r' : Comparison)
    → (p ≡ same → r ≡ q)
    → (q ≡ same → r ≡ p)
    → (p ≡ less → q ≡ less → r ≡ less)
    → (p' ≡ less → q' ≡ less → r' ≡ less)
    → or_else p p' ≡ less
    → or_else q q' ≡ less
    → or_else r r' ≡ less
or_else_less same same r p' q' r' h1 h2 h3 h4 e f = rw (h1 refl) (h4 e f)
or_else_less same less r p' q' r' h1 h2 h3 h4 e f = rw (h1 refl) refl
or_else_less same greater r p' q' r' h1 h2 h3 h4 e f = cc
or_else_less less same r p' q' r' h1 h2 h3 h4 e f = rw (h2 refl) refl
or_else_less less less r p' q' r' h1 h2 h3 h4 e f = rw (h3 refl refl) refl
or_else_less less greater r p' q' r' h1 h2 h3 h4 e f = cc
or_else_less greater q r p' q' r' h1 h2 h3 h4 e f = cc

module _ {ℓ} {A : Type ℓ} {compare : A → A → Comparison} (o : IsOrder compare) where
  -- What is alike may be put on the right as well.
  pub same_right : (a b c : A) → compare b c ≡ same → compare a c ≡ compare a b
  same_right a b c h =
      let back : compare c b ≡ same = o.turned b c ∙ ap flip h in
      o.turned c a ∙ ap flip (o.same_trans c b a back) ∙ sym (o.turned b a)

  pub refl_same : (a : A) → compare a a ≡ same
  refl_same a = fixed (compare a a) (o.turned a a)
    where
      fixed : (c : Comparison) → c ≡ flip c → c ≡ same
      fixed less e = cc
      fixed same e = refl
      fixed greater e = cc

compare_key-flip : (xs ys : List ℤ) → compare_key ys xs ≡ flip (compare_key xs ys)
unfolding compare_key
compare_key-flip [] [] = refl
compare_key-flip [] (y ∷ ys) = refl
compare_key-flip (x ∷ xs) [] = refl
compare_key-flip (x ∷ xs) (y ∷ ys) =
    rw (IsOrder-ℤ.turned x y)
      (rw (compare_key-flip xs ys) (or_else-flip (compare_ℤ x y) (compare_key xs ys)))

compare_key_same :
    (xs ys zs : List ℤ) → compare_key xs ys ≡ same → compare_key xs zs ≡ compare_key ys zs
unfolding compare_key
compare_key_same [] [] zs h = refl
compare_key_same [] (y ∷ ys) zs h = cc
compare_key_same (x ∷ xs) [] zs h = cc
compare_key_same (x ∷ xs) (y ∷ ys) [] h = refl
compare_key_same (x ∷ xs) (y ∷ ys) (z ∷ zs) h =
    or_else_same _ _ _ _ _ _ (IsOrder-ℤ.same_trans x y z) (compare_key_same xs ys zs) h

compare_key_less :
    (xs ys zs : List ℤ)
    → compare_key xs ys ≡ less
    → compare_key ys zs ≡ less
    → compare_key xs zs ≡ less
unfolding compare_key
compare_key_less xs [] [] h k = cc
compare_key_less [] (y ∷ ys) [] h k = cc
compare_key_less (x ∷ xs) (y ∷ ys) [] h k = cc
compare_key_less [] ys (z ∷ zs) h k = refl
compare_key_less (x ∷ xs) [] (z ∷ zs) h k = cc
compare_key_less (x ∷ xs) (y ∷ ys) (z ∷ zs) h k =
    or_else_less _ _ _ _ _ _ (IsOrder-ℤ.same_trans x y z) (same_right IsOrder-ℤ x y z)
      (IsOrder-ℤ.less_trans x y z) (compare_key_less xs ys zs) h k

pub IsOrder-key : IsOrder compare_key
IsOrder-key = record {
  turned = compare_key-flip;
  same_trans = compare_key_same;
  less_trans = compare_key_less;
}

pub compare_units-key :
    (xs ys : List ℕ) → compare_units xs ys ≡ compare_key (map pos xs) (map pos ys)
unfolding compare_units compare_key
compare_units-key [] [] = refl
compare_units-key [] (y ∷ ys) = refl
compare_units-key (x ∷ xs) [] = refl
compare_units-key (x ∷ xs) (y ∷ ys) =
    let heads : compare_ℕ x y ≡ compare_ℤ (pos x) (pos y) = ground arith in
    rw heads (rw (compare_units-key xs ys) refl)

module _ {ℓ} {A : Type ℓ} where
  pub IsOrder-ext :
      (f : A → A → Comparison) {g : A → A → Comparison}
      → ((a b : A) → f a b ≡ g a b)
      → IsOrder g
      → IsOrder f
  IsOrder-ext f same_as o = subst IsOrder (sym (fun_ext λ a. fun_ext λ b. same_as a b)) o

  pub IsOrder-same : IsOrder (λ (a b : A). same)
  IsOrder-same = record {
    turned = λ a b. refl;
    same_trans = λ a b c h. refl;
    less_trans = λ a b c h k. h;
  }

  pub IsOrder-flip : (f : A → A → Comparison) → IsOrder f → IsOrder (λ a b. flip (f a b))
  IsOrder-flip f o = record {
    turned = λ a b. ap flip (o.turned a b);
    same_trans = λ a b c h. ap flip (o.same_trans a b c (flip_same (f a b) h));
    less_trans = λ a b c h k.
        let down : f c a ≡ less = o.less_trans c b a (o.turned b c ∙ k) (o.turned a b ∙ h) in
        sym (o.turned a c) ∙ down;
  }
    where
      flip_same : (c : Comparison) → flip c ≡ same → c ≡ same
      flip_same same e = refl
      flip_same less e = cc
      flip_same greater e = cc

  pub IsOrder-or_else :
      (f g : A → A → Comparison) → IsOrder f → IsOrder g → IsOrder (λ a b. or_else (f a b) (g a b))
  IsOrder-or_else f g o p = record {
    turned = λ a b. ap₂ or_else (o.turned a b) (p.turned a b) ∙ or_else-flip (f a b) (g a b);
    same_trans = λ a b c.
        or_else_same (f a b) (f b c) (f a c) (g a b) (g b c) (g a c) (o.same_trans a b c)
          (p.same_trans a b c);
    less_trans = λ a b c.
        or_else_less (f a b) (f b c) (f a c) (g a b) (g b c) (g a c) (o.same_trans a b c)
          (same_right o a b c) (o.less_trans a b c) (p.less_trans a b c);
  }

module _ {ℓ} {A : Type ℓ} (compare : A → A → Comparison) (o : IsOrder compare) where
  pub le_trans :
      (a b c : A)
      → is_greater (compare a b) ≡ false
      → is_greater (compare b c) ≡ false
      → is_greater (compare a c) ≡ false
  le_trans a b c h k =
      step (compare a b) (compare b c) (compare a c) h k (o.same_trans a b c)
        (λ e.
          o.turned c a
          ∙ ap flip (o.same_trans c b a (o.turned b c ∙ ap flip e))
          ∙ sym (o.turned b a))
        (o.less_trans a b c)
    where
      step :
          (p q r : Comparison)
          → is_greater p ≡ false
          → is_greater q ≡ false
          → (p ≡ same → r ≡ q)
          → (q ≡ same → r ≡ p)
          → (p ≡ less → q ≡ less → r ≡ less)
          → is_greater r ≡ false
      step same q r h k f g i = rw (f refl) k
      step less same r h k f g i = rw (g refl) refl
      step less less r h k f g i = rw (i refl refl) refl
      step less greater r h k f g i = cc
      step greater q r h k f g i = cc

  pub turn_greater : (a b : A) → is_greater (compare a b) ≡ true → is_greater (compare b a) ≡ false
  turn_greater a b h = step (compare a b) h (o.turned a b)
    where
      step :
          (c : Comparison)
          → is_greater c ≡ true
          → compare b a ≡ flip c
          → is_greater (compare b a) ≡ false
      step greater h e = rw e refl
      step less h e = cc
      step same h e = cc

  -- What is at most something less is less.
  pub le_less :
      (a b c : A)
      → is_greater (compare a b) ≡ false
      → is_less (compare b c) ≡ true
      → is_less (compare a c) ≡ true
  le_less a b c h k =
      step (compare a b) (compare b c) (compare a c) h k (o.same_trans a b c) (o.less_trans a b c)
    where
      step :
          (p q r : Comparison)
          → is_greater p ≡ false
          → is_less q ≡ true
          → (p ≡ same → r ≡ q)
          → (p ≡ less → q ≡ less → r ≡ less)
          → is_less r ≡ true
      step same q r h k f i = rw (f refl) k
      step less less r h k f i = rw (i refl refl) refl
      step less same r h k f i = cc
      step less greater r h k f i = cc
      step greater q r h k f i = cc

  -- What is not less is at least as great.
  pub not_less : (a b : A) → is_less (compare a b) ≡ false → is_greater (compare b a) ≡ false
  not_less a b h = step (compare a b) h (o.turned a b)
    where
      step :
          (c : Comparison)
          → is_less c ≡ false
          → compare b a ≡ flip c
          → is_greater (compare b a) ≡ false
      step less h e = cc
      step same h e = rw e refl
      step greater h e = rw e refl
