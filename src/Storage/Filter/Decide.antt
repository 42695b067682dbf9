-- ===== src/Storage/Filter/Decide.antt =====
-- Tests of packages/storage/src/filter.ts that decide a statement, and how they are combined.
use mathlib.Core.Path.{subst}
use sinterdb.Prelude.{
  ◌≡◌, ◌⊎◌, inl, inr, Bool, true, false, not, List, [], ◌∷◌, ok, >>=-eq-ok, if◌then◌else◌,
}
use sinterdb.Protocol.Errors.{Throws}
use sinterdb.Storage.Predicate.{every, any, negated}

abbrev pub Decided : Bool → Type 0 → Type 0
Decided true S = S
Decided false S = ¬ S

-- Where the test returns, it says whether the statement holds.
abbrev pub Decides {ℓ} : {D : Type ℓ} → (D → Throws Bool) → (D → Type 0) → Type ℓ
Decides test S = (d : _) (b : Bool) → test d ≡ ok b → Decided b (S d)

pub Decided-not : (S : Type 0) (b : Bool) → Decided b S → Decided (not b) (¬ S)
Decided-not S true s = λ n. n s
Decided-not S false n = n

pub Decided-both : (S T : Type 0) (b : Bool) → S → Decided b T → Decided b (S × T)
Decided-both S T true s t = (s, t)
Decided-both S T false s n = λ st. n st.1

pub Decided-or : (S T : Type 0) (b : Bool) → ¬ S → Decided b T → Decided b (S ⊎ T)
Decided-or S T true n t = inr t
Decided-or S T false n m = λ st. elim st [ inl s ↦ n s | inr t ↦ m t ]

pub Decided-negated :
    (S : Type 0) (result : Throws Bool)
    → ((b : Bool) → result ≡ ok b → Decided b S)
    → (b : Bool) → negated result ≡ ok b
    → Decided b (¬ S)
Decided-negated S result decided b h =
    let (c, h1, h2) = >>=-eq-ok result (λ c. ok (not c)) h in
    let e : not c ≡ b = cc in subst (λ x. Decided x (¬ S)) e (Decided-not S c (decided c h1))

module _ {ℓ} {D : Type ℓ} where
  pub every-nil : Decides (every {A = D} []) (λ d. Unit)
  unfolding every
  every-nil d true h = tt
  every-nil d false h = cc

  pub any-nil : Decides (any {A = D} []) (λ d. ⊥)
  unfolding any
  any-nil d true h = cc
  any-nil d false h = λ x. x

  module _ (test : D → Throws Bool) (tests : List (D → Throws Bool)) (S T : D → Type 0)
      (head : Decides test S) where
    pub every-cons : Decides (every tests) T → Decides (every (test ∷ tests)) (λ d. S d × T d)
    unfolding every
    every-cons rest d b h =
        let (c, h1, h2) =
          >>=-eq-ok (test d) (λ holds. if holds then every tests d else ok false) h in
        after c b (head d c h1) h2
      where
        after :
            (c b : Bool)
            → Decided c (S d)
            → ◌≡◌ {A = Throws Bool} (if c then every tests d else ok false) (ok b)
            → Decided b (S d × T d)
        after true b s k = Decided-both (S d) (T d) b s (rest d b k)
        after false true n k = cc
        after false false n k = λ st. n st.0

    pub any-cons : Decides (any tests) T → Decides (any (test ∷ tests)) (λ d. S d ⊎ T d)
    unfolding any
    any-cons rest d b h =
        let (c, h1, h2) = >>=-eq-ok (test d) (λ holds. if holds then ok true else any tests d) h in
        after c b (head d c h1) h2
      where
        after :
            (c b : Bool)
            → Decided c (S d)
            → ◌≡◌ {A = Throws Bool} (if c then ok true else any tests d) (ok b)
            → Decided b (S d ⊎ T d)
        after true true s k = inl s
        after true false s k = cc
        after false b n k = Decided-or (S d) (T d) b n (rest d b k)
