-- ===== src/Server/GroupCommit/Order.antt =====
-- Whatever the order of calls and flushes is, each callback is called once, in its turn.
use sinterdb.Prelude.{
  ℕ, suc, ◌≡◌, ◌≢◌, refl, sym, ap, ◌∙◌, inl, inr, Option, List, [], ◌∷◌, ◌++◌, map, append_assoc,
  append-nil, if◌then◌else◌, Bool-cases, arith,
}
use sinterdb.Server.GroupCommit.{GroupCommitter, new_committer, when_durable, run}

module _ {ℓ κ ι} {E : Type ℓ} {C : Type κ} {X : Type ι} (commit : E → E × Option X) where
  -- What can come about: the callbacks that were handed over, and those that were called with their
  -- argument. `run` is called only by the event loop, once for each immediate.
  pub data Reaches : GroupCommitter E C → List C → List (C × Option X) → Type (ℓ ⊔ κ ⊔ ι) where
    start : (e : E) → Reaches (new_committer commit e) [] []
    hand_over :
        (s : GroupCommitter E C) (asked : List C) (called : List (C × Option X)) (callback : C)
        → Reaches s asked called
        → Reaches (when_durable commit callback s) (asked ++ callback ∷ []) called
    fire :
        (s : GroupCommitter E C) (asked : List C) (called : List (C × Option X)) (n : ℕ)
        → s.immediates ≡ suc n
        → Reaches s asked called
        → Reaches (run commit s).1 asked (called ++ (run commit s).0)

  unfoldable pub names : List (C × Option X) → List C
  names [] = []
  names ((c, x) ∷ rest) = c ∷ names rest

  names-append : (xs ys : List (C × Option X)) → names (xs ++ ys) ≡ names xs ++ names ys
  unfolding names
  names-append [] ys = refl
  names-append ((c, x) ∷ xs) ys = ap (c ∷◌) (names-append xs ys)

  names-run : (cs : List C) (failure : Option X) → names (map (λ c. (c, failure)) cs) ≡ cs
  unfolding names
  names-run [] failure = refl
  names-run (c ∷ cs) failure = ap (c ∷◌) (names-run cs failure)

  -- The callbacks that were called, and behind them those that wait, are the callbacks that were
  -- handed to `whenDurable`, each once and in their order.
  pub Reaches-order :
      {s : GroupCommitter E C} {asked : List C} {called : List (C × Option X)}
      → Reaches s asked called
      → names called ++ s.waiting ≡ asked
  unfolding new_committer when_durable run names
  Reaches-order (start e) = refl
  Reaches-order (hand_over s asked called callback r) =
      sym (append_assoc (names called) s.waiting (callback ∷ []))
      ∙ ap (◌++ (callback ∷ [])) (Reaches-order r)
  Reaches-order (fire s asked called n pending r) =
      append-nil (names (called ++ (run commit s).0))
      ∙ names-append called (run commit s).0
      ∙ ap (names called ++◌) (names-run s.waiting (commit s.engine).1)
      ∙ Reaches-order r

  -- One call of `run` is outstanding while `scheduled` is set, and none otherwise.
  scheduled-once :
      {s : GroupCommitter E C} {asked : List C} {called : List (C × Option X)}
      → Reaches s asked called
      → s.immediates ≡ (if s.scheduled then 1 else 0)
  unfolding new_committer when_durable run
  scheduled-once (start e) = refl
  scheduled-once (hand_over s asked called callback r) =
      let before = scheduled-once r in
      elim (Bool-cases s.scheduled) [
        | inl is ↦ rw is (rw is at before)
        | inr is ↦ let none_left : s.immediates ≡ 0 = rw is at before in rw is (omega arith)
      ]
  scheduled-once (fire s asked called n pending r) =
      let before = scheduled-once r in
      elim (Bool-cases s.scheduled) [
        | inl is ↦ let one : s.immediates ≡ 1 = rw is at before in omega arith
        | inr is ↦ let none_left : s.immediates ≡ 0 = rw is at before in omega arith
      ]

  -- While a callback waits, the event loop has exactly one call of `run` to make, which will call it.
  pub Reaches-waiting :
      {s : GroupCommitter E C} {asked : List C} {called : List (C × Option X)}
      → Reaches s asked called
      → s.waiting ≢ []
      → s.immediates ≡ 1
  unfolding new_committer when_durable run
  Reaches-waiting (start e) some = absurd (some refl)
  Reaches-waiting (hand_over s asked called callback r) some =
      scheduled-once (hand_over s asked called callback r)
  Reaches-waiting (fire s asked called n pending r) some = absurd (some refl)
