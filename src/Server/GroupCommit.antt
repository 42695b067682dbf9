-- ===== src/Server/GroupCommit.antt =====
-- packages/server/src/group-commit.ts. The engine is a parameter: whether it has uncommitted writes,
-- and `commit`, which returns the engine after it and what it throws, if anything. `run` returns the
-- callbacks that it calls, each with its argument; what a callback does in turn, such as another
-- `whenDurable`, is the next step, and callbacks do not throw. `immediates` counts the calls of `run`
-- that `setImmediate` has still to make.
pub mod Order
use sinterdb.Prelude.{
  ℕ, suc, ◌+◌, ◌-◌, Bool, true, false, Option, List, [], ◌∷◌, ◌++◌, map, if◌then◌else◌,
}

pub record GroupCommitter {ℓ κ} (E : Type ℓ) (C : Type κ) : Type (ℓ ⊔ κ) where
  pub engine : E
  pub waiting : List C
  pub scheduled : Bool
  pub immediates : ℕ

module _ {ℓ κ ι} {E : Type ℓ} {C : Type κ} {X : Type ι} (commit : E → E × Option X) where
  unfoldable pub new_committer : E → GroupCommitter E C
  new_committer engine = record { engine = engine; waiting = []; scheduled = false; immediates = 0 }

  unfoldable pub when_durable : C → GroupCommitter E C → GroupCommitter E C
  when_durable callback s = record {
    engine = s.engine;
    waiting = s.waiting ++ callback ∷ [];
    scheduled = true;
    immediates = if s.scheduled then s.immediates else s.immediates + 1;
  }

  -- A call of `run`, which is one immediate less.
  unfoldable pub run : GroupCommitter E C → List (C × Option X) × GroupCommitter E C
  run s =
      let (engine, failure) = commit s.engine in
      (
        map (λ callback. (callback, failure)) s.waiting,
        record { engine = engine; waiting = []; scheduled = false; immediates = s.immediates - 1 },
      )

  unfoldable pub has_pending : (E → Bool) → GroupCommitter E C → Bool
  has_pending has_uncommitted_writes s = has_uncommitted_writes s.engine
