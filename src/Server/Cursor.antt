-- ===== src/Server/Cursor.antt =====
-- packages/server/src/cursor-manager.ts. An iterator is the list of the documents that it still has to
-- yield, the map of cursors an association list in the order of insertion, and the clock an argument
-- of the operations that read it. The size of a document is the parameter `size_of`, which is
-- `estimateEncodedSize` in the source.
pub mod Batch
pub mod Ids
pub mod Map
pub mod Fetch
use sinterdb.Prelude.{
  ℕ, zero, suc, ◌+◌, ◌-◌, Bool, true, false, not, ◌&&◌, ◌||◌, Option, none, some, List, [], ◌∷◌,
  Result, ok, err, ◌>>=◌, ◌>>◌, require, leb, ltb, ◌==◌, if◌then◌else◌, length,
}

abbrev pub max_safe_integer : ℕ
max_safe_integer = 9007199254740991

pub data CursorError : Type 0 where
  type_error : CursorError
  cursor_not_found : ℕ → CursorError
  no_ids : CursorError

pub record CursorState {ℓ} (D : Type ℓ) : Type ℓ where
  pub iterator : List D
  pub buffered : Option D
  pub exhausted : Bool
  pub last_used : ℕ

pub record CursorBatch {ℓ} (D : Type ℓ) : Type ℓ where
  pub cursor_id : Option ℕ
  pub documents : List D

pub record CursorManager {ℓ} (D : Type ℓ) : Type ℓ where
  pub cursors : List (ℕ × CursorState D)
  pub next_cursor_id : ℕ
  pub idle_timeout : ℕ
  pub max_batch_bytes : ℕ

-- A state, and a manager with another map.
abbrev pub state {ℓ} : {D : Type ℓ} → List D → Option D → Bool → ℕ → CursorState D
state iterator buffered exhausted last_used = record {
  iterator = iterator;
  buffered = buffered;
  exhausted = exhausted;
  last_used = last_used;
}

abbrev pub with_cursors {ℓ} :
    {D : Type ℓ} → List (ℕ × CursorState D) → CursorManager D → CursorManager D
with_cursors cursors m = record {
  cursors = cursors;
  next_cursor_id = m.next_cursor_id;
  idle_timeout = m.idle_timeout;
  max_batch_bytes = m.max_batch_bytes;
}

-- What an operation returns or throws, and the manager after it.
abbrev pub Outcome {ℓ κ} : Type ℓ → Type κ → Type (ℓ ⊔ κ)
Outcome D A = Result CursorError A × CursorManager D

-- `Number.isSafeInteger(value) && value > 0`.
abbrev pub is_positive_safe : ℕ → Bool
is_positive_safe n = ltb 0 n && leb n max_safe_integer

unfoldable pub validate_cursor_id : ℕ → Result CursorError (Unit {0})
validate_cursor_id cursor_id = require (is_positive_safe cursor_id) type_error

unfoldable pub validate_batch_size : ℕ → Result CursorError (Unit {0})
validate_batch_size batch_size = require (is_positive_safe batch_size) type_error

unfoldable pub advance : ℕ → ℕ
advance id = if id == max_safe_integer then 1 else id + 1

module _ {ℓ} {D : Type ℓ} where
  unfoldable pub new_manager : ℕ → ℕ → Result CursorError (CursorManager D)
  new_manager idle_timeout max_batch_bytes = do
    require (is_positive_safe idle_timeout) type_error
    require (is_positive_safe max_batch_bytes) type_error
    ok (record {
      cursors = [];
      next_cursor_id = 1;
      idle_timeout = idle_timeout;
      max_batch_bytes = max_batch_bytes;
    })

  -- `isExhausted`.
  unfoldable pub is_exhausted : CursorState D → Bool
  is_exhausted s = elim s.buffered [ none ↦ s.exhausted | some d ↦ false ]

  -- `Map.get`, `Map.has`, `Map.set` and `Map.delete`.
  unfoldable pub find : ℕ → List (ℕ × CursorState D) → Option (CursorState D)
  find key [] = none
  find key ((k, s) ∷ rest) = if k == key then some s else find key rest

  unfoldable pub has : ℕ → List (ℕ × CursorState D) → Bool
  has key [] = false
  has key ((k, s) ∷ rest) = if k == key then true else has key rest

  unfoldable pub put : ℕ → CursorState D → List (ℕ × CursorState D) → List (ℕ × CursorState D)
  put key s [] = (key, s) ∷ []
  put key s ((k, t) ∷ rest) = if k == key then (k, s) ∷ rest else (k, t) ∷ put key s rest

  unfoldable pub delete : ℕ → List (ℕ × CursorState D) → List (ℕ × CursorState D)
  delete key [] = []
  delete key ((k, s) ∷ rest) = if k == key then rest else (k, s) ∷ delete key rest

  unfoldable pub keep_recent : ℕ → ℕ → List (ℕ × CursorState D) → List (ℕ × CursorState D)
  keep_recent now timeout [] = []
  keep_recent now timeout ((k, s) ∷ rest) =
      if leb (s.last_used + timeout) now
      then keep_recent now timeout rest
      else (k, s) ∷ keep_recent now timeout rest

  -- `lastUsed <= now - idleTimeoutMS`.
  unfoldable pub sweep_expired : ℕ → CursorManager D → ℕ × CursorManager D
  sweep_expired now m =
      let kept = keep_recent now m.idle_timeout m.cursors in
      (length m.cursors - length kept, with_cursors kept m)

  -- The loop of `allocateCursorId` from `next` on; it has come round if `next` is `first` again.
  unfoldable pub allocate_from : ℕ → ℕ → ℕ → List (ℕ × CursorState D) → Result CursorError ℕ
  allocate_from zero first next cursors = err no_ids
  allocate_from (suc fuel) first next cursors = elim (has next cursors) [
    | false ↦ ok next
    | true ↦ elim (advance next == first) [
      | true ↦ err no_ids
      | false ↦ allocate_from fuel first (advance next) cursors
    ]
  ]

  -- No more rounds than there are cursors find their id in use, so one more is enough.
  unfoldable pub allocate_cursor_id : CursorManager D → Outcome D ℕ
  allocate_cursor_id m =
      elim (allocate_from (suc (length m.cursors)) m.next_cursor_id m.next_cursor_id m.cursors) [
        | err e ↦ (err e, m)
        | ok id ↦ (
          ok id,
          record {
            cursors = m.cursors;
            next_cursor_id = advance id;
            idle_timeout = m.idle_timeout;
            max_batch_bytes = m.max_batch_bytes;
          },
        )
      ]

module _ {ℓ} {D : Type ℓ} (size_of : D → ℕ) where
  -- The loop of `takeBatch`, over the documents of the iterator: `count` and `bytes` are what the batch
  -- holds already. What is left is the iterator, what is buffered, and whether the end was seen.
  unfoldable pub fill : ℕ → ℕ → ℕ → ℕ → CursorState D → List D → List D × CursorState D
  fill batch_size max_bytes count bytes s [] = ([], state [] s.buffered true s.last_used)
  fill batch_size max_bytes count bytes s (d ∷ ds) =
      if leb batch_size count || (ltb 0 count && ltb max_bytes (bytes + size_of d))
      then ([], state ds (some d) s.exhausted s.last_used)
      else let (batch, t) = fill batch_size max_bytes (count + 1) (bytes + size_of d) s ds in
        (d ∷ batch, t)

  -- `takeBatch`, by what was buffered.
  unfoldable pub take_after : Option D → CursorState D → ℕ → ℕ → List D × CursorState D
  take_after none s batch_size max_bytes = fill batch_size max_bytes 0 0 s s.iterator
  take_after (some d) s batch_size max_bytes =
      let (batch, t) =
        fill batch_size max_bytes 1 (size_of d) (state s.iterator none s.exhausted s.last_used)
          s.iterator in
      (d ∷ batch, t)

  unfoldable pub take_batch : CursorState D → ℕ → ℕ → List D × CursorState D
  take_batch s batch_size max_bytes = take_after s.buffered s batch_size max_bytes

  -- The end of `open`, with the batch and the state that are left.
  unfoldable pub opened : List D × CursorState D → CursorManager D → Outcome D (CursorBatch D)
  opened (batch, t) m =
      if is_exhausted t
      then (ok (record { cursor_id = none; documents = batch }), m)
      else let (id, m1) = allocate_cursor_id m in
        elim id [
          | err e ↦ (err e, m1)
          | ok id ↦ (
            ok (record { cursor_id = some id; documents = batch }),
            with_cursors (put id t m1.cursors) m1,
          )
        ]

  unfoldable pub open_cursor : ℕ → List D → ℕ → CursorManager D → Outcome D (CursorBatch D)
  open_cursor now documents batch_size m = elim (validate_batch_size batch_size) [
    | err e ↦ (err e, m)
    | ok _ ↦
        opened (take_batch (state documents none false now) batch_size m.max_batch_bytes)
          (sweep_expired now m).1
  ]

  -- The end of `getMore`.
  unfoldable pub continued :
      ℕ → List D × CursorState D → CursorManager D → Outcome D (CursorBatch D)
  continued cursor_id (batch, t) m =
      if is_exhausted t
      then (
        ok (record { cursor_id = none; documents = batch }),
        with_cursors (delete cursor_id m.cursors) m,
      )
      else (
        ok (record { cursor_id = some cursor_id; documents = batch }),
        with_cursors (put cursor_id t m.cursors) m,
      )

  unfoldable pub get_more : ℕ → ℕ → ℕ → CursorManager D → Outcome D (CursorBatch D)
  get_more now cursor_id batch_size m =
      elim (validate_cursor_id cursor_id >> validate_batch_size batch_size) [
        | err e ↦ (err e, m)
        | ok _ ↦
            let m1 = (sweep_expired now m).1 in
            elim (find cursor_id m1.cursors) [
              | none ↦ (err (cursor_not_found cursor_id), m1)
              | some s ↦
                  continued cursor_id
                    (take_batch (state s.iterator s.buffered s.exhausted now) batch_size
                      m.max_batch_bytes)
                    m1
            ]
      ]

module _ {ℓ} {D : Type ℓ} where
  unfoldable pub close : ℕ → CursorManager D → Outcome D Bool
  close cursor_id m = elim (validate_cursor_id cursor_id) [
    | err e ↦ (err e, m)
    | ok _ ↦ (ok (has cursor_id m.cursors), with_cursors (delete cursor_id m.cursors) m)
  ]

  unfoldable pub clear : CursorManager D → CursorManager D
  clear m = with_cursors [] m
