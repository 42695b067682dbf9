-- ===== src/Server/Tests.antt =====
-- Size estimates and batches on concrete inputs.
use sinterdb.Prelude.{
  ℕ, ◌≤◌, ◌≡◌, ◌↔◌, ◌⊎◌, refl, true, false, some, [], ◌∷◌, ◌++◌, ok, length, arith,
}
use sinterdb.Protocol.Document.{Value, null, array, cons, nil, items_length}
use sinterdb.Protocol.Encoder.{encode_document_value}
use sinterdb.Protocol.Canonical.{canonical, plain}
use sinterdb.Protocol.BigEndian.{be_bytes}
use sinterdb.Protocol.Canonical.Accepts.{encode_iff}
use sinterdb.Prelude.{Option, ◌==◌, if◌then◌else◌, ◌+◌, List, none, some}
use sinterdb.Server.GroupCommit.{GroupCommitter, new_committer, when_durable, run}
use sinterdb.Server.GroupCommit.Order.{
  Reaches, start, hand_over, fire, names, Reaches-order, Reaches-waiting,
}
use sinterdb.Server.DocumentSize.{estimate_encoded_size}
use sinterdb.Server.DocumentSize.Bound.{encode-le_estimate}
use sinterdb.Server.Cursor.{CursorState, state, is_exhausted, fill, take_after, take_batch}
use sinterdb.Server.Cursor.{
  CursorManager, with_cursors, allocate_cursor_id, has, find, put, delete, keep_recent,
  sweep_expired, validate_cursor_id, validate_batch_size, continued, get_more,
}
use sinterdb.Server.Cursor.Ids.{allocate_cursor_id-has}
use sinterdb.Server.Cursor.Fetch.{Fetches, last, again, Fetches-contents}
use sinterdb.Server.Cursor.Batch.{
  contents, total, take_batch-contents, take_batch-bounds, take_batch-exhausted,
}

abbrev pair : Value
pair = array (cons null (cons null nil))

pair-encoded : encode_document_value pair ≡ ok (plain (canonical pair))
unfolding plain canonical be_bytes items_length
pair-encoded =
    (encode_iff pair (plain (canonical pair))).1
      ((omega arith, (omega arith, (omega arith, tt))), omega arith, refl)

encode-le_estimate_example : length (plain (canonical pair)) ≤ estimate_encoded_size pair
encode-le_estimate_example =
    encode-le_estimate pair (plain (canonical pair)) (tt, (tt, tt)) pair-encoded

-- Documents that are their own size; one is kept back from the batch before.
abbrev size_of : ℕ → ℕ
size_of n = n

abbrev cursor : CursorState ℕ
cursor = state (4 ∷ (2 ∷ [])) (some 3) false 0

take_batch-contents_example :
    (take_batch size_of cursor 10 8).0 ++ contents (take_batch size_of cursor 10 8).1
    ≡ contents cursor
take_batch-contents_example = take_batch-contents size_of cursor 10 8 (omega arith)

take_batch-bounds_example :
    let batch = (take_batch size_of cursor 10 8).0 in
    (length batch ≤ 10)
    × ((total size_of batch ≤ 8) ⊎ (length batch ≤ 1))
    × ((batch ≡ []) → (contents cursor ≡ []))
take_batch-bounds_example = take_batch-bounds size_of cursor 10 8 (omega arith)

take_batch-exhausted_example :
    (is_exhausted (take_batch size_of cursor 10 8).1 ≡ true)
    ↔ (contents (take_batch size_of cursor 10 8).1 ≡ [])
take_batch-exhausted_example = take_batch-exhausted size_of cursor 10 8 (omega arith)

-- 3 and 4 fit into 8 bytes, and 2 more do not.
batch : (take_batch size_of cursor 10 8).0 ≡ 3 ∷ (4 ∷ [])
unfolding take_batch take_after fill
batch = refl

-- An engine that counts its flushes and fails at the second.
abbrev flush : ℕ → ℕ × Option ℕ
flush n = (n + 1, if n == 1 then some 7 else none)

-- Two callbacks, a flush, and a third one.
abbrev asked : List ℕ
asked = 10 ∷ (11 ∷ (12 ∷ []))

abbrev two : GroupCommitter ℕ ℕ
two = when_durable flush 11 (when_durable flush 10 (new_committer flush 0))

reached :
    Reaches flush (when_durable flush 12 (run flush two).1) asked ((10, none) ∷ ((11, none) ∷ []))
unfolding new_committer when_durable run
reached = hand_over (run flush two).1 (10 ∷ (11 ∷ [])) ((10, none) ∷ ((11, none) ∷ [])) 12 (
    fire two (10 ∷ (11 ∷ [])) [] 0 refl (
      hand_over (when_durable flush 10 (new_committer flush 0)) (10 ∷ []) [] 11
        (hand_over (new_committer flush 0) [] [] 10 (start 0))))

Reaches-order_example :
    names flush ((10, none) ∷ ((11, none) ∷ []))
      ++ (when_durable flush 12 (run flush two).1).waiting
    ≡ asked
Reaches-order_example = Reaches-order flush reached

Reaches-waiting_example : (when_durable flush 12 (run flush two).1).immediates ≡ 1
unfolding when_durable run
Reaches-waiting_example = Reaches-waiting flush reached (λ e. cc)

-- A manager with the cursor above as its only one, next to get the id 1, which is in use.
abbrev manager : CursorManager ℕ
manager = record {
  cursors = (1, cursor) ∷ [];
  next_cursor_id = 1;
  idle_timeout = 1000;
  max_batch_bytes = 8;
}

allocate_cursor_id-has_example :
    (id : ℕ) × ((allocate_cursor_id manager).0 ≡ ok id) × (has id manager.cursors ≡ false)
allocate_cursor_id-has_example =
    allocate_cursor_id-has manager (omega arith) (omega arith) (omega arith)

-- The manager between two calls of `getMore`.
abbrev halfway : CursorManager ℕ
halfway = with_cursors ((1, state [] (some 2) false 5) ∷ []) manager

first_call :
    get_more size_of 5 1 10 manager
    ≡ (ok (record { cursor_id = some 1; documents = 3 ∷ (4 ∷ []) }), halfway)
unfolding get_more validate_cursor_id validate_batch_size sweep_expired keep_recent find continued
    put take_batch take_after fill is_exhausted
first_call = refl

second_call :
    get_more size_of 9 1 10 halfway
    ≡ (ok (record { cursor_id = none; documents = 2 ∷ [] }), with_cursors [] manager)
unfolding get_more validate_cursor_id validate_batch_size sweep_expired keep_recent find continued
    delete take_batch take_after fill is_exhausted
second_call = refl

fetches : Fetches size_of 1 manager (3 ∷ (4 ∷ (2 ∷ [])))
fetches =
    again 5 10 manager halfway (record { cursor_id = some 1; documents = 3 ∷ (4 ∷ []) }) (2 ∷ [])
      first_call (λ e. cc)
      (last 9 10 halfway (with_cursors [] manager) (record { cursor_id = none; documents = 2 ∷ [] })
        second_call refl)

Fetches-contents_example : 3 ∷ (4 ∷ (2 ∷ [])) ≡ contents cursor
unfolding find has
Fetches-contents_example =
    Fetches-contents size_of 1 manager (3 ∷ (4 ∷ (2 ∷ []))) cursor (refl, tt) refl fetches
