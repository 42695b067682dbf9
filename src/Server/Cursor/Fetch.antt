-- ===== src/Server/Cursor/Fetch.antt =====
-- A client that asks for more until there is no cursor gets every document, once and in order.
use sinterdb.Prelude.{
  ℕ, ◌≤◌, ◌≡◌, ◌≢◌, refl, sym, ap, ◌∙◌, inl, inr, none, some, List, [], ◌++◌, append-nil, Result,
  ok, err, ◌>>◌, Result-cases, require-eq-ok, Bool-cases, Option-cases, arith,
}
use sinterdb.Server.Cursor.{
  cursor_not_found, type_error, CursorError, CursorState, CursorBatch, CursorManager, state,
  with_cursors, is_positive_safe, validate_cursor_id, validate_batch_size, is_exhausted, find, put,
  delete, sweep_expired, take_batch, continued, get_more, Outcome,
}
use sinterdb.Server.Cursor.Batch.{contents, take_batch-contents, take_batch-exhausted}
use sinterdb.Server.Cursor.Map.{
  Distinct, keep_recent-Distinct, find-keep_recent, find-put, put-Distinct,
}

module _ {ℓ} {D : Type ℓ} (size_of : D → ℕ) where
  -- What a call of `getMore` that returns a batch has found.
  record Found (now cursor_id batch_size : ℕ) (m m1 : CursorManager D) (b : CursorBatch D)
      : Type ℓ where
    found : CursorState D
    kept : find cursor_id (sweep_expired now m).1.cursors ≡ some found
    some_room : 1 ≤ batch_size
    rest_is :
        continued size_of cursor_id
          (take_batch size_of
            (state found.iterator found.buffered found.exhausted now)
            batch_size
            m.max_batch_bytes)
          (sweep_expired now m).1
        ≡ (ok b, m1)

  get_more-invalid :
      (now cursor_id batch_size : ℕ) (m : CursorManager D) (e : CursorError)
      → (validate_cursor_id cursor_id >> validate_batch_size batch_size) ≡ err e
      → (get_more size_of now cursor_id batch_size m).0 ≡ err e
  unfolding get_more
  get_more-invalid now cursor_id batch_size m e is = rw (is, get_more)

  get_more-missing :
      (now cursor_id batch_size : ℕ) (m : CursorManager D) (u : Unit {0})
      → (validate_cursor_id cursor_id >> validate_batch_size batch_size) ≡ ok u
      → find cursor_id (sweep_expired now m).1.cursors ≡ none
      → (get_more size_of now cursor_id batch_size m).0 ≡ err (cursor_not_found cursor_id)
  unfolding get_more
  get_more-missing now cursor_id batch_size m u is missing = rw (is, missing, get_more)

  get_more-found :
      (now cursor_id batch_size : ℕ) (m : CursorManager D) (u : Unit {0}) (s : CursorState D)
      → (validate_cursor_id cursor_id >> validate_batch_size batch_size) ≡ ok u
      → find cursor_id (sweep_expired now m).1.cursors ≡ some s
      → get_more size_of now cursor_id batch_size m
        ≡ continued size_of cursor_id
            (take_batch size_of
              (state s.iterator s.buffered s.exhausted now)
              batch_size
              m.max_batch_bytes)
            (sweep_expired now m).1
  unfolding get_more
  get_more-found now cursor_id batch_size m u s is kept = rw (is, get_more) (rw kept refl)

  valid-room :
      (cursor_id batch_size : ℕ) (u : Unit {0})
      → (validate_cursor_id cursor_id >> validate_batch_size batch_size) ≡ ok u
      → 1 ≤ batch_size
  unfolding validate_cursor_id validate_batch_size
  valid-room cursor_id batch_size u h =
      let (_, h1) = require-eq-ok (is_positive_safe cursor_id) _ _ h in
      elim (Bool-cases (is_positive_safe batch_size)) [
        | inl positive ↦ ground arith
        | inr other ↦
            let refused : ◌≡◌ {A = Result CursorError (Unit {0})} (err type_error) (ok u) =
              rw other at h1 in
            cc
      ]

  get_more-Found :
      (now cursor_id batch_size : ℕ) (m m1 : CursorManager D) (b : CursorBatch D)
      → get_more size_of now cursor_id batch_size m ≡ (ok b, m1)
      → Found now cursor_id batch_size m m1 b
  get_more-Found now cursor_id batch_size m m1 b h =
      let returned = ap (λ r. r.0) h in
      elim (Result-cases (validate_cursor_id cursor_id >> validate_batch_size batch_size)) [
        | inr (e, is) ↦ let no = get_more-invalid now cursor_id batch_size m e is in cc
        | inl (u, is) ↦ elim (Option-cases (find cursor_id (sweep_expired now m).1.cursors)) [
          | inl missing ↦ let no = get_more-missing now cursor_id batch_size m u is missing in cc
          | inr (s, kept) ↦ record {
            found = s;
            kept = kept;
            some_room = valid-room cursor_id batch_size u is;
            rest_is = sym (get_more-found now cursor_id batch_size m u s is kept) ∙ h;
          }
        ]
      ]

  -- What a batch that was returned says about the cursor: `s` is the state before, and the map is the
  -- one after.
  record Fetched (cursor_id : ℕ) (s : CursorState D) (m1 : CursorManager D) (b : CursorBatch D)
      : Type ℓ where
    rest : List D
    joined : b.documents ++ rest ≡ contents s
    closed : b.cursor_id ≡ none → rest ≡ []
    open_still :
        b.cursor_id ≢ none
        → (t : CursorState D) × (find cursor_id m1.cursors ≡ some t) × (contents t ≡ rest)

  continued-Fetched :
      (cursor_id batch_size max_bytes : ℕ) (s : CursorState D) (m m1 : CursorManager D)
      (b : CursorBatch D)
      → 1 ≤ batch_size
      → Distinct m.cursors
      → continued size_of cursor_id (take_batch size_of s batch_size max_bytes) m ≡ (ok b, m1)
      → Fetched cursor_id s m1 b × ((b.cursor_id ≢ none) → Distinct m1.cursors)
  unfolding continued
  continued-Fetched cursor_id batch_size max_bytes s m m1 b room d h =
      let r = take_batch size_of s batch_size max_bytes in
      let joined = take_batch-contents size_of s batch_size max_bytes room in
      let done = take_batch-exhausted size_of s batch_size max_bytes room in
      elim (Bool-cases (is_exhausted r.1)) [
        | inl end ↦
            let e : ◌≡◌ {A = Outcome D (CursorBatch D)}
                (
                  ok (record { cursor_id = none; documents = r.0 }),
                  with_cursors (delete cursor_id m.cursors) m,
                )
                (ok b, m1) =
              rw end at h in
            let b_is : ◌≡◌ {A = CursorBatch D} (record { cursor_id = none; documents = r.0 }) b =
              cc in
            rw (← b_is) (
              record {
                rest = contents r.1;
                joined = joined;
                closed = λ _. done.0 end;
                open_still = λ ne. absurd (ne refl);
              },
              λ ne. absurd (ne refl),
            )
        | inr more ↦
            let e : ◌≡◌ {A = Outcome D (CursorBatch D)}
                (
                  ok (record { cursor_id = some cursor_id; documents = r.0 }),
                  with_cursors (put cursor_id r.1 m.cursors) m,
                )
                (ok b, m1) =
              rw more at h in
            let b_is : ◌≡◌ {A = CursorBatch D}
                (record { cursor_id = some cursor_id; documents = r.0 }) b =
              cc in
            let m1_is : with_cursors (put cursor_id r.1 m.cursors) m ≡ m1 = cc in
            rw (← b_is) (
              rw (← m1_is) (
                record {
                  rest = contents r.1;
                  joined = joined;
                  closed = λ e. cc;
                  open_still = λ _. (r.1, find-put cursor_id r.1 m.cursors, refl);
                },
                λ _. put-Distinct cursor_id r.1 m.cursors d,
              ))
      ]

  -- The calls of a client from a manager on: `getMore` with the cursor's id, at any times and with any
  -- batch sizes, until the batch comes without an id. The last argument is all documents received.
  pub data Fetches (cursor_id : ℕ) : CursorManager D → List D → Type ℓ where
    last :
        (now batch_size : ℕ) (m m1 : CursorManager D) (b : CursorBatch D)
        → get_more size_of now cursor_id batch_size m ≡ (ok b, m1)
        → b.cursor_id ≡ none
        → Fetches cursor_id m b.documents
    again :
        (now batch_size : ℕ) (m m1 : CursorManager D) (b : CursorBatch D) (others : List D)
        → get_more size_of now cursor_id batch_size m ≡ (ok b, m1)
        → b.cursor_id ≢ none
        → Fetches cursor_id m1 others
        → Fetches cursor_id m (b.documents ++ others)

  get_more-Fetched :
      (now cursor_id batch_size : ℕ) (m m1 : CursorManager D) (b : CursorBatch D)
      (s : CursorState D)
      → Distinct m.cursors
      → find cursor_id m.cursors ≡ some s
      → get_more size_of now cursor_id batch_size m ≡ (ok b, m1)
      → Fetched cursor_id s m1 b × ((b.cursor_id ≢ none) → Distinct m1.cursors)
  unfolding sweep_expired contents
  get_more-Fetched now cursor_id batch_size m m1 b s d open_is h =
      let f = get_more-Found now cursor_id batch_size m m1 b h in
      let before = find-keep_recent cursor_id now m.idle_timeout m.cursors f.found d f.kept in
      let same : some s ≡ some f.found = sym open_is ∙ before in
      let s_is : s ≡ f.found = cc in
      let (fetched, still) =
        continued-Fetched cursor_id batch_size m.max_batch_bytes
          (state f.found.iterator f.found.buffered f.found.exhausted now) (sweep_expired now m).1 m1
          b f.some_room (keep_recent-Distinct now m.idle_timeout m.cursors d) f.rest_is in
      (
        rw s_is (record {
          rest = fetched.rest;
          joined = fetched.joined;
          closed = fetched.closed;
          open_still = fetched.open_still;
        }),
        still,
      )

  -- If no two cursors of a manager have the same id, a client that asks for more of an open cursor until
  -- there is no cursor receives exactly what the cursor had still to return, in its order.
  pub Fetches-contents :
      (cursor_id : ℕ) (m : CursorManager D) (documents : List D) (s : CursorState D)
      → Distinct m.cursors
      → find cursor_id m.cursors ≡ some s
      → Fetches cursor_id m documents
      → documents ≡ contents s
  Fetches-contents cursor_id _ _ s d open_is (last now batch_size m m1 b h no_id) =
      let (f, _) = get_more-Fetched now cursor_id batch_size m m1 b s d open_is h in
      sym (append-nil b.documents) ∙ ap (b.documents ++◌) (sym (f.closed no_id)) ∙ f.joined
  Fetches-contents cursor_id _ _ s d open_is (again now batch_size m m1 b others h id_is more) =
      let (f, still) = get_more-Fetched now cursor_id batch_size m m1 b s d open_is h in
      let (t, t_open, rest_is) = f.open_still id_is in
      ap (b.documents ++◌)
        (Fetches-contents cursor_id m1 others t (still id_is) t_open more ∙ rest_is)
      ∙ f.joined
