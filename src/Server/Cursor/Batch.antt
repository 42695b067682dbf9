-- ===== src/Server/Cursor/Batch.antt =====
-- One batch of a cursor.
use sinterdb.Prelude.{
  ℕ, ◌+◌, ◌≤◌, ◌≡◌, refl, sym, ap, ◌∙◌, inl, inr, ◌⊎◌, ◌↔◌, true, false, ◌&&◌, ◌||◌, none, some,
  List, [], ◌∷◌, ◌++◌, leb, ltb, length, arith, Bool-cases, Option-cases,
}
use sinterdb.Server.Cursor.{CursorState, state, is_exhausted, fill, take_after, take_batch}

module _ {ℓ} {D : Type ℓ} where
  -- What a cursor still has to return.
  unfoldable pub contents : CursorState D → List D
  contents s = elim s.buffered [ none ↦ s.iterator | some d ↦ d ∷ s.iterator ]

module _ {ℓ} {D : Type ℓ} (size_of : D → ℕ) where
  unfoldable pub total : List D → ℕ
  total [] = 0
  total (d ∷ ds) = size_of d + total ds

  -- What the loop of `takeBatch` does with the documents `ds`, if `count` documents of `bytes` bytes
  -- are in the batch already.
  record Filled (batch_size max_bytes count bytes : ℕ) (ds : List D) (r : List D × CursorState D)
      : Type ℓ where
    partition : r.0 ++ contents r.1 ≡ ds
    few : length r.0 + count ≤ batch_size
    small : (bytes + total r.0 ≤ max_bytes) ⊎ (length r.0 + count ≤ 1)
    done : (is_exhausted r.1 ≡ true) ↔ (contents r.1 ≡ [])

  fill-Filled :
      (batch_size max_bytes count bytes : ℕ) (s : CursorState D) (ds : List D)
      → s.buffered ≡ none
      → count ≤ batch_size
      → (bytes ≤ max_bytes) ⊎ (count ≤ 1)
      → Filled batch_size max_bytes count bytes ds
          (fill size_of batch_size max_bytes count bytes s ds)
  unfolding fill contents total is_exhausted
  fill-Filled batch_size max_bytes count bytes s [] empty room fits = rw empty (record {
    partition = refl;
    few = omega arith;
    small = ground arith;
    done = (λ e. refl, λ e. refl);
  })
  fill-Filled batch_size max_bytes count bytes s (d ∷ ds) empty room fits =
      elim (Bool-cases
        (leb batch_size count || (ltb 0 count && ltb max_bytes (bytes + size_of d)))) [
          | inl full ↦ rw full (record {
            partition = refl;
            few = omega arith;
            small = ground arith;
            done = (λ e. cc, λ e. cc);
          })
          | inr free ↦
              let f =
                fill-Filled batch_size max_bytes (count + 1) (bytes + size_of d) s ds empty
                  (ground arith) (ground arith) in
              rw free (record {
                partition = ap (d ∷◌) f.partition;
                few = omega (arith, f.few);
                small = elim f.small [
                  | inl bound ↦ inl (omega arith)
                  | inr single ↦ inr (omega arith)
                ];
                done = f.done;
              })
        ]

  take_batch-none :
      (s : CursorState D) (batch_size max_bytes : ℕ)
      → s.buffered ≡ none
      → take_batch size_of s batch_size max_bytes
        ≡ fill size_of batch_size max_bytes 0 0 s s.iterator
  unfolding take_batch take_after
  take_batch-none s batch_size max_bytes empty =
      ap (λ b. take_after size_of b s batch_size max_bytes) empty

  add_first : D → List D × CursorState D → List D × CursorState D
  add_first d r = (d ∷ r.0, r.1)

  take_batch-some :
      (s : CursorState D) (batch_size max_bytes : ℕ) (d : D)
      → s.buffered ≡ some d
      → take_batch size_of s batch_size max_bytes
        ≡ add_first d (
            fill size_of batch_size max_bytes 1
              (size_of d)
              (state s.iterator none s.exhausted s.last_used)
              s.iterator)
  unfolding take_batch take_after add_first
  take_batch-some s batch_size max_bytes d is =
      ap (λ b. take_after size_of b s batch_size max_bytes) is

  contents-none : (s : CursorState D) → s.buffered ≡ none → contents s ≡ s.iterator
  unfolding contents
  contents-none s empty = rw (empty, contents)

  contents-some : (s : CursorState D) (d : D) → s.buffered ≡ some d → contents s ≡ d ∷ s.iterator
  unfolding contents
  contents-some s d is = rw (is, contents)

  -- What `takeBatch` does.
  record Taken (s : CursorState D) (batch_size max_bytes : ℕ) (r : List D × CursorState D)
      : Type ℓ where
    partition : r.0 ++ contents r.1 ≡ contents s
    few : length r.0 ≤ batch_size
    small : (total r.0 ≤ max_bytes) ⊎ (length r.0 ≤ 1)
    done : (is_exhausted r.1 ≡ true) ↔ (contents r.1 ≡ [])
    progress : (r.0 ≡ []) → (contents s ≡ [])

  fill-progress :
      (batch_size max_bytes : ℕ) (s : CursorState D) (ds : List D)
      → 1 ≤ batch_size
      → (fill size_of batch_size max_bytes 0 0 s ds).0 ≡ []
      → ds ≡ []
  unfolding fill
  fill-progress batch_size max_bytes s [] room h = refl
  fill-progress batch_size max_bytes s (d ∷ ds) room h =
      let free : (leb batch_size 0 || (ltb 0 0 && ltb max_bytes (0 + size_of d))) ≡ false =
        ground arith in
      let e : d ∷ (fill size_of batch_size max_bytes (0 + 1) (0 + size_of d) s ds).0 ≡ [] =
        rw free at h in
      cc

  take_batch-Taken :
      (s : CursorState D) (batch_size max_bytes : ℕ)
      → 1 ≤ batch_size
      → Taken s batch_size max_bytes (take_batch size_of s batch_size max_bytes)
  unfolding add_first total
  take_batch-Taken s batch_size max_bytes room = elim (Option-cases s.buffered) [
    | inl empty ↦
        let f =
          fill-Filled batch_size max_bytes 0 0 s s.iterator empty (omega arith)
            (inr (omega arith)) in
        let whole = contents-none s empty in
        rw (take_batch-none s batch_size max_bytes empty) (record {
          partition = f.partition ∙ sym whole;
          few = omega (arith, f.few);
          small = elim f.small [ inl bound ↦ inl (omega arith) | inr single ↦ inr (omega arith) ];
          done = f.done;
          progress = λ e. whole ∙ fill-progress batch_size max_bytes s s.iterator room e;
        })
    | inr (d, is) ↦
        let f =
          fill-Filled batch_size max_bytes 1 (size_of d)
            (state s.iterator none s.exhausted s.last_used) s.iterator refl room
            (inr (omega arith)) in
        rw (take_batch-some s batch_size max_bytes d is) (record {
          partition = ap (d ∷◌) f.partition ∙ sym (contents-some s d is);
          few = omega (arith, f.few);
          small = elim f.small [ inl bound ↦ inl (omega arith) | inr single ↦ inr (omega arith) ];
          done = f.done;
          progress = λ e. cc;
        })
  ]

  -- For a batch size of at least 1, a batch and behind it what the cursor still has to return are what
  -- the cursor had to return before, in its order.
  pub take_batch-contents :
      (s : CursorState D) (batch_size max_bytes : ℕ)
      → 1 ≤ batch_size
      → (take_batch size_of s batch_size max_bytes).0
          ++ contents (take_batch size_of s batch_size max_bytes).1
        ≡ contents s
  take_batch-contents s batch_size max_bytes room =
      (take_batch-Taken s batch_size max_bytes room).partition

  -- For a batch size of at least 1, a batch has no more documents than its size allows, and two or more only if their bytes are
  -- within the limit; it is empty only if there is nothing to return.
  pub take_batch-bounds :
      (s : CursorState D) (batch_size max_bytes : ℕ)
      → 1 ≤ batch_size
      → let batch = (take_batch size_of s batch_size max_bytes).0 in
        (length batch ≤ batch_size)
        × ((total batch ≤ max_bytes) ⊎ (length batch ≤ 1))
        × ((batch ≡ []) → (contents s ≡ []))
  take_batch-bounds s batch_size max_bytes room =
      let t = take_batch-Taken s batch_size max_bytes room in (t.few, t.small, t.progress)

  -- For a batch size of at least 1, a cursor counts as exhausted after a batch exactly if nothing is left to return.
  pub take_batch-exhausted :
      (s : CursorState D) (batch_size max_bytes : ℕ)
      → 1 ≤ batch_size
      → (is_exhausted (take_batch size_of s batch_size max_bytes).1 ≡ true)
        ↔ (contents (take_batch size_of s batch_size max_bytes).1 ≡ [])
  take_batch-exhausted s batch_size max_bytes room =
      (take_batch-Taken s batch_size max_bytes room).done
