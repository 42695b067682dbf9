-- ===== src/Server/Cursor/Ids.antt =====
-- The ids of cursors: a new cursor gets one that no open cursor has.
use sinterdb.Prelude.{
  ℕ, zero, suc, ◌+◌, ◌-◌, ◌%◌, ◌≤◌, ◌<◌, ◌≡◌, ◌≢◌, refl, sym, ap, ◌∙◌, inl, inr, true, false, List,
  [], ◌∷◌, ok, ◌==◌, length, Bool-cases, arith,
}
use sinterdb.Server.Cursor.{
  CursorManager, CursorState, allocate_cursor_id, max_safe_integer, advance, has, delete,
  allocate_from,
}

-- The id that is `d` steps behind `first`.
abbrev shift : ℕ → ℕ → ℕ
shift first d = (first - 1 + d) % max_safe_integer + 1

advance-shift : (first d : ℕ) → advance (shift first d) ≡ shift first (d + 1)
unfolding advance
advance-shift first d = elim (Bool-cases (shift first d == max_safe_integer)) [
  | inl last ↦ rw last (let e : shift first d ≡ max_safe_integer = ground arith in omega arith)
  | inr other ↦ rw other (let e : shift first d ≢ max_safe_integer = ground arith in omega arith)
]

shift-ne : (first d i : ℕ) → d < i → i < max_safe_integer → shift first d ≢ shift first i
shift-ne first d i later small = λ e. omega arith

-- It comes round to `first` after all ids only.
shift-first :
    (first d : ℕ)
    → 1 ≤ first
    → first ≤ max_safe_integer
    → d + 1 < max_safe_integer
    → (shift first (d + 1) == first) ≡ false
shift-first first d low high small =
    let ne : shift first (d + 1) ≢ first = λ e. omega arith in ground arith

module _ {ℓ} {D : Type ℓ} where
  has-delete :
      (key other : ℕ) (cs : List (ℕ × CursorState D))
      → key ≢ other
      → has other (delete key cs) ≡ has other cs
  unfolding has delete
  has-delete key other [] h = refl
  has-delete key other ((k, s) ∷ rest) h = ground (arith, has-delete key other rest h)

  length-delete :
      (key : ℕ) (cs : List (ℕ × CursorState D))
      → has key cs ≡ true
      → suc (length (delete key cs)) ≡ length cs
  unfolding has delete
  length-delete key [] h = cc
  length-delete key ((k, s) ∷ rest) h = ground (arith, length-delete key rest)

  allocate-free :
      (fuel first next : ℕ) (cs : List (ℕ × CursorState D))
      → has next cs ≡ false
      → allocate_from (suc fuel) first next cs ≡ ok next
  unfolding allocate_from
  allocate-free fuel first next cs free = rw (free, allocate_from)

  allocate-used :
      (fuel first next : ℕ) (cs : List (ℕ × CursorState D))
      → has next cs ≡ true
      → (advance next == first) ≡ false
      → allocate_from (suc fuel) first next cs ≡ allocate_from fuel first (advance next) cs
  unfolding allocate_from
  allocate-used fuel first next cs used other = rw (used, other, allocate_from)

  -- `left` are the cursors whose ids the loop has not come to yet.
  allocate-left :
      (fuel first d : ℕ) (cs left : List (ℕ × CursorState D))
      → 1 ≤ first
      → first ≤ max_safe_integer
      → length left < fuel
      → d + length left < max_safe_integer
      → ((i : ℕ) → d ≤ i → i < max_safe_integer → has (shift first i) cs ≡ has (shift first i) left)
      → (id : ℕ) × (allocate_from fuel first (shift first d) cs ≡ ok id) × (has id cs ≡ false)
  allocate-left zero first d cs left low high enough room same = absurd (omega arith)
  allocate-left (suc fuel) first d cs left low high enough room same =
      elim (Bool-cases (has (shift first d) cs)) [
        | inr free ↦ (shift first d, allocate-free fuel first (shift first d) cs free, free)
        | inl used ↦
            let here : has (shift first d) left ≡ true =
              sym (same d (omega arith) (omega arith)) ∙ used in
            let fewer = length-delete (shift first d) left here in
            let next = advance-shift first d in
            let not_round : (advance (shift first d) == first) ≡ false =
              rw next (shift-first first d low high (omega arith)) in
            let (id, allocated, free) =
              allocate-left fuel first (d + 1) cs (delete (shift first d) left) low high
                (omega arith) (omega arith)
                (λ i after small.
                  same i (omega arith) small
                  ∙ sym (
                      has-delete (shift first d) (shift first i) left
                        (shift-ne first d i (omega arith) small))) in
            (
              id,
              allocate-used fuel first (shift first d) cs used not_round
                  ∙ ap (λ k. allocate_from fuel first k cs) next
                  ∙ allocated,
              free,
            )
      ]

  -- While fewer cursors are open than there are ids, a manager whose next id is in range allocates an
  -- id that no open cursor has.
  pub allocate_cursor_id-has :
      (m : CursorManager D)
      → 1 ≤ m.next_cursor_id
      → m.next_cursor_id ≤ max_safe_integer
      → length m.cursors < max_safe_integer
      → (id : ℕ) × ((allocate_cursor_id m).0 ≡ ok id) × (has id m.cursors ≡ false)
  unfolding allocate_cursor_id
  allocate_cursor_id-has m low high few =
      let start : shift m.next_cursor_id 0 ≡ m.next_cursor_id = omega arith in
      let (id, allocated, free) =
        allocate-left (suc (length m.cursors)) m.next_cursor_id 0 m.cursors m.cursors low high
          (omega arith) (omega arith) (λ i after small. refl) in
      let found : allocate_from (suc (length m.cursors)) m.next_cursor_id m.next_cursor_id m.cursors
          ≡ ok id =
        rw start at allocated in
      (id, rw (found, allocate_cursor_id) refl, free)
