-- ===== src/Server/Cursor/Map.antt =====
-- The map of cursors, under the operations of the manager.
use sinterdb.Prelude.{
  ℕ, ◌+◌, ◌≡◌, ◌≢◌, refl, ◌∙◌, inl, inr, false, none, some, List, [], ◌∷◌, leb, ◌==◌, Bool-cases,
  arith,
}
use sinterdb.Server.Cursor.{CursorState, find, has, put, keep_recent}

module _ {ℓ} {D : Type ℓ} where
  -- No two open cursors have the same id.
  abbrev pub Distinct : List (ℕ × CursorState D) → Type 0
  Distinct [] = Unit
  Distinct ((k, s) ∷ rest) = (has k rest ≡ false) × Distinct rest

  pub find-has : (key : ℕ) (cs : List (ℕ × CursorState D)) → has key cs ≡ false → find key cs ≡ none
  unfolding has find
  find-has key [] h = refl
  find-has key ((k, s) ∷ rest) h = ground (arith, find-has key rest)

  pub has-keep_recent :
      (key now timeout : ℕ) (cs : List (ℕ × CursorState D))
      → has key cs ≡ false
      → has key (keep_recent now timeout cs) ≡ false
  unfolding has keep_recent
  has-keep_recent key now timeout [] h = refl
  has-keep_recent key now timeout ((k, s) ∷ rest) h =
      ground (arith, has-keep_recent key now timeout rest)

  pub keep_recent-Distinct :
      (now timeout : ℕ) (cs : List (ℕ × CursorState D))
      → Distinct cs
      → Distinct (keep_recent now timeout cs)
  unfolding keep_recent
  keep_recent-Distinct now timeout [] h = tt
  keep_recent-Distinct now timeout ((k, s) ∷ rest) (new, h) =
      elim (Bool-cases (leb (s.last_used + timeout) now)) [
        | inl old ↦ rw old (keep_recent-Distinct now timeout rest h)
        | inr recent ↦
            rw recent
              (has-keep_recent k now timeout rest new, keep_recent-Distinct now timeout rest h)
      ]

  pub find-keep_recent :
      (key now timeout : ℕ) (cs : List (ℕ × CursorState D)) (s : CursorState D)
      → Distinct cs
      → find key (keep_recent now timeout cs) ≡ some s
      → find key cs ≡ some s
  unfolding keep_recent find
  find-keep_recent key now timeout [] s d h = h
  find-keep_recent key now timeout ((k, t) ∷ rest) s (new, d) h =
      ground (arith, find-keep_recent key now timeout rest s d, find-has k rest new)

  pub find-put :
      (key : ℕ) (s : CursorState D) (cs : List (ℕ × CursorState D))
      → find key (put key s cs) ≡ some s
  unfolding put find
  find-put key s [] = ground arith
  find-put key s ((k, t) ∷ rest) = ground (arith, find-put key s rest)

  pub has-put :
      (key other : ℕ) (s : CursorState D) (cs : List (ℕ × CursorState D))
      → other ≢ key
      → has other (put key s cs) ≡ has other cs
  unfolding put has
  has-put key other s [] h = ground arith
  has-put key other s ((k, t) ∷ rest) h = ground (arith, has-put key other s rest h)

  pub put-Distinct :
      (key : ℕ) (s : CursorState D) (cs : List (ℕ × CursorState D))
      → Distinct cs
      → Distinct (put key s cs)
  unfolding put has
  put-Distinct key s [] h = (refl, tt)
  put-Distinct key s ((k, t) ∷ rest) (new, h) = elim (Bool-cases (k == key)) [
    | inl same ↦ rw same (new, h)
    | inr other ↦
        let ne : k ≢ key = ground arith in
        rw other (has-put key k s rest ne ∙ new, put-Distinct key s rest h)
  ]
