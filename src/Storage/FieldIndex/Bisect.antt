-- ===== src/Storage/FieldIndex/Bisect.antt =====
-- The binary search of packages/storage/src/indexing/field-index.ts against a walk from the front.
use sinterdb.Prelude.{
  ℕ, zero, suc, ◌+◌, ◌-◌, ◌^◌, ◌≤◌, ◌<◌, ◌≡◌, refl, ◌∙◌, Bool, true, false, List, [], ◌∷◌, length,
  take, drop, ltb, arith, if◌then◌else◌, Bool-cases, inl, inr, All,
}
use sinterdb.Protocol.Document.{Value}
use sinterdb.Storage.IndexValue.{OrderedEntry, passes, bisect, middle_of}

-- How many entries pass a test before the first that does not.
pub lead : (Value → Bool) → List OrderedEntry → ℕ
lead test [] = 0
lead test (e ∷ es) = if test e.value then suc (lead test es) else 0

-- Behind an entry that fails, all fail.
abbrev pub IsMonotone : (Value → Bool) → List OrderedEntry → Type 0
IsMonotone test [] = Unit
IsMonotone test (e ∷ es) =
    (test e.value ≡ false → All (λ (x : OrderedEntry). test x.value ≡ false) es)
    × IsMonotone test es

pub lead-le : (test : Value → Bool) (es : List OrderedEntry) → lead test es ≤ length es
unfolding lead
lead-le test [] = omega arith
lead-le test (e ∷ es) = ground (arith, lead-le test es)

passes_failing :
    (test : Value → Bool) (es : List OrderedEntry) (i : ℕ)
    → All (λ (x : OrderedEntry). test x.value ≡ false) es
    → passes test es i ≡ false
unfolding passes
passes_failing test [] i all = refl
passes_failing test (e ∷ es) zero all = all.0
passes_failing test (e ∷ es) (suc i) all = passes_failing test es i all.1

-- An entry passes exactly if it stands before the first that fails.
pub passes-lead :
    (test : Value → Bool) (es : List OrderedEntry) (i : ℕ)
    → IsMonotone test es
    → passes test es i ≡ ltb i (lead test es)
unfolding passes lead
passes-lead test [] i m = ground arith
passes-lead test (e ∷ es) zero m = elim (Bool-cases (test e.value)) [
  | inl t ↦ rw t (ground arith)
  | inr t ↦ rw t (ground arith)
]
passes-lead test (e ∷ es) (suc i) m = elim (Bool-cases (test e.value)) [
  | inl t ↦ rw t (passes-lead test es i m.1 ∙ ground arith)
  | inr t ↦ rw t (passes_failing test es i (m.0 t) ∙ ground arith)
]

middle_bounds :
    (low high : ℕ)
    → low < high
    → high < 2 ^ 31
    → (low ≤ middle_of low high) × (middle_of low high < high)
unfolding middle_of
middle_bounds low high h k = omega arith

bisect_walk :
    (test : Value → Bool) (es : List OrderedEntry)
    → IsMonotone test es
    → (fuel low high : ℕ) → low ≤ lead test es
    → lead test es ≤ high
    → high < 2 ^ 31
    → high - low < fuel
    → bisect test es fuel low high ≡ lead test es
unfolding bisect
bisect_walk test es m zero low high h1 h2 h3 h4 = absurd (omega arith)
bisect_walk test es m (suc fuel) low high h1 h2 h3 h4 = elim (Bool-cases (ltb low high)) [
  | inr done ↦ rw (done, bisect) (ground arith)
  | inl more ↦
      let (above, under) = middle_bounds low high (ground arith) h3 in
      elim (Bool-cases (passes test es (middle_of low high))) [
        | inl t ↦
            let before : middle_of low high < lead test es =
              ground (arith, passes-lead test es (middle_of low high) m) in
            rw (more, t, bisect)
              (bisect_walk test es m fuel (middle_of low high + 1) high (omega arith) h2 h3
                (omega arith))
        | inr t ↦
            let behind : lead test es ≤ middle_of low high =
              ground (arith, passes-lead test es (middle_of low high) m) in
            rw (more, t, bisect)
              (bisect_walk test es m fuel low (middle_of low high) h1 behind (omega arith)
                (omega arith))
      ]
]

-- The search of `lowerBound` and `upperBound` finds the first entry that fails the test, if below
-- 2 ^ 31 entries are sorted so that all behind it fail as well; its fuel is enough.
pub bisect-lead :
    (test : Value → Bool) (es : List OrderedEntry)
    → IsMonotone test es
    → length es < 2 ^ 31
    → bisect test es (length es + 1) 0 (length es) ≡ lead test es
bisect-lead test es m h =
    bisect_walk test es m (length es + 1) 0 (length es) (omega arith) (lead-le test es) h
      (omega arith)

-- The entries before the first that fails pass, and those from it on fail.
pub take-lead :
    (test : Value → Bool) (es : List OrderedEntry)
    → All (λ (x : OrderedEntry). test x.value ≡ true) (take (lead test es) es)
unfolding lead
take-lead test [] = tt
take-lead test (e ∷ es) = elim (Bool-cases (test e.value)) [
  | inl t ↦ rw t (t, take-lead test es)
  | inr t ↦ rw t tt
]

pub drop-lead :
    (test : Value → Bool) (es : List OrderedEntry)
    → IsMonotone test es
    → All (λ (x : OrderedEntry). test x.value ≡ false) (drop (lead test es) es)
unfolding lead
drop-lead test [] m = tt
drop-lead test (e ∷ es) m = elim (Bool-cases (test e.value)) [
  | inl t ↦ rw t (drop-lead test es m.1)
  | inr t ↦ rw t (t, m.0 t)
]
