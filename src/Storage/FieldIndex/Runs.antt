-- ===== src/Storage/FieldIndex/Runs.antt =====
-- Taking an entry out of the sorted entries of packages/storage/src/indexing/field-index.ts.
use sinterdb.Prelude.{
  ◌≤◌, ◌≡◌, sym, ap, ◌∙◌, Bool, true, false, List, [], ◌∷◌, ◌++◌, Bytes, str_eq, length, All,
  Bool-cases, inl, inr, arith,
}
use sinterdb.Protocol.Document.{Value}
use sinterdb.Storage.Predicate.{compare_values}
use sinterdb.Storage.IndexValue.{OrderedEntry, is_zero}
use sinterdb.Storage.FieldIndex.{remove_run}
use sinterdb.Storage.FieldIndex.Entries.{AtMost, IsAscending, Occurs}

pub All-run {κ} :
    (P : OrderedEntry → Type κ) (value : Value) (key : Bytes) (es : List OrderedEntry)
    → All P es
    → All P (remove_run value key es)
unfolding remove_run
All-run P value key [] all = tt
All-run P value key (e ∷ es) all = elim (Bool-cases (is_zero (compare_values e.value value))) [
  | inr z ↦ rw z all
  | inl z ↦ elim (Bool-cases (str_eq e.key key)) [
    | inl k ↦ rw (z, k) (all.1)
    | inr k ↦ rw (z, k) (all.0, All-run P value key es all.1)
  ]
]

pub All-tail {κ} :
    (P : OrderedEntry → Type κ) (value : Value) (key : Bytes) (xs ys : List OrderedEntry)
    → All P (xs ++ ys)
    → All P (xs ++ remove_run value key ys)
All-tail P value key [] ys all = All-run P value key ys all
All-tail P value key (x ∷ xs) ys all = (all.0, All-tail P value key xs ys all.1)

pub IsAscending-run :
    (value : Value) (key : Bytes) (es : List OrderedEntry)
    → IsAscending es
    → IsAscending (remove_run value key es)
unfolding remove_run
IsAscending-run value key [] asc = tt
IsAscending-run value key (e ∷ es) asc =
    elim (Bool-cases (is_zero (compare_values e.value value))) [
      | inr z ↦ rw z asc
      | inl z ↦ elim (Bool-cases (str_eq e.key key)) [
        | inl k ↦ rw (z, k) (asc.1)
        | inr k ↦
            rw (z, k)
              (
                All-run (λ (x : OrderedEntry). AtMost e.value x.value) value key es asc.0,
                IsAscending-run value key es asc.1,
              )
      ]
    ]

pub IsAscending-tail :
    (value : Value) (key : Bytes) (xs ys : List OrderedEntry)
    → IsAscending (xs ++ ys)
    → IsAscending (xs ++ remove_run value key ys)
IsAscending-tail value key [] ys asc = IsAscending-run value key ys asc
IsAscending-tail value key (x ∷ xs) ys asc = (
  All-tail (λ (y : OrderedEntry). AtMost x.value y.value) value key xs ys asc.0,
  IsAscending-tail value key xs ys asc.1,
)

pub length-run :
    (value : Value) (key : Bytes) (es : List OrderedEntry)
    → length (remove_run value key es) ≤ length es
unfolding remove_run
length-run value key [] = omega arith
length-run value key (e ∷ es) = elim (Bool-cases (is_zero (compare_values e.value value))) [
  | inr z ↦ rw z (omega arith)
  | inl z ↦ elim (Bool-cases (str_eq e.key key)) [
    | inl k ↦ rw (z, k) (omega arith)
    | inr k ↦ rw (z, k) (omega (arith, length-run value key es))
  ]
]

pub Occurs-run :
    (value : Value) (key : Bytes) (e : OrderedEntry) (es : List OrderedEntry)
    → str_eq e.key key ≡ false
    → Occurs e es
    → Occurs e (remove_run value key es)
unfolding remove_run
Occurs-run value key e [] other at_e = elim at_e [ ]
Occurs-run value key e (x ∷ es) other at_e =
    elim (Bool-cases (is_zero (compare_values x.value value))) [
      | inr z ↦ rw z at_e
      | inl z ↦ elim (Bool-cases (str_eq x.key key)) [
        | inr k ↦
            rw (z, k)
              (elim at_e [
                | inl is_e ↦ inl is_e
                | inr later ↦ inr (Occurs-run value key e es other later)
              ])
        | inl k ↦
            rw (z, k)
              (elim at_e [
                | inl is_e ↦
                    let bad : ◌≡◌ {A = Bool} true false =
                      sym k ∙ ap (λ (y : OrderedEntry). str_eq y.key key) is_e ∙ other in
                    cc
                | inr later ↦ later
              ])
      ]
    ]
