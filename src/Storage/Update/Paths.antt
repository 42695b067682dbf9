-- ===== src/Storage/Update/Paths.antt =====
-- The paths of an update that packages/storage/src/update.ts has parsed.
use mathlib.Core.Path.{subst}
use sinterdb.Prelude.{
  ◌≡◌, refl, sym, ap, ◌∙◌, true, false, not, Option, none, some, Bool-cases, inl, inr, List, [],
  ◌∷◌, ◌++◌, Str, units, str_eq, str_eq→≡, str_eq_refl, ok, ◌>>=◌, ◌>>◌, require, >>=-eq-ok,
  require-eq-ok, All, All-append, arith, ◌==◌,
}
use sinterdb.Protocol.Document.{Value, Fields, document, end, field}
use sinterdb.Storage.Errors.{invalid_update, immutable_id}
use sinterdb.Storage.IndexSpec.{split, are_segments}
use sinterdb.Storage.Update.{
  UpdateOperator, Instruction, overlaps, overlaps_some, conflicts, first_is_id, is_empty,
  parse_path, validate_operand, parse_operands, parse_operator, parse_operators, update_operator_of,
  parse_update,
}

str_eq_comm : (a b : Str) → str_eq a b ≡ str_eq b a
str_eq_comm a b = elim (Bool-cases (str_eq a b)) [
  | inl e ↦ e ∙ sym (ap (λ x. str_eq b x) (str_eq→≡ a b e) ∙ str_eq_refl b)
  | inr e ↦ elim (Bool-cases (str_eq b a)) [
    | inl f ↦ ap (λ x. str_eq a x) (str_eq→≡ b a f) ∙ str_eq_refl a ∙ sym f
    | inr f ↦ e ∙ sym f
  ]
]

pub overlaps_comm : (left right : List Str) → overlaps left right ≡ overlaps right left
unfolding overlaps
overlaps_comm [] [] = refl
overlaps_comm [] (r ∷ right) = refl
overlaps_comm (l ∷ left) [] = refl
overlaps_comm (l ∷ left) (r ∷ right) = rw (str_eq_comm l r, overlaps_comm left right) refl

-- A path has a first segment, which is not _id.
abbrev pub IsParsed : List Str → Type 0
IsParsed segments =
    (s : Str) × (ss : List Str) × (segments ≡ s ∷ ss) × (str_eq s (units "_id") ≡ false)

pub split-cons : (path : Str) → (s : Str) × (ss : List Str) × (split path ≡ s ∷ ss)
unfolding split
split-cons [] = ([], [], refl)
split-cons (c ∷ path) = elim (Bool-cases (c == 0x2e)) [
  | inl e ↦ ([], split path, rw e refl)
  | inr e ↦ let (s, ss, h) = split-cons path in (c ∷ s, ss, rw e (rw h refl))
]

parse_path-IsParsed :
    (path : Str) (segments : List Str) → parse_path path ≡ ok segments → IsParsed segments
unfolding parse_path
parse_path-IsParsed path segments h =
    let (valid, h1) =
      require-eq-ok (are_segments (split path)) invalid_update
        (require (not (first_is_id (split path))) immutable_id >> ok (split path)) h in
    let (not_id, h2) =
      require-eq-ok (not (first_is_id (split path))) immutable_id (ok (split path)) h1 in
    let (s, ss, e) = split-cons path in
    let is_split : split path ≡ segments = cc in
    let first : not (str_eq s (units "_id")) ≡ true =
      ap (λ l. not (first_is_id l)) (sym e) ∙ not_id in
    (s, ss, sym is_split ∙ e, ground (arith, first))

abbrev AllParsed : List Instruction → Type 0
AllParsed instructions = All (λ (i : Instruction). IsParsed i.segments) instructions

parse_operands-AllParsed :
    (operator : UpdateOperator) (fs : Fields) (instructions : List Instruction)
    → parse_operands operator fs ≡ ok instructions
    → AllParsed instructions
unfolding parse_operands
parse_operands-AllParsed operator end instructions h =
    let e : [] ≡ instructions = cc in subst AllParsed e tt
parse_operands-AllParsed operator (field path operand rest) instructions h =
    let (segments, h1, h2) =
      >>=-eq-ok (parse_path path)
        (λ segments. validate_operand operator operand >>= λ validated.
          parse_operands operator rest >>= λ others.
          ok (record { operator = operator; segments = segments; operand = validated } ∷ others))
        h in
    let (validated, h3, h4) =
      >>=-eq-ok (validate_operand operator operand)
        (λ validated. parse_operands operator rest >>= λ others.
          ok (record { operator = operator; segments = segments; operand = validated } ∷ others))
        h2 in
    let (others, h5, h6) =
      >>=-eq-ok (parse_operands operator rest)
        (λ others.
          ok (record { operator = operator; segments = segments; operand = validated } ∷ others))
        h4 in
    let e : record { operator = operator; segments = segments; operand = validated } ∷ others
        ≡ instructions =
      cc in
    subst AllParsed e
      (parse_path-IsParsed path segments h1, parse_operands-AllParsed operator rest others h5)

parse_operator-AllParsed :
    (operator : Option UpdateOperator) (operands : Value) (instructions : List Instruction)
    → parse_operator operator operands ≡ ok instructions
    → AllParsed instructions
unfolding parse_operator
parse_operator-AllParsed none operands instructions h = cc
parse_operator-AllParsed (some operator) (document fs) instructions h =
    parse_operands-AllParsed operator fs instructions
      (require-eq-ok (not (is_empty fs)) invalid_update (parse_operands operator fs) h).1
parse_operator-AllParsed (some operator) _ instructions h = cc

parse_operators-AllParsed :
    (fs : Fields) (instructions : List Instruction)
    → parse_operators fs ≡ ok instructions
    → AllParsed instructions
unfolding parse_operators
parse_operators-AllParsed end instructions h =
    let e : [] ≡ instructions = cc in subst AllParsed e tt
parse_operators-AllParsed (field name operands rest) instructions h =
    let (is, h1, h2) =
      >>=-eq-ok (parse_operator (update_operator_of name) operands)
        (λ is. parse_operators rest >>= λ others. ok (is ++ others)) h in
    let (others, h3, h4) = >>=-eq-ok (parse_operators rest) (λ others. ok (is ++ others)) h2 in
    let e : is ++ others ≡ instructions = cc in
    subst AllParsed e (
      All-append (λ (i : Instruction). IsParsed i.segments) is others
        (parse_operator-AllParsed (update_operator_of name) operands is h1)
        (parse_operators-AllParsed rest others h3))

-- Every path is parsed, and no two overlap.
pub parse_update-AllParsed :
    (update : Value) (instructions : List Instruction)
    → parse_update update ≡ ok instructions
    → AllParsed instructions × (conflicts instructions ≡ false)
unfolding parse_update
parse_update-AllParsed (document fs) instructions h =
    let h1 =
      (require-eq-ok (not (is_empty fs)) invalid_update
        (parse_operators fs >>= λ is. require (not (conflicts is)) invalid_update >> ok is) h).1 in
    let (is, h2, h3) =
      >>=-eq-ok (parse_operators fs) (λ is. require (not (conflicts is)) invalid_update >> ok is)
        h1 in
    let (apart, h4) = require-eq-ok (not (conflicts is)) invalid_update (ok is) h3 in
    let e : is ≡ instructions = cc in
    subst (λ x. AllParsed x × (conflicts x ≡ false)) e
      (parse_operators-AllParsed fs is h2, ground (arith, apart))
parse_update-AllParsed _ instructions h = cc

-- Of parsed instructions none overlaps another.
abbrev pub AllApart : List Str → List Instruction → Type 0
AllApart segments instructions =
    All (λ (i : Instruction). overlaps i.segments segments ≡ false) instructions

overlaps_some-AllApart :
    (segments : List Str) (instructions : List Instruction)
    → overlaps_some segments instructions ≡ false
    → AllApart segments instructions
unfolding overlaps_some
overlaps_some-AllApart segments [] h = tt
overlaps_some-AllApart segments (i ∷ instructions) h = (
  overlaps_comm i.segments segments ∙ ground (arith, h),
  overlaps_some-AllApart segments instructions (ground (arith, h)),
)

pub conflicts-AllApart :
    (xs ys : List Instruction) (i : Instruction)
    → conflicts (xs ++ i ∷ ys) ≡ false
    → AllApart i.segments xs × AllApart i.segments ys
unfolding conflicts overlaps_some
conflicts-AllApart [] ys i h = (tt, overlaps_some-AllApart i.segments ys (ground (arith, h)))
conflicts-AllApart (x ∷ xs) ys i h =
    let (before, behind) = conflicts-AllApart xs ys i (ground (arith, h)) in
    ((at_end xs (ground (arith, h)), before), behind)
  where
    at_end :
        (zs : List Instruction)
        → overlaps_some x.segments (zs ++ i ∷ ys) ≡ false
        → overlaps x.segments i.segments ≡ false
    at_end [] k = ground (arith, k)
    at_end (z ∷ zs) k = at_end zs (ground (arith, k))
