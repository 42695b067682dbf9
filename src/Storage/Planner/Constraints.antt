-- ===== src/Storage/Planner/Constraints.antt =====
-- What `collect` of packages/storage/src/indexing/planner.ts takes from a filter holds of every document
-- that the filter matches.
use sinterdb.Prelude.{
  ◌≡◌, refl, ap, ◌∙◌, ◌⊎◌, inl, inr, Bool, true, false, not, ◌||◌, Option, some, List, [], ◌∷◌,
  Bytes, str_eq, str_eq→≡, ok, err, ◌>>=◌, >>=-eq-ok, require-eq-ok, Result, if◌then◌else◌,
  Bool-cases, All, All-append,
}
use sinterdb.Protocol.Errors.{Throws}
use sinterdb.Protocol.Document.{Value, Items, Fields, array, document, nil, cons, end, field}
use sinterdb.Protocol.Encoder.{encode_document_value}
use sinterdb.Storage.Errors.{Thrown, encoded, storage, invalid_filter, encoded-eq-ok}
use sinterdb.Storage.Predicate.{
  ResolvedField, FieldPredicate, found, missing, every, any, canonical_equals, equals_some,
  is_member, membership, encode_candidates, ComparisonOperator, gt, gte, lt, lte, compares,
  is_operator_document, has_operator, has_literal, is_comparable_value, equality, compared,
  compile_equality_predicate, compile_membership_predicate, compile_comparison_predicate,
}
use sinterdb.Storage.Filter.{
  Operator, eq, member, comparison, operator_of, compile_operator, compile_operators,
  compile_not_predicate, compile_operator_document, compile_predicates,
}
use sinterdb.Storage.Filter.Meaning.{SameEncoding}
use sinterdb.Storage.FieldIndex.{is_array}
use sinterdb.Storage.Planner.{
  Constraint, equals, one_of, lower, upper, operator_constraint, operator_constraints,
  field_constraints,
}

abbrev pub MemberOf : Value → Items → Type 0
MemberOf u nil = ⊥
MemberOf u (cons v vs) = SameEncoding u v ⊎ MemberOf u vs

abbrev pub Holds : Constraint → ResolvedField → Type 0
Holds (equals v) missing = ⊥
Holds (equals v) (found u) = SameEncoding u v
Holds (one_of vs) missing = ⊥
Holds (one_of vs) (found u) = (is_array u ≡ true) ⊎ MemberOf u vs
Holds (lower v inclusive) missing = ⊥
Holds (lower v inclusive) (found u) = compares (if inclusive then gte else gt) u v ≡ true
Holds (upper v inclusive) missing = ⊥
Holds (upper v inclusive) (found u) = compares (if inclusive then lte else lt) u v ≡ true

abbrev pub AllHold : List Constraint → ResolvedField → Type 0
AllHold cs r = All (λ c. Holds c r) cs

-- Taking apart what returned true.
pub and_then :
    (test next : Throws Bool)
    → (test >>= λ b. if b then next else ok false) ≡ ok true
    → (test ≡ ok true) × (next ≡ ok true)
and_then (ok true) next h = (refl, h)
and_then (ok false) next h = cc
and_then (err e) next h = cc

canonical_equals-SameEncoding :
    (u v : Value) (bytes : Bytes)
    → encode_document_value v ≡ ok bytes
    → canonical_equals u bytes ≡ ok true
    → SameEncoding u v
unfolding canonical_equals
canonical_equals-SameEncoding u v bytes hv h =
    let (xs, hu, e) = >>=-eq-ok (encode_document_value u) (λ xs. ok (str_eq xs bytes)) h in
    let is_same : str_eq xs bytes ≡ true = cc in
    (bytes, hu ∙ ap (λ b. ok b) (str_eq→≡ xs bytes is_same), hv)

-- `some` over the candidates finds a member.
equals_some-MemberOf :
    (u : Value) (vs : Items) (candidates : List Bytes)
    → encode_candidates vs ≡ ok candidates
    → equals_some candidates u ≡ ok true
    → MemberOf u vs
unfolding encode_candidates equals_some any
equals_some-MemberOf u nil candidates he h =
    let e : [] ≡ candidates = cc in
    let h' : equals_some [] u ≡ ok true = ap (λ cs. equals_some cs u) e ∙ h in cc
equals_some-MemberOf u (cons v vs) candidates he h =
    let (bytes, hv, h1) =
      >>=-eq-ok (encode_document_value v) (λ bytes. encode_candidates vs >>= λ cs. ok (bytes ∷ cs))
        he in
    let (cs, hvs, h2) = >>=-eq-ok (encode_candidates vs) (λ cs. ok (bytes ∷ cs)) h1 in
    let e : bytes ∷ cs ≡ candidates = cc in
    split_some bytes cs (canonical_equals u bytes) refl hv
      (λ h'. equals_some-MemberOf u vs cs hvs h') (ap (λ l. equals_some l u) e ∙ h)
  where
    split_some :
        (bytes : Bytes) (cs : List Bytes) (r : Throws Bool)
        → canonical_equals u bytes ≡ r
        → encode_document_value v ≡ ok bytes
        → (equals_some cs u ≡ ok true → MemberOf u vs)
        → (canonical_equals u bytes >>= λ holds. if holds then ok true else equals_some cs u)
          ≡ ok true
        → SameEncoding u v ⊎ MemberOf u vs
    split_some bytes cs (ok true) e hv ih h = inl (canonical_equals-SameEncoding u v bytes hv e)
    split_some bytes cs (ok false) e hv ih h = inr (ih (rw e at h))
    split_some bytes cs (err x) e hv ih h = let h' : err x ≡ ok true = rw e at h in cc

-- A member of the candidates, or an array.
is_member-Holds :
    (u : Value) (vs : Items) (candidates : List Bytes)
    → encode_candidates vs ≡ ok candidates
    → is_member candidates u ≡ ok true
    → Holds (one_of vs) (found u)
unfolding is_member
is_member-Holds (array us) vs candidates he h = inl refl
is_member-Holds u vs candidates he h =
    inr (equals_some-MemberOf u vs candidates he (direct (equals_some candidates u) h))
  where
    direct : (r : Throws Bool) → (r >>= λ b. ok false >>= λ e. ok (b || e)) ≡ ok true → r ≡ ok true
    direct (ok true) h = refl
    direct (ok false) h = cc
    direct (err x) h = cc

equality-Holds :
    (v : Value) (p : FieldPredicate) (r : ResolvedField)
    → compile_equality_predicate v ≡ ok p
    → p r ≡ ok true
    → Holds (equals v) r
equality-Holds v p r hc h =
    let (bytes, hb, e) =
      >>=-eq-ok (encoded (encode_document_value v)) (λ bytes. ok (equality bytes)) hc in
    let is_p : equality bytes ≡ p = cc in
    of_equality bytes r (encoded-eq-ok (encode_document_value v) hb) (rw (← is_p) at h)
  where
    of_equality :
        (bytes : Bytes) (r : ResolvedField)
        → encode_document_value v ≡ ok bytes
        → equality bytes r ≡ ok true
        → Holds (equals v) r
    of_equality bytes (found u) hv h = canonical_equals-SameEncoding u v bytes hv h
    of_equality bytes missing hv h = cc

membership-Holds :
    (vs : Items) (p : FieldPredicate) (r : ResolvedField)
    → compile_membership_predicate (array vs) false ≡ ok p
    → p r ≡ ok true
    → Holds (one_of vs) r
membership-Holds vs p r hc h =
    let (candidates, hb, e) =
      >>=-eq-ok (encoded (encode_candidates vs)) (λ cs. ok (membership false cs)) hc in
    let is_p : membership false candidates ≡ p = cc in
    of_membership candidates r (encoded-eq-ok (encode_candidates vs) hb) (rw (← is_p) at h)
  where
    plainly : (r : Throws Bool) → (r >>= λ b. ok b) ≡ ok true → r ≡ ok true
    plainly (ok b) h = h
    plainly (err e) h = cc

    of_membership :
        (candidates : List Bytes) (r : ResolvedField)
        → encode_candidates vs ≡ ok candidates
        → membership false candidates r ≡ ok true
        → Holds (one_of vs) r
    of_membership candidates (found u) hv h =
        is_member-Holds u vs candidates hv (plainly (is_member candidates u) h)
    of_membership candidates missing hv h = cc

compared-Compares :
    (operator : ComparisonOperator) (v : Value) (p : FieldPredicate) (r : ResolvedField)
    → compile_comparison_predicate operator v ≡ ok p
    → p r ≡ ok true
    → (u : Value) × (r ≡ found u) × (compares operator u v ≡ true)
compared-Compares operator v p r hc h =
    let (_, e) = require-eq-ok (is_comparable_value v) (storage invalid_filter) _ hc in
    let is_p : compared operator v ≡ p = cc in of_compared r (rw (← is_p) at h)
  where
    of_compared :
        (r : ResolvedField)
        → compared operator v r ≡ ok true
        → (u : Value) × (r ≡ found u) × (compares operator u v ≡ true)
    of_compared (found u) h = (u, refl, cc)
    of_compared missing h = cc

operator-AllHold :
    (o : Option Operator) (operand : Value) (inner : Result Thrown FieldPredicate)
    (p : FieldPredicate) (r : ResolvedField)
    → compile_operator o operand inner ≡ ok p
    → p r ≡ ok true
    → AllHold (operator_constraint o operand) r
unfolding compile_operator operator_constraint
operator-AllHold (some eq) v inner p r hc h = (equality-Holds v p r hc h, tt)
operator-AllHold (some member) (array vs) inner p r hc h = (membership-Holds vs p r hc h, tt)
operator-AllHold (some (comparison gt)) v inner p r hc h =
    let (u, e, c) = compared-Compares gt v p r hc h in rw e (c, tt)
operator-AllHold (some (comparison gte)) v inner p r hc h =
    let (u, e, c) = compared-Compares gte v p r hc h in rw e (c, tt)
operator-AllHold (some (comparison lt)) v inner p r hc h =
    let (u, e, c) = compared-Compares lt v p r hc h in rw e (c, tt)
operator-AllHold (some (comparison lte)) v inner p r hc h =
    let (u, e, c) = compared-Compares lte v p r hc h in rw e (c, tt)
operator-AllHold _ operand inner p r hc h = tt

operators-AllHold :
    (ops : Fields) (ps : List FieldPredicate) (r : ResolvedField)
    → compile_operators ops ≡ ok ps
    → every ps r ≡ ok true
    → AllHold (operator_constraints ops) r
unfolding compile_operators operator_constraints every
operators-AllHold end ps r hc h = tt
operators-AllHold (field name operand rest) ps r hc h =
    let (p, hp, h1) =
      >>=-eq-ok (compile_operator (operator_of name) operand (compile_not_predicate operand))
        (λ p. compile_operators rest >>= λ ps. ok (p ∷ ps)) hc in
    let (qs, hqs, h2) = >>=-eq-ok (compile_operators rest) (λ ps. ok (p ∷ ps)) h1 in
    let is_ps : p ∷ qs ≡ ps = cc in
    let (now, later) = and_then (p r) (every qs r) (ap (λ l. every l r) is_ps ∙ h) in
    All-append (λ c. Holds c r) (operator_constraint (operator_of name) operand)
      (operator_constraints rest)
      (operator-AllHold (operator_of name) operand (compile_not_predicate operand) p r hp now)
      (operators-AllHold rest qs r hqs later)

literal-AllHold :
    (v : Value) (ps : List FieldPredicate) (r : ResolvedField)
    → (compile_equality_predicate v >>= λ p. ok (p ∷ [])) ≡ ok ps
    → every ps r ≡ ok true
    → AllHold (equals v ∷ []) r
unfolding every
literal-AllHold v ps r hc h =
    let (p, hp, e) = >>=-eq-ok (compile_equality_predicate v) (λ p. ok (p ∷ [])) hc in
    let is_ps : p ∷ [] ≡ ps = cc in
    (equality-Holds v p r hp (and_then (p r) (ok true) (ap (λ l. every l r) is_ps ∙ h)).0, tt)

pub predicates-AllHold :
    (value : Value) (ps : List FieldPredicate) (r : ResolvedField)
    → compile_predicates value ≡ ok ps
    → every ps r ≡ ok true
    → AllHold (field_constraints value) r
unfolding compile_predicates field_constraints is_operator_document compile_operator_document
predicates-AllHold (document fs) ps r hc h = elim (Bool-cases (has_operator fs)) [
  | inl e ↦ rw e (
      operators-AllHold fs ps r
        (require-eq-ok (not (has_literal fs)) (storage invalid_filter) (compile_operators fs)
          (rw e at hc)).1
        h)
  | inr e ↦ rw e (literal-AllHold (document fs) ps r (rw e at hc) h)
]
predicates-AllHold v ps r hc h = literal-AllHold v ps r hc h
