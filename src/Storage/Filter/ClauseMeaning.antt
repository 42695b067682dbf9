-- ===== src/Storage/Filter/ClauseMeaning.antt =====
-- The clauses of a compiled filter of packages/storage/src/filter.ts decide what they mean.
use mathlib.Core.Path.{subst}
use sinterdb.Prelude.{
  ◌≡◌, refl, ap, ◌∙◌, inl, inr, Bool, true, false, not, ◌&&◌, ◌||◌, ◌⊎◌, starts_with, Bool-cases,
  List, [], ◌∷◌, Str, Result, ok, err, ◌>>=◌, >>=-eq-ok, require-eq-ok, if◌then◌else◌, ◌==◌, length,
}
use sinterdb.Protocol.Errors.{Throws}
use sinterdb.Protocol.Document.{Value, Fields, document, end, field}
use sinterdb.Protocol.Encoder.{encode_document_value}
use sinterdb.Storage.Errors.{Thrown, storage, invalid_filter, encoded, encoded-eq-ok}
use sinterdb.Storage.IndexSpec.{split}
use sinterdb.Storage.Predicate.{
  ResolvedField, FieldPredicate, CompiledFilter, CompiledField, every, negated, resolve_field,
  dollar, has_operator, has_literal, is_operator_document, equality, compile_equality_predicate,
}
use sinterdb.Storage.Filter.{
  operator_of, compile_operator, compile_operators, compile_not_predicate,
  compile_operator_document, are_path_segments, compile_field_path, compile_predicates,
  compile_field, matches_compiled_filter, Clauses, Clause, on_field, on_document, add_clause,
  matches_clauses,
}
use sinterdb.Storage.Filter.Meaning.{
  IsEqual, NameHolds, OperatorsHold, NotHolds, OperatorDocument, SomeDollar, HasOperators,
  FieldHolds,
}
use sinterdb.Storage.Filter.Named.{OperatorHolds, OperatorHolds-name}
use sinterdb.Storage.Filter.Decide.{
  Decided, Decides, Decided-both, Decided-negated, every-nil, every-cons,
}
use sinterdb.Storage.Filter.Predicates.{equality-decided, compile_operator-Decides}

name-Decides :
    (name : Str) (v : Value) (N : ResolvedField → Type 0) (p : FieldPredicate)
    → Decides p (λ r. OperatorHolds (operator_of name) v r (N r))
    → Decides p (λ r. NameHolds name v r (N r))
name-Decides name v N p own r b h =
    subst (Decided b) (OperatorHolds-name v r (N r) name) (own r b h)

mutual
  unfolding compile_operators OperatorsHold NotHolds compile_not_predicate

  compile_operators-Decides :
      (fs : Fields) (ps : List FieldPredicate)
      → compile_operators fs ≡ ok ps
      → Decides (every ps) (OperatorsHold fs)
  compile_operators-Decides end ps h =
      let e : [] ≡ ps = cc in subst (λ l. Decides (every l) (λ r. Unit)) e every-nil
  compile_operators-Decides (field name v rest) ps h =
      let (p, h1, h2) =
        >>=-eq-ok (compile_operator (operator_of name) v (compile_not_predicate v))
          (λ p. compile_operators rest >>= λ others. ok (p ∷ others)) h in
      let (others, h3, h4) = >>=-eq-ok (compile_operators rest) (λ others. ok (p ∷ others)) h2 in
      let e : p ∷ others ≡ ps = cc in
      subst (λ l. Decides (every l) (λ r. NameHolds name v r (NotHolds v r) × OperatorsHold rest r))
        e
        (every-cons p others (λ r. NameHolds name v r (NotHolds v r)) (OperatorsHold rest)
          (name-Decides name v (NotHolds v) p (
            compile_operator-Decides (operator_of name) v (compile_not_predicate v) (NotHolds v) p
              (compile_not-Decides v) h1))
          (compile_operators-Decides rest others h3))

  compile_not-Decides :
      (v : Value) (p : FieldPredicate) → compile_not_predicate v ≡ ok p → Decides p (NotHolds v)
  compile_not-Decides (document fs) p h =
      let (valid, h1) =
        require-eq-ok (has_operator fs && not (has_literal fs)) (storage invalid_filter)
          (compile_operators fs >>= λ ps. ok (λ resolved. negated (every ps resolved))) h in
      let (ps, h2, h3) =
        >>=-eq-ok (compile_operators fs) (λ ps. ok (λ resolved. negated (every ps resolved))) h1 in
      let e : (λ resolved. negated (every ps resolved)) ≡ p = cc in
      subst (λ q. Decides q (λ r. ¬ OperatorsHold fs r)) e
        (λ r b k.
          Decided-negated (OperatorsHold fs r) (every ps r) (compile_operators-Decides fs ps h2 r) b
            k)
  compile_not-Decides _ p h = cc

operators_of :
    (fs : Fields) {ps : List FieldPredicate}
    → compile_operator_document fs ≡ ok ps
    → compile_operators fs ≡ ok ps
unfolding compile_operator_document
operators_of fs h =
    (require-eq-ok (not (has_literal fs)) (storage invalid_filter) (compile_operators fs) h).1

one_only :
    (p : FieldPredicate) (S : ResolvedField → Type 0) → Decides p S → Decides (every (p ∷ [])) S
one_only p S own r true k = (every-cons p [] S (λ r. Unit) own every-nil r true k).0
one_only p S own r false k = λ s. every-cons p [] S (λ r. Unit) own every-nil r false k (s, tt)

has_operator-SomeDollar : (fs : Fields) → Decided (has_operator fs) (SomeDollar fs)
unfolding has_operator
has_operator-SomeDollar end = λ h. h
has_operator-SomeDollar (field name v fs) =
    by_name (starts_with dollar name) refl (has_operator fs) (has_operator-SomeDollar fs)
  where
    by_name :
        (b : Bool)
        → starts_with dollar name ≡ b
        → (c : Bool) → Decided c (SomeDollar fs)
        → Decided (b || c) (SomeDollar (field name v fs))
    by_name true e c s = inl e
    by_name false e true s = inr s
    by_name false e false n = λ h. elim h [ inl k ↦ cc | inr k ↦ n k ]

is_operator_document-decided : (v : Value) → Decided (is_operator_document v) (HasOperators v)
unfolding is_operator_document
is_operator_document-decided (document fs) = has_operator-SomeDollar fs
is_operator_document-decided _ = λ h. h

first-decided : (H S T : Type 0) (b : Bool) → H → Decided b S → Decided b ((H × S) ⊎ ((¬ H) × T))
first-decided H S T true own s = inl (own, s)
first-decided H S T false own n = λ h. elim h [ inl k ↦ n k.1 | inr k ↦ k.0 own ]

second-decided : (H S T : Type 0) (b : Bool) → ¬ H → Decided b T → Decided b ((H × S) ⊎ ((¬ H) × T))
second-decided H S T true own t = inr (own, t)
second-decided H S T false own n = λ h. elim h [ inl k ↦ own k.0 | inr k ↦ n k.1 ]

compile_predicates-Decides :
    (v : Value) (ps : List FieldPredicate)
    → compile_predicates v ≡ ok ps
    → Decides (every ps) (FieldHolds v)
unfolding compile_predicates
compile_predicates-Decides v ps h = elim (Bool-cases (is_operator_document v)) [
  | inl e ↦ λ r b k.
      first-decided (HasOperators v) (OperatorDocument v r) (IsEqual v r) b
        (subst (λ x. Decided x (HasOperators v)) e (is_operator_document-decided v))
        (as_operators v (rw (e, compile_predicates) at h) r b k)
  | inr e ↦ λ r b k.
      second-decided (HasOperators v) (OperatorDocument v r) (IsEqual v r) b
        (subst (λ x. Decided x (HasOperators v)) e (is_operator_document-decided v))
        (as_equality (rw (e, compile_predicates) at h) r b k)
]
  where
    as_operators :
        (v : Value)
        → ◌≡◌ {A = Result Thrown (List FieldPredicate)}
            (elim v [
              | document fs ↦ compile_operator_document fs
              | _ ↦ err (storage invalid_filter)
            ])
            (ok ps)
        → Decides (every ps) (OperatorDocument v)
    as_operators (document fs) k = compile_operators-Decides fs ps (operators_of fs k)
    as_operators _ k = cc

    as_equality :
        (compile_equality_predicate v >>= λ p. ok (p ∷ [])) ≡ ok ps → Decides (every ps) (IsEqual v)
    as_equality k =
        let (p, h1, h2) = >>=-eq-ok (compile_equality_predicate v) (λ p. ok (p ∷ [])) k in
        let (bytes, h3, h4) =
          >>=-eq-ok (encoded (encode_document_value v)) (λ bytes. ok (equality bytes)) h1 in
        let e : equality bytes ≡ p = cc in
        let e' : p ∷ [] ≡ ps = cc in
        subst (λ l. Decides (every l) (IsEqual v)) (ap (λ q. q ∷ []) e ∙ e')
          (λ r b k'.
            one_only (equality bytes) (IsEqual v)
              (equality-decided v bytes (encoded-eq-ok (encode_document_value v) h3)) r b k')

-- What a clause says of a document.
abbrev pub ClauseDecides : Clause → (Fields → Type 0) → Type 0
ClauseDecides (on_field compiled) S =
    (doc : Fields) (b : Bool)
    → every compiled.predicates (resolve_field doc compiled.segments) ≡ ok b
    → Decided b (S doc)
ClauseDecides (on_document filter) S = Decides filter S

module _ (cs : Clauses) (S T : Fields → Type 0) (rest : Decides (matches_clauses cs) T) where
  -- What is left to be asked once the fields' answer is known.
  from_fields :
      (doc : Fields) (c b : Bool)
      → matches_compiled_filter cs.fields doc ≡ ok c
      → (if c then every cs.logical doc else ok false) ≡ ok b
      → Decided b (T doc)
  unfolding matches_clauses
  from_fields doc c b hf h =
      rest doc b (ap (λ r. r >>= λ holds. if holds then every cs.logical doc else ok false) hf ∙ h)

  field_clause :
      (compiled : CompiledField)
      → ClauseDecides (on_field compiled) S
      → Decides (matches_clauses (add_clause (on_field compiled) cs)) (λ doc. S doc × T doc)
  unfolding matches_clauses matches_compiled_filter
  field_clause compiled own doc b h =
      let (c, h1, h2) =
        >>=-eq-ok (matches_compiled_filter (compiled ∷ cs.fields) doc)
          (λ holds. if holds then every cs.logical doc else ok false) h in
      let (d, h3, h4) =
        >>=-eq-ok (every compiled.predicates (resolve_field doc compiled.segments))
          (λ holds. if holds then matches_compiled_filter cs.fields doc else ok false) h1 in
      after d c b (own doc d h3) h4 h2
    where
      after :
          (d c b : Bool)
          → Decided d (S doc)
          → ◌≡◌ {A = Throws Bool}
              (if d then matches_compiled_filter cs.fields doc else ok false)
              (ok c)
          → ◌≡◌ {A = Throws Bool} (if c then every cs.logical doc else ok false) (ok b)
          → Decided b (S doc × T doc)
      after true c b s k1 k2 = Decided-both (S doc) (T doc) b s (from_fields doc c b k1 k2)
      after false true b n k1 k2 = cc
      after false false true n k1 k2 = cc
      after false false false n k1 k2 = λ st. n st.0

  document_clause :
      (filter : CompiledFilter)
      → Decides filter S
      → Decides (matches_clauses (add_clause (on_document filter) cs)) (λ doc. S doc × T doc)
  unfolding matches_clauses every
  document_clause filter own doc b h =
      let (c, h1, h2) =
        >>=-eq-ok (matches_compiled_filter cs.fields doc)
          (λ holds. if holds then every (filter ∷ cs.logical) doc else ok false) h in
      by_fields c b h1 h2
    where
      by_filter :
          (d b : Bool)
          → Decided d (S doc)
          → matches_compiled_filter cs.fields doc ≡ ok true
          → ◌≡◌ {A = Throws Bool} (if d then every cs.logical doc else ok false) (ok b)
          → Decided b (S doc × T doc)
      by_filter true b s k1 k2 = Decided-both (S doc) (T doc) b s (from_fields doc true b k1 k2)
      by_filter false true n k1 k2 = cc
      by_filter false false n k1 k2 = λ st. n st.0

      by_fields :
          (c b : Bool)
          → matches_compiled_filter cs.fields doc ≡ ok c
          → ◌≡◌ {A = Throws Bool} (if c then every (filter ∷ cs.logical) doc else ok false) (ok b)
          → Decided b (S doc × T doc)
      by_fields true b k1 k2 =
          let (d, h3, h4) =
            >>=-eq-ok (filter doc) (λ holds. if holds then every cs.logical doc else ok false) k2 in
          by_filter d b (own doc d h3) k1 h4
      by_fields false true k1 k2 = cc
      by_fields false false k1 k2 = λ st. from_fields doc false false k1 refl st.1

pub add_clause-Decides :
    (clause : Clause) (cs : Clauses) (S T : Fields → Type 0)
    → ClauseDecides clause S
    → Decides (matches_clauses cs) T
    → Decides (matches_clauses (add_clause clause cs)) (λ doc. S doc × T doc)
add_clause-Decides (on_field compiled) cs S T own rest = field_clause cs S T rest compiled own
add_clause-Decides (on_document filter) cs S T own rest = document_clause cs S T rest filter own

pub field-ClauseDecides :
    (key : Str) (v : Value) (clause : Clause)
    → (compile_field key v >>= λ compiled. ok (on_field compiled)) ≡ ok clause
    → ClauseDecides clause (λ doc. FieldHolds v (resolve_field doc (split key)))
unfolding compile_field compile_field_path
field-ClauseDecides key v clause h =
    let (compiled, h1, h2) =
      >>=-eq-ok (compile_field key v) (λ compiled. ok (on_field compiled)) h in
    let (segments, h3, h4) =
      >>=-eq-ok (compile_field_path key)
        (λ segments.
          compile_predicates v >>= λ ps. ok (record { segments = segments; predicates = ps }))
        h1 in
    let (ps, h5, h6) =
      >>=-eq-ok (compile_predicates v) (λ ps. ok (record { segments = segments; predicates = ps }))
        h4 in
    let (valid, h7) =
      require-eq-ok (not (length key == 0) && are_path_segments (split key))
        (storage invalid_filter) (ok (split key)) h3 in
    let is_split : split key ≡ segments = cc in
    let is_compiled : ◌≡◌ {A = CompiledField} (record { segments = segments; predicates = ps })
        compiled =
      cc in
    let is_clause : on_field compiled ≡ clause = cc in
    subst (λ c. ClauseDecides c (λ doc. FieldHolds v (resolve_field doc (split key))))
      (ap on_field is_compiled ∙ is_clause)
      (λ doc b k.
        compile_predicates-Decides v ps h5 (resolve_field doc (split key)) b
          (ap (λ l. every ps (resolve_field doc l)) is_split ∙ k))
