-- ===== src/Storage/Filter/Total.antt =====
-- A compiled filter of packages/storage/src/filter.ts returns for every document whose values have encodings.
use mathlib.Core.Path.{subst}
use sinterdb.Prelude.{
  ◌≡◌, refl, sym, ap, ◌∙◌, ◌↔◌, inl, inr, Bool, true, false, not, ◌&&◌, Option, none, some,
  Bool-cases, List, [], ◌∷◌, Str, Result, ok, err, ◌>>=◌, >>=-eq-ok, require-eq-ok, if◌then◌else◌,
  starts_with, All,
}
use sinterdb.Protocol.Document.{Value, Items, Fields, array, document, nil, cons, end, field}
use sinterdb.Protocol.Encoder.{encode_document_value}
use sinterdb.Storage.Errors.{Thrown, storage, invalid_filter, encoded}
use sinterdb.Storage.Predicate.{
  FieldPredicate, CompiledFilter, CompiledField, every, any, negated, dollar, resolve_field,
  has_operator, has_literal, is_operator_document, equality, compile_equality_predicate,
}
use sinterdb.Storage.Filter.{
  operator_of, Logical, logical_of, conjunction, disjunction, joint_denial, compile_operator,
  compile_operators, compile_not_predicate, compile_operator_document, compile_field_path,
  compile_predicates, compile_field, matches_compiled_filter, Clauses, Clause, on_field,
  on_document, add_clause, matches_clauses, combine, all_plain, is_empty_array,
  compile_logical_operator, collect_clauses, compile_operands, compile_each, compile_clauses,
  compile_filter,
}
use sinterdb.Storage.Filter.Meaning.{Matches}
use sinterdb.Storage.Filter.Agreement.{compile_filter-clauses, compile_filter-Matches}
use sinterdb.Storage.Filter.Returns.{
  AllEncodable, Returns, AllReturn, IsTotal, bind-Returns, every-Returns, any-Returns,
  negated-Returns, equality-IsTotal, compile_operator-IsTotal, AllTotal-Returns,
}

mutual
  unfolding compile_operators compile_not_predicate

  operators-AllTotal :
      (fs : Fields) (ps : List FieldPredicate) → compile_operators fs ≡ ok ps → All IsTotal ps
  operators-AllTotal end ps h = let e : [] ≡ ps = cc in subst (All IsTotal) e tt
  operators-AllTotal (field name v rest) ps h =
      let (p, h1, h2) =
        >>=-eq-ok (compile_operator (operator_of name) v (compile_not_predicate v))
          (λ p. compile_operators rest >>= λ others. ok (p ∷ others)) h in
      let (others, h3, h4) = >>=-eq-ok (compile_operators rest) (λ others. ok (p ∷ others)) h2 in
      let e : p ∷ others ≡ ps = cc in
      subst (All IsTotal) e (
        compile_operator-IsTotal (operator_of name) v (compile_not_predicate v) p (not-IsTotal v)
            h1,
        operators-AllTotal rest others h3,
      )

  not-IsTotal : (v : Value) (p : FieldPredicate) → compile_not_predicate v ≡ ok p → IsTotal p
  not-IsTotal (document fs) p h =
      let (valid, h1) =
        require-eq-ok (has_operator fs && not (has_literal fs)) (storage invalid_filter)
          (compile_operators fs >>= λ ps. ok (λ resolved. negated (every ps resolved))) h in
      let (ps, h2, h3) =
        >>=-eq-ok (compile_operators fs) (λ ps. ok (λ resolved. negated (every ps resolved))) h1 in
      let e : (λ resolved. negated (every ps resolved)) ≡ p = cc in
      subst IsTotal e (λ r own.
        negated-Returns (every ps r) (AllTotal-Returns ps (operators-AllTotal fs ps h2) r own))
  not-IsTotal _ p h = cc

predicates-AllTotal :
    (v : Value) (ps : List FieldPredicate) → compile_predicates v ≡ ok ps → All IsTotal ps
unfolding compile_predicates compile_operator_document
predicates-AllTotal v ps h = elim (Bool-cases (is_operator_document v)) [
  | inl e ↦ as_operators v (rw (e, compile_predicates) at h)
  | inr e ↦ as_equality (rw (e, compile_predicates) at h)
]
  where
    as_operators :
        (v : Value)
        → ◌≡◌ {A = Result Thrown (List FieldPredicate)}
            (elim v [
              | document fs ↦ compile_operator_document fs
              | _ ↦ err (storage invalid_filter)
            ])
            (ok ps)
        → All IsTotal ps
    as_operators (document fs) k =
        operators-AllTotal fs ps
          (require-eq-ok (not (has_literal fs)) (storage invalid_filter) (compile_operators fs) k).1
    as_operators _ k = cc

    as_equality : (compile_equality_predicate v >>= λ p. ok (p ∷ [])) ≡ ok ps → All IsTotal ps
    as_equality k =
        let (p, h1, h2) = >>=-eq-ok (compile_equality_predicate v) (λ p. ok (p ∷ [])) k in
        let (bytes, h3, h4) =
          >>=-eq-ok (encoded (encode_document_value v)) (λ bytes. ok (equality bytes)) h1 in
        let e : equality bytes ≡ p = cc in
        let e' : p ∷ [] ≡ ps = cc in
        subst (All IsTotal) (ap (λ q. q ∷ []) e ∙ e') (equality-IsTotal bytes, tt)

module _ (doc : Fields) (own : AllEncodable doc) where
  abbrev FieldReturns : CompiledField → Type 0
  FieldReturns compiled = Returns (every compiled.predicates (resolve_field doc compiled.segments))

  abbrev ClauseReturns : Clause → Type 0
  ClauseReturns (on_field compiled) = FieldReturns compiled
  ClauseReturns (on_document filter) = Returns (filter doc)

  abbrev ClausesReturn : Clauses → Type 0
  ClausesReturn cs = All FieldReturns cs.fields × AllReturn doc cs.logical

  fields-Returns :
      (fields : List CompiledField)
      → All FieldReturns fields
      → Returns (matches_compiled_filter fields doc)
  unfolding matches_compiled_filter
  fields-Returns [] all = (true, refl)
  fields-Returns (compiled ∷ fields) all =
      let rest = fields-Returns fields all.1 in
      bind-Returns (every compiled.predicates (resolve_field doc compiled.segments))
        (λ holds. if holds then matches_compiled_filter fields doc else ok false) all.0
        (λ b. after b rest)
    where
      after :
          (b : Bool)
          → Returns (matches_compiled_filter fields doc)
          → Returns (if b then matches_compiled_filter fields doc else ok false)
      after true rest = rest
      after false rest = (false, refl)

  clauses-Returns : (cs : Clauses) → ClausesReturn cs → Returns (matches_clauses cs doc)
  unfolding matches_clauses
  clauses-Returns cs (fields, logical) =
      bind-Returns (matches_compiled_filter cs.fields doc)
        (λ holds. if holds then every cs.logical doc else ok false)
        (fields-Returns cs.fields fields) (λ b. after b)
    where
      after : (b : Bool) → Returns (if b then every cs.logical doc else ok false)
      after true = every-Returns doc cs.logical logical
      after false = (false, refl)

  field-ClauseReturns :
      (key : Str) (v : Value) (clause : Clause)
      → (compile_field key v >>= λ compiled. ok (on_field compiled)) ≡ ok clause
      → ClauseReturns clause
  unfolding compile_field
  field-ClauseReturns key v clause h =
      let (compiled, h1, h2) =
        >>=-eq-ok (compile_field key v) (λ compiled. ok (on_field compiled)) h in
      let (segments, h3, h4) =
        >>=-eq-ok (compile_field_path key)
          (λ segments.
            compile_predicates v >>= λ ps. ok (record { segments = segments; predicates = ps }))
          h1 in
      let (ps, h5, h6) =
        >>=-eq-ok (compile_predicates v)
          (λ ps. ok (record { segments = segments; predicates = ps })) h4 in
      let is_compiled : ◌≡◌ {A = CompiledField} (record { segments = segments; predicates = ps })
          compiled =
        cc in
      let is_clause : on_field compiled ≡ clause = cc in
      subst ClauseReturns (ap on_field is_compiled ∙ is_clause) (
        AllTotal-Returns ps (predicates-AllTotal v ps h5) (resolve_field doc segments)
          (own segments))

  combined-Returns :
      (name : Logical) (clauses : List CompiledFilter)
      → AllReturn doc clauses
      → Returns (combine name clauses doc)
  unfolding combine
  combined-Returns conjunction clauses all = every-Returns doc clauses all
  combined-Returns disjunction clauses all = any-Returns doc clauses all
  combined-Returns joint_denial clauses all =
      negated-Returns (any clauses doc) (any-Returns doc clauses all)

  logical-ClauseReturns :
      (o : Option Logical) (operands : Result Thrown (List CompiledFilter)) (clause : Clause)
      → ((clauses : List CompiledFilter) → operands ≡ ok clauses → AllReturn doc clauses)
      → compile_logical_operator o operands ≡ ok clause
      → ClauseReturns clause
  logical-ClauseReturns none operands clause total h = cc
  logical-ClauseReturns (some name) operands clause total h =
      let (clauses, h1, h2) =
        >>=-eq-ok operands (λ clauses. ok (on_document (combine name clauses))) h in
      let e : on_document (combine name clauses) ≡ clause = cc in
      subst ClauseReturns e (combined-Returns name clauses (total clauses h1))

  clause-Returns :
      (key : Str) (v : Value) (clause : Clause) (b : Bool)
      → ((clauses : List CompiledFilter) → compile_operands v ≡ ok clauses → AllReturn doc clauses)
      → (if b
          then compile_logical_operator (logical_of key) (compile_operands v)
          else (compile_field key v >>= λ compiled. ok (on_field compiled)))
        ≡ ok clause
      → ClauseReturns clause
  clause-Returns key v clause true total h =
      logical-ClauseReturns (logical_of key) (compile_operands v) clause total h
  clause-Returns key v clause false total h = field-ClauseReturns key v clause h

  add_clause-Return :
      (clause : Clause) (cs : Clauses)
      → ClauseReturns clause
      → ClausesReturn cs
      → ClausesReturn (add_clause clause cs)
  add_clause-Return (on_field compiled) cs one (fields, logical) = ((one, fields), logical)
  add_clause-Return (on_document filter) cs one (fields, logical) = (fields, (one, logical))

  mutual
    unfolding collect_clauses compile_operands compile_each compile_clauses

    collect-Return : (fs : Fields) (cs : Clauses) → collect_clauses fs ≡ ok cs → ClausesReturn cs
    collect-Return end cs h =
        let e : ◌≡◌ {A = Clauses} (record { fields = []; logical = [] }) cs = cc in
        subst ClausesReturn e (tt, tt)
    collect-Return (field key v rest) cs h =
        let (clause, h1, h2) =
          >>=-eq-ok
            (if starts_with dollar key
              then compile_logical_operator (logical_of key) (compile_operands v)
              else (compile_field key v >>= λ compiled. ok (on_field compiled)))
            (λ clause. collect_clauses rest >>= λ others. ok (add_clause clause others)) h in
        let (others, h3, h4) =
          >>=-eq-ok (collect_clauses rest) (λ others. ok (add_clause clause others)) h2 in
        let e : add_clause clause others ≡ cs = cc in
        subst ClausesReturn e (
          add_clause-Return clause others
            (clause-Returns key v clause (starts_with dollar key) (operands-Return v) h1)
            (collect-Return rest others h3))

    operands-Return :
        (v : Value) (clauses : List CompiledFilter)
        → compile_operands v ≡ ok clauses
        → AllReturn doc clauses
    operands-Return (array vs) clauses h =
        each-Return vs clauses
          (require-eq-ok (not (is_empty_array vs) && all_plain vs) (storage invalid_filter)
            (compile_each vs) h).1
    operands-Return _ clauses h = cc

    each-Return :
        (vs : Items) (clauses : List CompiledFilter)
        → compile_each vs ≡ ok clauses
        → AllReturn doc clauses
    each-Return nil clauses h = let e : [] ≡ clauses = cc in subst (AllReturn doc) e tt
    each-Return (cons v vs) clauses h =
        let (compiled, h1, h2) =
          >>=-eq-ok (compile_clauses v) (λ c. compile_each vs >>= λ others. ok (c ∷ others)) h in
        let (others, h3, h4) = >>=-eq-ok (compile_each vs) (λ others. ok (compiled ∷ others)) h2 in
        let e : compiled ∷ others ≡ clauses = cc in
        subst (AllReturn doc) e (document-Returns v compiled h1, each-Return vs others h3)

    document-Returns :
        (v : Value) (filter : CompiledFilter) → compile_clauses v ≡ ok filter → Returns (filter doc)
    document-Returns (document fs) filter h =
        let (cs, h1, h2) = >>=-eq-ok (collect_clauses fs) (λ cs. ok (matches_clauses cs)) h in
        let e : matches_clauses cs ≡ filter = cc in
        subst (λ (f : CompiledFilter). Returns (f doc)) e
          (clauses-Returns cs (collect-Return fs cs h1))
    document-Returns _ filter h = cc

-- For a document of which every value that a path leads to has an encoding, and every element of an
-- array there, a compiled filter returns, and returns true exactly if the document is one that the
-- filter means.
pub compile_filter-decides :
    (filter doc : Fields) (matches : CompiledFilter)
    → compile_filter (document filter) ≡ ok matches
    → AllEncodable doc
    → (b : Bool) × (matches doc ≡ ok b) × ((b ≡ true) ↔ Matches filter doc)
compile_filter-decides filter doc matches hf own =
    let (clauses, hc, is_matches) = compile_filter-clauses filter matches hf in
    let (b, e) = clauses-Returns doc own clauses (collect-Return doc own filter clauses hc) in
    let returned : matches doc ≡ ok b = ap (λ (f : CompiledFilter). f doc) (sym is_matches) ∙ e in
    (b, returned, compile_filter-Matches filter doc matches b hf returned)
