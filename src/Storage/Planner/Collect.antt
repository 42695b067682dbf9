-- ===== src/Storage/Planner/Collect.antt =====
-- What `collect` of packages/storage/src/indexing/planner.ts takes from a filter holds of every document
-- that the filter matches.
use mathlib.Core.Path.{subst}
use sinterdb.Prelude.{
  ◌≡◌, refl, sym, ap, ◌∙◌, inl, inr, true, not, ◌&&◌, some, List, [], ◌∷◌, Str, units, str_eq,
  str_eq→≡, ok, ◌>>=◌, >>=-eq-ok, require-eq-ok, Result, if◌then◌else◌, starts_with, Bool-cases,
  All, All-append,
}
use sinterdb.Protocol.Document.{Value, Items, Fields, array, document, nil, cons, end, field}
use sinterdb.Storage.Errors.{Thrown, storage, invalid_filter}
use sinterdb.Storage.Predicate.{CompiledFilter, CompiledField, every, resolve_field, dollar}
use sinterdb.Storage.IndexSpec.{split}
use sinterdb.Storage.Filter.{
  conjunction, logical_of, compile_predicates, compile_field, compile_field_path, Clauses, Clause,
  on_field, on_document, add_clause, matches_clauses, matches_compiled_filter, combine,
  compile_logical_operator, collect_clauses, compile_operands, compile_each, compile_clauses,
  all_plain, is_empty_array,
}
use sinterdb.Storage.Planner.{
  Constraint, Constraints, constraints_get, push_all, field_constraints, collect, collect_and,
  collect_each, collect_document,
}
use sinterdb.Storage.Planner.Constraints.{AllHold, Holds, and_then, predicates-AllHold}

-- Every constraint that is collected for a field holds of the field that it names.
abbrev pub AllSound : Constraints → Fields → Type 0
AllSound out doc =
    All (λ (entry : Str × List Constraint). AllHold entry.1 (resolve_field doc (split entry.0))) out

module _ (doc : Fields) where
  push-AllSound :
      (key : Str) (new : List Constraint) (out : Constraints)
      → AllHold new (resolve_field doc (split key))
      → AllSound out doc
      → AllSound (push_all key new out) doc
  unfolding push_all
  push-AllSound key new [] hn all = (hn, tt)
  push-AllSound key new ((k, cs) ∷ out) hn all = elim (Bool-cases (str_eq k key)) [
    | inl e ↦ rw e (
      All-append (λ c. Holds c (resolve_field doc (split k))) cs new all.0
          (rw (str_eq→≡ k key e) hn),
      all.1,
    )
    | inr e ↦ rw e (all.0, push-AllSound key new out hn all.1)
  ]

  pub get-AllSound :
      (key : Str) (cs : List Constraint) (out : Constraints)
      → AllSound out doc
      → constraints_get key out ≡ some cs
      → AllHold cs (resolve_field doc (split key))
  unfolding constraints_get
  get-AllSound key cs [] all h = cc
  get-AllSound key cs ((k, ds) ∷ out) all h = elim (Bool-cases (str_eq k key)) [
    | inl e ↦
        let is_cs : ds ≡ cs = let h' : some ds ≡ some cs = rw e at h in cc in
        rw (← is_cs) (rw (← str_eq→≡ k key e) all.0)
    | inr e ↦ get-AllSound key cs out all.1 (rw e at h)
  ]

  abbrev ClauseHolds : Clause → Type 0
  ClauseHolds (on_field compiled) =
      every compiled.predicates (resolve_field doc compiled.segments) ≡ ok true
  ClauseHolds (on_document filter) = filter doc ≡ ok true

  matches_clauses-split :
      (c : Clause) (cs : Clauses)
      → matches_clauses (add_clause c cs) doc ≡ ok true
      → ClauseHolds c × (matches_clauses cs doc ≡ ok true)
  unfolding matches_clauses matches_compiled_filter every
  matches_clauses-split (on_field compiled) cs h =
      let (fields, logical) =
        and_then (matches_compiled_filter (compiled ∷ cs.fields) doc) (every cs.logical doc) h in
      let (now, later) =
        and_then (every compiled.predicates (resolve_field doc compiled.segments))
          (matches_compiled_filter cs.fields doc) fields in
      (now, rw (later, logical) refl)
  matches_clauses-split (on_document filter) cs h =
      let (fields, logical) =
        and_then (matches_compiled_filter cs.fields doc) (every (filter ∷ cs.logical) doc) h in
      let (now, later) = and_then (filter doc) (every cs.logical doc) logical in
      (now, rw (fields, later) refl)

  field-AllHold :
      (key : Str) (value : Value) (compiled : CompiledField)
      → compile_field key value ≡ ok compiled
      → ClauseHolds (on_field compiled)
      → AllHold (field_constraints value) (resolve_field doc (split key))
  unfolding compile_field compile_field_path
  field-AllHold key value compiled hc h =
      let (segments, hs, h1) =
        >>=-eq-ok (compile_field_path key)
          (λ segments.
            compile_predicates value >>= λ ps. ok (record { segments = segments; predicates = ps }))
          hc in
      let (_, h2) = require-eq-ok _ (storage invalid_filter) (ok (split key)) hs in
      let is_split : split key ≡ segments = cc in
      let (ps, hp, h3) =
        >>=-eq-ok (compile_predicates value)
          (λ ps. ok (record { segments = segments; predicates = ps })) h1 in
      let is_compiled : ◌≡◌ {A = CompiledField} (record { segments = segments; predicates = ps })
          compiled =
        cc in
      rw is_split (
        predicates-AllHold value ps (resolve_field doc segments) hp
          (subst (λ c. ClauseHolds (on_field c)) (sym is_compiled) h))

  conjunction-every :
      (operands : Result Thrown (List CompiledFilter)) (clause : Clause)
      → compile_logical_operator (some conjunction) operands ≡ ok clause
      → ClauseHolds clause
      → (clauses : List CompiledFilter) × (operands ≡ ok clauses) × (every clauses doc ≡ ok true)
  unfolding combine
  conjunction-every operands clause hc h =
      let (clauses, ho, e) =
        >>=-eq-ok operands (λ clauses. ok (on_document (combine conjunction clauses))) hc in
      let is_clause : on_document (combine conjunction clauses) ≡ clause = cc in
      (clauses, ho, subst ClauseHolds (sym is_clause) h)

  field-Sound :
      (key : Str) (value : Value) (clause : Clause) (out : Constraints)
      → (compile_field key value >>= λ compiled. ok (on_field compiled)) ≡ ok clause
      → ClauseHolds clause
      → AllSound out doc
      → AllSound (push_all key (field_constraints value) out) doc
  field-Sound key value clause out hc h all =
      let (compiled, hf, e) =
        >>=-eq-ok (compile_field key value) (λ compiled. ok (on_field compiled)) hc in
      let is_clause : on_field compiled ≡ clause = cc in
      push-AllSound key (field_constraints value) out
        (field-AllHold key value compiled hf (subst ClauseHolds (sym is_clause) h)) all

  abbrev Compiled : Str → Value → Result Thrown Clause
  Compiled key value =
      if starts_with dollar key
      then compile_logical_operator (logical_of key) (compile_operands value)
      else (compile_field key value >>= λ compiled. ok (on_field compiled))

  and-Compiled :
      (key : Str) (value : Value) (clause : Clause)
      → key ≡ units "$and"
      → Compiled key value ≡ ok clause
      → compile_logical_operator (some conjunction) (compile_operands value) ≡ ok clause
  unfolding logical_of str_eq
  and-Compiled key value clause e hc = subst (λ k. Compiled k value ≡ ok clause) e hc

  collect_step :
      (key : Str) (value : Value) (clause : Clause) (out : Constraints)
      → Compiled key value ≡ ok clause
      → ClauseHolds clause
      → ((clauses : List CompiledFilter)
          → compile_operands value ≡ ok clauses
          → every clauses doc ≡ ok true
          → AllSound (collect_and value out) doc)
      → AllSound out doc
      → AllSound
          (if str_eq key (units "$and")
            then collect_and value out
            else if starts_with dollar key
            then out
            else push_all key (field_constraints value) out)
          doc
  collect_step key value clause out hc h conj all = elim (Bool-cases (str_eq key (units "$and"))) [
    | inl is_and ↦
        let (clauses, ho, he) =
          conjunction-every (compile_operands value) clause
            (and-Compiled key value clause (str_eq→≡ key (units "$and") is_and) hc) h in
        rw is_and (conj clauses ho he)
    | inr other ↦ rw other (elim (Bool-cases (starts_with dollar key)) [
      | inl operator ↦ rw operator all
      | inr plain ↦ rw plain (field-Sound key value clause out (rw plain at hc) h all)
    ])
  ]

  mutual
    unfolding collect collect_and collect_each collect_document collect_clauses compile_operands
        compile_each compile_clauses every

    fields-Sound :
        (fs : Fields) (out : Constraints) (clauses : Clauses)
        → collect_clauses fs ≡ ok clauses
        → matches_clauses clauses doc ≡ ok true
        → AllSound out doc
        → AllSound (collect fs out) doc
    fields-Sound end out clauses hc h all = all
    fields-Sound (field key value rest) out clauses hc h all =
        let (clause, h1, h2) =
          >>=-eq-ok (Compiled key value)
            (λ clause. collect_clauses rest >>= λ clauses. ok (add_clause clause clauses)) hc in
        let (others, h3, h4) =
          >>=-eq-ok (collect_clauses rest) (λ clauses. ok (add_clause clause clauses)) h2 in
        let is_clauses : add_clause clause others ≡ clauses = cc in
        let (now, later) =
          matches_clauses-split clause others
            (subst (λ c. matches_clauses c doc ≡ ok true) (sym is_clauses) h) in
        fields-Sound rest _ others h3 later (
          collect_step key value clause out h1 now
            (λ cs ho he. operands-Sound value out cs ho he all) all)

    operands-Sound :
        (value : Value) (out : Constraints) (clauses : List CompiledFilter)
        → compile_operands value ≡ ok clauses
        → every clauses doc ≡ ok true
        → AllSound out doc
        → AllSound (collect_and value out) doc
    operands-Sound (array vs) out clauses hc h all =
        each-Sound vs out clauses
          (require-eq-ok (not (is_empty_array vs) && all_plain vs) (storage invalid_filter)
            (compile_each vs) hc).1
          h all
    operands-Sound _ out clauses hc h all = all

    each-Sound :
        (vs : Items) (out : Constraints) (clauses : List CompiledFilter)
        → compile_each vs ≡ ok clauses
        → every clauses doc ≡ ok true
        → AllSound out doc
        → AllSound (collect_each vs out) doc
    each-Sound nil out clauses hc h all = all
    each-Sound (cons v vs) out clauses hc h all =
        let (compiled, h1, h2) =
          >>=-eq-ok (compile_clauses v)
            (λ compiled. compile_each vs >>= λ rest. ok (compiled ∷ rest)) hc in
        let (rest, h3, h4) = >>=-eq-ok (compile_each vs) (λ rest. ok (compiled ∷ rest)) h2 in
        let is_clauses : compiled ∷ rest ≡ clauses = cc in
        let (now, later) =
          and_then (compiled doc) (every rest doc) (ap (λ l. every l doc) is_clauses ∙ h) in
        each-Sound vs (collect_document v out) rest h3 later
          (document-Sound v out compiled h1 now all)

    document-Sound :
        (v : Value) (out : Constraints) (compiled : CompiledFilter)
        → compile_clauses v ≡ ok compiled
        → compiled doc ≡ ok true
        → AllSound out doc
        → AllSound (collect_document v out) doc
    document-Sound (document fs) out compiled hc h all =
        let (clauses, h1, h2) =
          >>=-eq-ok (collect_clauses fs) (λ clauses. ok (matches_clauses clauses)) hc in
        let is_compiled : matches_clauses clauses ≡ compiled = cc in
        fields-Sound fs out clauses h1 (subst (λ f. f doc ≡ ok true) (sym is_compiled) h) all
    document-Sound _ out compiled hc h all = all

  pub collect-AllSound :
      (filter : Fields) (clauses : Clauses)
      → collect_clauses filter ≡ ok clauses
      → matches_clauses clauses doc ≡ ok true
      → AllSound (collect filter []) doc
  collect-AllSound filter clauses hc h = fields-Sound filter [] clauses hc h tt
