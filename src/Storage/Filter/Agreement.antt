-- ===== src/Storage/Filter/Agreement.antt =====
-- A compiled filter of packages/storage/src/filter.ts says what the filter means.
use mathlib.Core.Path.{subst}
use sinterdb.Prelude.{
  ◌≡◌, refl, ap, ◌∙◌, ◌↔◌, fun_ext, Bool, true, false, not, ◌&&◌, Option, none, some, List, [], ◌∷◌,
  Str, Result, ok, err, ◌>>=◌, >>=-eq-ok, require-eq-ok, if◌then◌else◌, starts_with,
}
use sinterdb.Protocol.Document.{Value, Items, Fields, array, document, nil, cons, end, field}
use sinterdb.Protocol.Encoder.{encode_document_value}
use sinterdb.Storage.Errors.{Thrown, storage, protocol, invalid_filter, encoded}
use sinterdb.Storage.IndexSpec.{split}
use sinterdb.Storage.Predicate.{CompiledFilter, every, any, dollar, resolve_field}
use sinterdb.Storage.Filter.{
  Logical, logical_of, conjunction, disjunction, joint_denial, compile_field,
  matches_compiled_filter, Clauses, Clause, on_field, on_document, add_clause, matches_clauses,
  combine, all_plain, is_empty_array, compile_logical_operator, collect_clauses, compile_operands,
  compile_each, compile_clauses, as_invalid_filter, compile_filter,
}
use sinterdb.Storage.Filter.Meaning.{
  Chosen, FieldHolds, Matches, LogicHolds, AllMatch, SomeMatches, DocumentMatches,
}
use sinterdb.Storage.Filter.Named.{LogicalHolds, LogicalHolds-key}
use sinterdb.Storage.Filter.Decide.{
  Decided, Decides, Decided-negated, every-nil, every-cons, any-nil, any-cons,
}
use sinterdb.Storage.Filter.ClauseMeaning.{ClauseDecides, add_clause-Decides, field-ClauseDecides}

abbrev AllOf : Value → Fields → Type 0
AllOf (array vs) doc = AllMatch vs doc
AllOf _ doc = ⊥

abbrev SomeOf : Value → Fields → Type 0
SomeOf (array vs) doc = SomeMatches vs doc
SomeOf _ doc = ⊥

abbrev OperandsDecide : List CompiledFilter → (Fields → Type 0) → (Fields → Type 0) → Type 0
OperandsDecide clauses S T = Decides (every clauses) S × Decides (any clauses) T

combined :
    (name : Logical) (vs : Items) (clauses : List CompiledFilter)
    → OperandsDecide clauses (AllMatch vs) (SomeMatches vs)
    → Decides (combine name clauses) (LogicalHolds (some name) (array vs))
unfolding combine
combined conjunction vs clauses (all, any_of) doc b h = all doc b h
combined disjunction vs clauses (all, any_of) doc b h = any_of doc b h
combined joint_denial vs clauses (all, any_of) doc b h =
    Decided-negated (SomeMatches vs doc) (any clauses doc) (any_of doc) b h

logical-ClauseDecides :
    (o : Option Logical) (v : Value) (clause : Clause)
    → ((clauses : List CompiledFilter)
        → compile_operands v ≡ ok clauses
        → OperandsDecide clauses (AllOf v) (SomeOf v))
    → compile_logical_operator o (compile_operands v) ≡ ok clause
    → ClauseDecides clause (LogicalHolds o v)
unfolding compile_operands
logical-ClauseDecides none v clause operands h = cc
logical-ClauseDecides (some name) (array vs) clause operands h =
    let (clauses, h1, h2) =
      >>=-eq-ok (compile_operands (array vs)) (λ clauses. ok (on_document (combine name clauses)))
        h in
    let e : on_document (combine name clauses) ≡ clause = cc in
    subst (λ c. ClauseDecides c (LogicalHolds (some name) (array vs))) e
      (combined name vs clauses (operands clauses h1))
logical-ClauseDecides (some name) _ clause operands h = cc

nothing_asked : Decides (matches_clauses (record { fields = []; logical = [] })) (λ doc. Unit)
unfolding matches_clauses matches_compiled_filter every
nothing_asked doc true h = tt
nothing_asked doc false h = cc

clause-Decides :
    (key : Str) (v : Value) (clause : Clause) (b : Bool)
    → ((clauses : List CompiledFilter)
        → compile_operands v ≡ ok clauses
        → OperandsDecide clauses (AllOf v) (SomeOf v))
    → (if b
        then compile_logical_operator (logical_of key) (compile_operands v)
        else (compile_field key v >>= λ compiled. ok (on_field compiled)))
      ≡ ok clause
    → ClauseDecides clause
        (λ doc. Chosen b (LogicHolds key v doc) (FieldHolds v (resolve_field doc (split key))))
clause-Decides key v clause true operands h =
    subst (ClauseDecides clause) (fun_ext (LogicalHolds-key key v))
      (logical-ClauseDecides (logical_of key) v clause operands h)
clause-Decides key v clause false operands h = field-ClauseDecides key v clause h

mutual
  unfolding collect_clauses compile_operands compile_each compile_clauses Matches AllMatch
      SomeMatches DocumentMatches matches_clauses matches_compiled_filter every any

  collect-Decides :
      (fs : Fields) (cs : Clauses)
      → collect_clauses fs ≡ ok cs
      → Decides (matches_clauses cs) (Matches fs)
  collect-Decides end cs h =
      let e : ◌≡◌ {A = Clauses} (record { fields = []; logical = [] }) cs = cc in
      subst (λ c. Decides (matches_clauses c) (λ doc. Unit)) e nothing_asked
  collect-Decides (field key v rest) cs h =
      let (clause, h1, h2) =
        >>=-eq-ok
          (if starts_with dollar key
            then compile_logical_operator (logical_of key) (compile_operands v)
            else (compile_field key v >>= λ compiled. ok (on_field compiled)))
          (λ clause. collect_clauses rest >>= λ others. ok (add_clause clause others)) h in
      let (others, h3, h4) =
        >>=-eq-ok (collect_clauses rest) (λ others. ok (add_clause clause others)) h2 in
      let e : add_clause clause others ≡ cs = cc in
      subst (λ c. Decides (matches_clauses c) (Matches (field key v rest))) e
        (add_clause-Decides clause others
          (λ doc.
            Chosen (starts_with dollar key) (LogicHolds key v doc)
              (FieldHolds v (resolve_field doc (split key))))
          (Matches rest)
          (clause-Decides key v clause (starts_with dollar key) (operands-Decide v) h1)
          (collect-Decides rest others h3))

  operands-Decide :
      (v : Value) (clauses : List CompiledFilter)
      → compile_operands v ≡ ok clauses
      → OperandsDecide clauses (AllOf v) (SomeOf v)
  operands-Decide (array vs) clauses h =
      each-Decide vs clauses
        (require-eq-ok (not (is_empty_array vs) && all_plain vs) (storage invalid_filter)
          (compile_each vs) h).1
  operands-Decide _ clauses h = cc

  each-Decide :
      (vs : Items) (clauses : List CompiledFilter)
      → compile_each vs ≡ ok clauses
      → OperandsDecide clauses (AllMatch vs) (SomeMatches vs)
  each-Decide nil clauses h =
      let e : [] ≡ clauses = cc in
      subst (λ l. OperandsDecide l (λ doc. Unit) (λ doc. ⊥)) e (every-nil, any-nil)
  each-Decide (cons v vs) clauses h =
      let (compiled, h1, h2) =
        >>=-eq-ok (compile_clauses v) (λ c. compile_each vs >>= λ others. ok (c ∷ others)) h in
      let (others, h3, h4) = >>=-eq-ok (compile_each vs) (λ others. ok (compiled ∷ others)) h2 in
      let e : compiled ∷ others ≡ clauses = cc in
      let own = document-Decides v compiled h1 in
      let (all, any_of) = each-Decide vs others h3 in
      subst (λ l. OperandsDecide l (AllMatch (cons v vs)) (SomeMatches (cons v vs))) e
        (
          every-cons compiled others (DocumentMatches v) (AllMatch vs) own all,
          any-cons compiled others (DocumentMatches v) (SomeMatches vs) own any_of,
        )

  document-Decides :
      (v : Value) (filter : CompiledFilter)
      → compile_clauses v ≡ ok filter
      → Decides filter (DocumentMatches v)
  document-Decides (document fs) filter h =
      let (cs, h1, h2) = >>=-eq-ok (collect_clauses fs) (λ cs. ok (matches_clauses cs)) h in
      let e : matches_clauses cs ≡ filter = cc in
      subst (λ f. Decides f (Matches fs)) e (collect-Decides fs cs h1)
  document-Decides _ filter h = cc

as_invalid_filter-eq-ok {ℓ} :
    {A : Type ℓ} (r : Result Thrown A) {a : A} → as_invalid_filter r ≡ ok a → r ≡ ok a
as_invalid_filter-eq-ok (ok a) h = cc
as_invalid_filter-eq-ok (err (storage e)) h = cc
as_invalid_filter-eq-ok (err (protocol e)) h = cc

pub compile_filter-clauses :
    (filter : Fields) (matches : CompiledFilter)
    → compile_filter (document filter) ≡ ok matches
    → (clauses : Clauses) × (collect_clauses filter ≡ ok clauses)
      × (matches_clauses clauses ≡ matches)
unfolding compile_filter compile_clauses
compile_filter-clauses filter matches h =
    let (bytes, h1, h2) =
      >>=-eq-ok (encoded (encode_document_value (document filter)))
        (λ bytes. compile_clauses (document filter)) (as_invalid_filter-eq-ok _ h) in
    let (clauses, h3, h4) =
      >>=-eq-ok (collect_clauses filter) (λ clauses. ok (matches_clauses clauses)) h2 in
    (clauses, h3, cc)

-- Where a compiled filter returns, it returns true exactly for a document that the filter means.
pub compile_filter-Matches :
    (filter doc : Fields) (matches : CompiledFilter) (b : Bool)
    → compile_filter (document filter) ≡ ok matches
    → matches doc ≡ ok b
    → (b ≡ true) ↔ Matches filter doc
compile_filter-Matches filter doc matches b hf h =
    let (clauses, hc, is_matches) = compile_filter-clauses filter matches hf in
    answered b
      (collect-Decides filter clauses hc doc b (ap (λ (f : CompiledFilter). f doc) is_matches ∙ h))
  where
    answered : (b : Bool) → Decided b (Matches filter doc) → (b ≡ true) ↔ Matches filter doc
    answered true s = (λ e. s, λ s. refl)
    answered false n = (λ e. cc, λ s. absurd (n s))
