-- ===== src/Storage/Update/Outcome.antt =====
-- What a compiled update of packages/storage/src/update.ts makes of a document.
use mathlib.Core.Path.{subst}
use sinterdb.Prelude.{
  ◌≡◌, refl, sym, ap, ◌∙◌, false, Option, none, some, inl, inr, List, [], ◌∷◌, ◌++◌, Str, units, ok,
  ◌>>=◌, >>=-eq-ok, All,
}
use sinterdb.Protocol.Document.{Value, Fields, get}
use sinterdb.Storage.Predicate.{ResolvedField, found, missing, resolve_field, resolve_value}
use sinterdb.Storage.Update.{
  UpdateOperator, unset, pull, Instruction, CompiledUpdate, overlaps, at_parent, creates,
  apply_operator, apply_instruction, apply_all, parse_update, compile_update,
}
use sinterdb.Storage.Update.Frame.{
  IsLocal, at_parent-cases, at_parent-frame, resolve_field-cons, resolve_option,
  resolve_field-set_field,
}
use sinterdb.Storage.Update.Paths.{AllApart, conflicts-AllApart, parse_update-AllParsed, IsParsed}
use sinterdb.Storage.Update.Effect.{outcome, apply_operator-Does}

-- The value of a field, if it is there.
abbrev pub value_at : List Str → Fields → Option Value
value_at segments doc = elim (resolve_field doc segments) [ found v ↦ some v | missing ↦ none ]

value_at-single : (key : Str) (fs : Fields) → value_at (key ∷ []) fs ≡ get key fs
unfolding resolve_value
value_at-single key fs =
    ap (λ (r : ResolvedField). elim r [ found v ↦ some v | missing ↦ none ])
      (resolve_field-cons fs key [])
    ∙ by_value (get key fs)
  where
    by_value :
        (o : Option Value) → (elim (resolve_option o []) [ found v ↦ some v | missing ↦ none ]) ≡ o
    by_value none = refl
    by_value (some v) = refl

nothing_created :
    (operator : UpdateOperator) (operand : Value)
    → creates operator ≡ false
    → outcome operator operand none ≡ ok none
nothing_created unset operand h = refl
nothing_created pull operand h = refl
nothing_created _ operand h = cc

module _ (operator : UpdateOperator) (operand : Value) where
  pub operator-IsLocal : IsLocal (apply_operator operator operand)
  operator-IsLocal key q fs fs' h other =
      let (o, made, puts) = apply_operator-Does operator operand key fs fs' h in
      puts.elsewhere q other

  pub at_parent-outcome :
      (q : Str) (ps : List Str) (fs fs' : Fields)
      → at_parent (creates operator) (apply_operator operator operand) (q ∷ ps) fs ≡ ok fs'
      → outcome operator operand (value_at (q ∷ ps) fs) ≡ ok (value_at (q ∷ ps) fs')
  unfolding at_parent
  at_parent-outcome key [] fs fs' h =
      let (o, made, puts) = apply_operator-Does operator operand key fs fs' h in
      ap (outcome operator operand) (value_at-single key fs)
      ∙ made
      ∙ ap ok (sym puts.at_key ∙ sym (value_at-single key fs'))
  at_parent-outcome s (n ∷ r) fs fs' h =
      elim (at_parent-cases (creates operator) (apply_operator operator operand) s n r fs fs' h) [
        | inl d ↦
            ap (λ x. outcome operator operand (elim x [ found v ↦ some v | missing ↦ none ]))
              (d.within n r)
            ∙ at_parent-outcome n r d.inner d.changed d.walked
            ∙ ap (λ (x : ResolvedField). ok (elim x [ found v ↦ some v | missing ↦ none ]))
                (sym (
                  ap (λ x. resolve_field x (s ∷ n ∷ r)) d.is_set
                  ∙ resolve_field-set_field fs d.changed s n r))
        | inr e ↦
            ap (λ x. outcome operator operand (elim x [ found v ↦ some v | missing ↦ none ]))
              (e.nothing n r)
            ∙ nothing_created operator operand e.not_created
            ∙ ap (λ (x : ResolvedField). ok (elim x [ found v ↦ some v | missing ↦ none ]))
                (sym (ap (λ x. resolve_field x (s ∷ n ∷ r)) (sym e.unchanged) ∙ e.nothing n r))
      ]

apply_instruction-frame :
    (i : Instruction) (p : List Str) (doc doc' : Fields)
    → overlaps i.segments p ≡ false
    → apply_instruction i doc ≡ ok doc'
    → resolve_field doc' p ≡ resolve_field doc p
unfolding apply_instruction
apply_instruction-frame i p doc doc' apart h =
    at_parent-frame (creates i.operator) (apply_operator i.operator i.operand)
      (operator-IsLocal i.operator i.operand) i.segments p doc doc' apart h

apply_all-frame :
    (instructions : List Instruction) (p : List Str) (doc doc' : Fields)
    → AllApart p instructions
    → apply_all instructions doc ≡ ok doc'
    → resolve_field doc' p ≡ resolve_field doc p
unfolding apply_all
apply_all-frame [] p doc doc' apart h =
    let e : doc ≡ doc' = cc in ap (λ x. resolve_field x p) (sym e)
apply_all-frame (i ∷ instructions) p doc doc' apart h =
    let (changed, h1, h2) = >>=-eq-ok (apply_instruction i doc) (apply_all instructions) h in
    apply_all-frame instructions p changed doc' apart.1 h2
    ∙ apply_instruction-frame i p doc changed apart.0 h1

apply_instruction-outcome :
    (i : Instruction) (doc doc' : Fields)
    → IsParsed i.segments
    → apply_instruction i doc ≡ ok doc'
    → outcome i.operator i.operand (value_at i.segments doc) ≡ ok (value_at i.segments doc')
unfolding apply_instruction
apply_instruction-outcome i doc doc' (s, ss, e, first) h =
    subst (λ l. outcome i.operator i.operand (value_at l doc) ≡ ok (value_at l doc')) (sym e)
      (at_parent-outcome i.operator i.operand s ss doc doc' (
        subst
          (λ l.
            at_parent (creates i.operator) (apply_operator i.operator i.operand) l doc ≡ ok doc')
          e h))

apply_all-outcome :
    (xs ys : List Instruction) (i : Instruction) (doc doc' : Fields)
    → AllApart i.segments xs
    → AllApart i.segments ys
    → IsParsed i.segments
    → apply_all (xs ++ i ∷ ys) doc ≡ ok doc'
    → outcome i.operator i.operand (value_at i.segments doc) ≡ ok (value_at i.segments doc')
unfolding apply_all
apply_all-outcome [] ys i doc doc' before behind parsed h =
    let (changed, h1, h2) = >>=-eq-ok (apply_instruction i doc) (apply_all ys) h in
    apply_instruction-outcome i doc changed parsed h1
    ∙ ap (λ (r : ResolvedField). ok (elim r [ found v ↦ some v | missing ↦ none ]))
        (sym (apply_all-frame ys i.segments changed doc' behind h2))
apply_all-outcome (x ∷ xs) ys i doc doc' before behind parsed h =
    let (changed, h1, h2) = >>=-eq-ok (apply_instruction x doc) (apply_all (xs ++ i ∷ ys)) h in
    ap
      (λ (r : ResolvedField).
        outcome i.operator i.operand (elim r [ found v ↦ some v | missing ↦ none ]))
      (sym (apply_instruction-frame x i.segments doc changed before.0 h1))
    ∙ apply_all-outcome xs ys i changed doc' before.1 behind parsed h2

compiled_applies :
    (update : Value) (instructions : List Instruction) (apply : CompiledUpdate)
    → parse_update update ≡ ok instructions
    → compile_update update ≡ ok apply
    → apply_all instructions ≡ apply
unfolding compile_update
compiled_applies update instructions apply hp h =
    let e : ok (apply_all instructions) ≡ ok apply =
      sym (ap (λ r. r >>= λ is. ok (apply_all is)) hp) ∙ h in
    cc

IsParsed-at :
    (xs ys : List Instruction) (i : Instruction)
    → All (λ (x : Instruction). IsParsed x.segments) (xs ++ i ∷ ys)
    → IsParsed i.segments
IsParsed-at [] ys i all = all.0
IsParsed-at (x ∷ xs) ys i all = IsParsed-at xs ys i all.1

-- Where a compiled update returns, each of its instructions' fields has the value that the operator makes of the
-- field's value before the update, whatever else the update does and in whatever order.
pub parsed_update-outcome :
    (update : Value) (xs ys : List Instruction) (i : Instruction) (apply : CompiledUpdate)
    (doc doc' : Fields)
    → parse_update update ≡ ok (xs ++ i ∷ ys)
    → compile_update update ≡ ok apply
    → apply doc ≡ ok doc'
    → outcome i.operator i.operand (value_at i.segments doc) ≡ ok (value_at i.segments doc')
parsed_update-outcome update xs ys i apply doc doc' hp hc h =
    let (parsed, apart) = parse_update-AllParsed update (xs ++ i ∷ ys) hp in
    let (before, behind) = conflicts-AllApart xs ys i apart in
    apply_all-outcome xs ys i doc doc' before behind (IsParsed-at xs ys i parsed)
      (ap (λ (f : CompiledUpdate). f doc) (compiled_applies update (xs ++ i ∷ ys) apply hp hc) ∙ h)

-- Where a compiled update returns, a path that overlaps none of its paths leads to what it led to before.
pub compile_update-frame :
    (update : Value) (instructions : List Instruction) (apply : CompiledUpdate) (p : List Str)
    (doc doc' : Fields)
    → parse_update update ≡ ok instructions
    → compile_update update ≡ ok apply
    → AllApart p instructions
    → apply doc ≡ ok doc'
    → resolve_field doc' p ≡ resolve_field doc p
compile_update-frame update instructions apply p doc doc' hp hc apart h =
    apply_all-frame instructions p doc doc' apart
      (ap (λ (f : CompiledUpdate). f doc) (compiled_applies update instructions apply hp hc) ∙ h)

abbrev id_path : List Str
id_path = units "_id" ∷ []

AllParsed-AllApart :
    (instructions : List Instruction)
    → All (λ (x : Instruction). IsParsed x.segments) instructions
    → AllApart id_path instructions
unfolding overlaps
AllParsed-AllApart [] all = tt
AllParsed-AllApart (i ∷ instructions) all =
    let (s, ss, e, first) = all.0 in
    (ap (λ l. overlaps l id_path) e ∙ rw first refl, AllParsed-AllApart instructions all.1)

-- Where a compiled update returns, the document has the _id that it had, or still has none.
pub compile_update-id :
    (update : Value) (apply : CompiledUpdate) (doc doc' : Fields)
    → compile_update update ≡ ok apply
    → apply doc ≡ ok doc'
    → get (units "_id") doc' ≡ get (units "_id") doc
unfolding compile_update
compile_update-id update apply doc doc' hc h =
    let (instructions, hp, h1) = >>=-eq-ok (parse_update update) (λ is. ok (apply_all is)) hc in
    let (parsed, apart) = parse_update-AllParsed update instructions hp in
    sym (value_at-single (units "_id") doc')
    ∙ ap (λ (r : ResolvedField). elim r [ found v ↦ some v | missing ↦ none ])
        (compile_update-frame update instructions apply id_path doc doc' hp hc
          (AllParsed-AllApart instructions parsed) h)
    ∙ value_at-single (units "_id") doc
