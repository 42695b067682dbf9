-- ===== src/Storage/Update/Asked.antt =====
-- What an update document of packages/storage/src/update.ts asks for, field by field, from the document
-- itself.
use mathlib.Core.Path.{subst}
use sinterdb.Prelude.{
  ◌≡◌, refl, sym, ap, ◌∙◌, Bool-cases, inl, inr, not, Option, none, some, List, [], ◌∷◌, ◌++◌,
  append_assoc, Str, str_eq, str_eq→≡, ok, >>=-eq-ok, require-eq-ok,
}
use sinterdb.Protocol.Document.{Value, Fields, document, end, field, get}
use sinterdb.Storage.IndexSpec.{split, are_segments}
use sinterdb.Storage.Update.{
  UpdateOperator, update_operator_of, inc, minimum, maximum, Instruction, CompiledUpdate,
  first_is_id, parse_path, is_number_operand, is_scalar, validate_operand, parse_operands, is_empty,
  parse_operator, parse_operators, conflicts, parse_update, compile_update,
}
use sinterdb.Storage.Update.Meaning.{Effect}
use sinterdb.Storage.Update.Named.{Does, Does-name, outcome-Does}
use sinterdb.Storage.Update.Outcome.{value_at, parsed_update-outcome}

-- The instruction stands in the list.
abbrev Stands : Instruction → List Instruction → Type 0
Stands i is = (xs : List Instruction) × (ys : List Instruction) × (is ≡ xs ++ i ∷ ys)

Stands-left :
    (i : Instruction) (is others : List Instruction) → Stands i is → Stands i (is ++ others)
Stands-left i is others (xs, ys, e) =
    (xs, ys ++ others, ap (◌++ others) e ∙ append_assoc xs (i ∷ ys) others)

Stands-right :
    (i : Instruction) (is others : List Instruction) → Stands i others → Stands i (is ++ others)
Stands-right i is others (xs, ys, e) =
    (is ++ xs, ys, ap (is ++◌) e ∙ sym (append_assoc is xs (i ∷ ys)))

abbrev asked : UpdateOperator → Str → Value → Instruction
asked operator path operand = record {
  operator = operator;
  segments = split path;
  operand = operand;
}

parse_path-split :
    (path : Str) (segments : List Str) → parse_path path ≡ ok segments → segments ≡ split path
unfolding parse_path
parse_path-split path segments h =
    let (valid, h1) = require-eq-ok (are_segments (split path)) _ _ h in
    let (mutable, h2) = require-eq-ok (not (first_is_id (split path))) _ _ h1 in cc

validate_operand_self :
    (operator : UpdateOperator) (operand validated : Value)
    → validate_operand operator operand ≡ ok validated
    → validated ≡ operand
unfolding validate_operand
validate_operand_self inc operand validated h =
    let (valid, h1) = require-eq-ok (is_number_operand operand) _ _ h in cc
validate_operand_self minimum operand validated h =
    let (valid, h1) = require-eq-ok (is_scalar operand) _ _ h in cc
validate_operand_self maximum operand validated h =
    let (valid, h1) = require-eq-ok (is_scalar operand) _ _ h in cc
validate_operand_self _ operand validated h = cc

parse_operands-Stands :
    (operator : UpdateOperator) (operands : Fields) (path : Str) (operand : Value)
    (is : List Instruction)
    → get path operands ≡ some operand
    → parse_operands operator operands ≡ ok is
    → Stands (asked operator path operand) is
unfolding parse_operands get
parse_operands-Stands operator end path operand is has h = cc
parse_operands-Stands operator (field p v rest) path operand is has h =
    let (segments, h1, h2) = >>=-eq-ok (parse_path p) _ h in
    let (validated, h3, h4) = >>=-eq-ok (validate_operand operator v) _ h2 in
    let (others, h5, h6) = >>=-eq-ok (parse_operands operator rest) _ h4 in
    let made : Instruction = record {
      operator = operator;
      segments = segments;
      operand = validated;
    } in
    let e : made ∷ others ≡ is = cc in
    elim (Bool-cases (str_eq p path)) [
      | inl same_path ↦
          let has' : some v ≡ some operand = rw same_path at has in
          let same_value : v ≡ operand = cc in
          let is_operand = validate_operand_self operator v validated h3 ∙ same_value in
          let is_split = parse_path-split p segments h1 ∙ ap split (str_eq→≡ p path same_path) in
          (
            [],
            others,
            sym e
                ∙ ap (◌∷ others) (
                    ap (λ l. record { operator = operator; segments = l; operand = validated })
                      is_split
                    ∙ ap (asked operator path) is_operand),
          )
      | inr other ↦ subst (Stands (asked operator path operand)) e (
          Stands-right (asked operator path operand) (made ∷ []) others
            (parse_operands-Stands operator rest path operand others (rw other at has) h5))
    ]

parse_operator-Stands :
    (o : Option UpdateOperator) (operands : Fields) (path : Str) (operand : Value)
    (is : List Instruction)
    → get path operands ≡ some operand
    → parse_operator o (document operands) ≡ ok is
    → (operator : UpdateOperator) × (o ≡ some operator) × Stands (asked operator path operand) is
unfolding parse_operator
parse_operator-Stands none operands path operand is has h = cc
parse_operator-Stands (some operator) operands path operand is has h = (
  operator,
  refl,
  parse_operands-Stands operator operands path operand is has
      (require-eq-ok (not (is_empty operands)) _ _ h).1,
)

parse_operators-Stands :
    (fs : Fields) (name : Str) (operands : Fields) (path : Str) (operand : Value)
    (is : List Instruction)
    → get name fs ≡ some (document operands)
    → get path operands ≡ some operand
    → parse_operators fs ≡ ok is
    → (operator : UpdateOperator) × (update_operator_of name ≡ some operator)
      × Stands (asked operator path operand) is
unfolding parse_operators get
parse_operators-Stands end name operands path operand is asks has h = cc
parse_operators-Stands (field n v rest) name operands path operand is asks has h =
    let (own, h1, h2) = >>=-eq-ok (parse_operator (update_operator_of n) v) _ h in
    let (others, h3, h4) = >>=-eq-ok (parse_operators rest) _ h2 in
    let e : own ++ others ≡ is = cc in
    elim (Bool-cases (str_eq n name)) [
      | inl same_name ↦
          let asks' : some v ≡ some (document operands) = rw same_name at asks in
          let same_value : v ≡ document operands = cc in
          let (operator, found_operator, stands) =
            parse_operator-Stands (update_operator_of n) operands path operand own has
              (ap (parse_operator (update_operator_of n)) (sym same_value) ∙ h1) in
          (
            operator,
            ap update_operator_of (sym (str_eq→≡ n name same_name)) ∙ found_operator,
            subst (Stands (asked operator path operand)) e
                (Stands-left (asked operator path operand) own others stands),
          )
      | inr other ↦
          let (operator, found_operator, stands) =
            parse_operators-Stands rest name operands path operand others (rw other at asks) has
              h3 in
          (
            operator,
            found_operator,
            subst (Stands (asked operator path operand)) e
                (Stands-right (asked operator path operand) own others stands),
          )
    ]

-- Where a compiled update returns, each path that the update document has under an operator's name has
-- the value that the name means for the operand and the path's value before the update, whatever else
-- the update does and in whatever order.
pub compile_update-outcome :
    (update : Fields) (name : Str) (operands : Fields) (path : Str) (operand : Value)
    (apply : CompiledUpdate) (doc doc' : Fields)
    → get name update ≡ some (document operands)
    → get path operands ≡ some operand
    → compile_update (document update) ≡ ok apply
    → apply doc ≡ ok doc'
    → Effect name operand (value_at (split path) doc) (value_at (split path) doc')
unfolding compile_update parse_update
compile_update-outcome update name operands path operand apply doc doc' asks has hc h =
    let (is, hp, h1) = >>=-eq-ok (parse_update (document update)) _ hc in
    let (filled, h2) = require-eq-ok (not (is_empty update)) _ _ hp in
    let (parsed, h3, h4) = >>=-eq-ok (parse_operators update) _ h2 in
    let (apart, h5) = require-eq-ok (not (conflicts parsed)) _ _ h4 in
    let same_list : parsed ≡ is = cc in
    let (operator, is_operator, (xs, ys, e)) =
      parse_operators-Stands update name operands path operand parsed asks has h3 in
    let does : Does (some operator) operand (value_at (split path) doc)
        (value_at (split path) doc') =
      outcome-Does operator operand (value_at (split path) doc) (value_at (split path) doc') (
        parsed_update-outcome (document update) xs ys (asked operator path operand) apply doc doc'
          (hp ∙ ap ok (sym same_list ∙ e)) hc h) in
    subst (λ (t : Type 0). t)
      (Does-name operand (value_at (split path) doc) (value_at (split path) doc') name)
      (subst (λ o. Does o operand (value_at (split path) doc) (value_at (split path) doc'))
        (sym is_operator) does)
