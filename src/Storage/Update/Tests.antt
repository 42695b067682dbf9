-- ===== src/Storage/Update/Tests.antt =====
-- packages/storage/src/update.ts on concrete documents.
use sinterdb.Prelude.{◌≡◌, refl, [], ◌∷◌, units, str_eq, ok}
use sinterdb.Prelude.Int.{pos, ◌+ℤ◌}
use sinterdb.Protocol.Document.{Value, Fields, bigint, str, null, document, end, field, get}
use sinterdb.Protocol.Number.{is_nan, is_finite}
use sinterdb.Storage.IndexSpec.{split, are_segments, is_segment}
use sinterdb.Storage.Compare.{scaled}
use sinterdb.Storage.Predicate.{resolve_field, found, has_operator}
use sinterdb.Storage.Update.{
  Instruction, assign, inc, compile_update, parse_update, parse_operators, parse_operator,
  parse_operands, parse_path, validate_operand, update_operator_of, conflicts, overlaps_some,
  overlaps, apply_all, apply_instruction, at_parent, apply_operator, apply_inc, incremented,
  set_field, extract_equality, seed_document_from_filter, seed_fields, overlaps_assigned,
}
use sinterdb.Storage.Update.Double.{add_numbers, rounded, nearest, excess, shifted}
use sinterdb.Storage.Update.Meaning.{Effect}
use sinterdb.Storage.Update.Asked.{compile_update-outcome}
use sinterdb.Storage.Update.Outcome.{value_at, compile_update-frame, compile_update-id}
use sinterdb.Storage.Update.Seed.{plain, seed_document_from_filter-found}

-- 0.1 + 0.2 is not 0.3, and the largest double doubled is infinite.
sum_rounds : add_numbers 0x3fb999999999999a 0x3fc999999999999a ≡ 0x3fd3333333333334
unfolding add_numbers rounded nearest excess shifted is_nan is_finite scaled ◌+ℤ◌
sum_rounds = refl

sum_overflows : add_numbers 0x7fefffffffffffff 0x7fefffffffffffff ≡ 0x7ff0000000000000
unfolding add_numbers rounded nearest excess shifted is_nan is_finite scaled ◌+ℤ◌
sum_overflows = refl

sum_cancels : add_numbers 0xbff0000000000000 0x3ff0000000000000 ≡ 0
unfolding add_numbers rounded nearest excess shifted is_nan is_finite scaled ◌+ℤ◌
sum_cancels = refl

abbrev updates : Fields
updates =
    field (units "$inc") (document (field (units "n") (bigint (pos 2)) end))
      (field (units "$set") (document (field (units "a.b") (str (units "x")) end)) end)

abbrev update : Value
update = document updates

abbrev before : Fields
before = field (units "_id") null (field (units "n") (bigint (pos 1)) end)

abbrev after : Fields
after = field (units "_id") null (
    field (units "n") (bigint (pos 3))
      (field (units "a") (document (field (units "b") (str (units "x")) end)) end))

abbrev first : Instruction
first = record { operator = inc; segments = units "n" ∷ []; operand = bigint (pos 2) }

abbrev second : Instruction
second = record {
  operator = assign;
  segments = units "a" ∷ units "b" ∷ [];
  operand = str (units "x");
}

parsed : parse_update update ≡ ok (first ∷ second ∷ [])
unfolding parse_update parse_operators parse_operator parse_operands parse_path validate_operand
    update_operator_of conflicts overlaps_some overlaps split are_segments is_segment str_eq
parsed = refl

compiled : compile_update update ≡ ok (apply_all (first ∷ second ∷ []))
unfolding compile_update parse_update parse_operators parse_operator parse_operands parse_path
    validate_operand update_operator_of conflicts overlaps_some overlaps split are_segments
    is_segment str_eq
compiled = refl

applied : apply_all (first ∷ second ∷ []) before ≡ ok after
unfolding apply_all apply_instruction at_parent apply_operator apply_inc incremented set_field get
    str_eq ◌+ℤ◌
applied = refl

compile_update-outcome_example :
    Effect
      (units "$inc")
      (bigint (pos 2))
      (value_at (split (units "n")) before)
      (value_at (split (units "n")) after)
unfolding get str_eq
compile_update-outcome_example =
    compile_update-outcome updates (units "$inc") (field (units "n") (bigint (pos 2)) end)
      (units "n") (bigint (pos 2)) (apply_all (first ∷ second ∷ [])) before after refl refl compiled
      applied

compile_update-frame_example :
    resolve_field after (units "a" ∷ units "c" ∷ [])
    ≡ resolve_field before (units "a" ∷ units "c" ∷ [])
unfolding overlaps str_eq
compile_update-frame_example =
    compile_update-frame update (first ∷ second ∷ []) (apply_all (first ∷ second ∷ []))
      (units "a" ∷ units "c" ∷ []) before after parsed compiled (refl, (refl, tt)) applied

compile_update-id_example : get (units "_id") after ≡ get (units "_id") before
compile_update-id_example =
    compile_update-id update (apply_all (first ∷ second ∷ [])) before after compiled applied

abbrev filter : Fields
filter =
    field (units "a.b") (str (units "x"))
      (field (units "n") (document (field (units "$gt") (bigint (pos 1)) end)) end)

abbrev seed : Fields
seed = field (units "a") (document (field (units "b") (str (units "x")) end)) end

seeded : seed_document_from_filter filter ≡ ok seed
unfolding seed_document_from_filter seed_fields extract_equality has_operator split are_segments
    is_segment overlaps_assigned at_parent set_field get str_eq
seeded = refl

seed_document_from_filter-found_example :
    resolve_field seed (split (units "a.b")) ≡ found (str (units "x"))
unfolding get str_eq
seed_document_from_filter-found_example =
    seed_document_from_filter-found filter seed (units "a.b") (str (units "x")) (str (units "x"))
      seeded refl refl (plain (str (units "x")) tt)
