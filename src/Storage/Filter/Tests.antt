-- ===== src/Storage/Filter/Tests.antt =====
-- A compiled filter of packages/storage/src/filter.ts on concrete documents.
use sinterdb.Prelude.{
  ◌≡◌, ◌↔◌, refl, Bool, true, false, none, some, List, [], ◌∷◌, Bytes, Str, units, ok, str_eq,
  arith, if◌then◌else◌,
}
use sinterdb.Protocol.Document.{Fields, str, document, field, end, get, fields_length}
use sinterdb.Protocol.Encoder.{encode_document_value, compare_bytes}
use sinterdb.Protocol.Canonical.{canonical, plain, prefixed, insert_field}
use sinterdb.Protocol.BigEndian.{be_bytes}
use sinterdb.Protocol.Canonical.Accepts.{encode_iff}
use sinterdb.Protocol.Utf8.{
  utf8_encode, is_well_formed, encode_points, encode_point, code_points, no_surrogate,
}
use sinterdb.Storage.Predicate.{
  missing, resolve_field, resolve_value, CompiledFilter, gte, compared, resolve_field,
  resolve_value, has_operator, has_literal, is_operator_document, is_comparable_value,
}
use sinterdb.Storage.Filter.{
  compile_filter, matches_clauses, compile_clauses, collect_clauses, compile_field,
  compile_predicates, compile_operator_document, compile_operators, compile_operator, operator_of,
  compile_field_path, are_path_segments, is_path_segment,
}
use sinterdb.Storage.IndexSpec.{split}
use sinterdb.Storage.Filter.Meaning.{Matches}
use sinterdb.Storage.Filter.Returns.{AllEncodable, IsEncodable}
use sinterdb.Storage.Filter.Total.{compile_filter-decides}

abbrev pub filter : Fields
filter = field (units "a") (document (field (units "$gte") (str (units "y")) end)) end

abbrev filter_bytes : Bytes
filter_bytes =
    0x0b ∷ 0 ∷ 0 ∷ 0 ∷ 1 ∷ 0 ∷ 0 ∷ 0 ∷ 1 ∷ 0x61 ∷ 0x0b ∷ 0 ∷ 0 ∷ 0 ∷ 1 ∷ 0 ∷ 0 ∷ 0 ∷ 4 ∷ 0x24 ∷ 0x67
    ∷ 0x74 ∷ 0x65 ∷ 7 ∷ 0 ∷ 0 ∷ 0 ∷ 1 ∷ 0x79 ∷ []

filter-encoded : encode_document_value (document filter) ≡ ok filter_bytes
unfolding plain prefixed be_bytes utf8_encode encode_points encode_point code_points no_surrogate
    is_well_formed canonical insert_field compare_bytes fields_length
filter-encoded =
    (encode_iff (document filter) filter_bytes).1
      ((omega arith, (refl, (omega arith, (refl, (omega arith, refl), tt)), tt)), omega arith, refl)

abbrev pub matches : CompiledFilter
matches = matches_clauses (record {
  fields =
      record { segments = units "a" ∷ []; predicates = compared gte (str (units "y")) ∷ [] } ∷ [];
  logical = [];
})

pub filter-compiled : compile_filter (document filter) ≡ ok matches
unfolding compile_filter compile_clauses collect_clauses compile_field compile_predicates
    compile_operator_document compile_operators compile_operator operator_of str_eq has_operator
    has_literal is_operator_document compile_field_path are_path_segments is_path_segment split
    is_comparable_value
filter-compiled = rw filter-encoded refl

abbrev greater_doc : Fields
greater_doc = field (units "a") (str (units "z")) end

key_z : encode_document_value (str (units "z")) ≡ ok (7 ∷ 0 ∷ 0 ∷ 0 ∷ 1 ∷ 0x7a ∷ [])
unfolding plain prefixed be_bytes utf8_encode encode_points encode_point code_points no_surrogate
    is_well_formed canonical
key_z =
    (encode_iff (str (units "z")) (7 ∷ 0 ∷ 0 ∷ 0 ∷ 1 ∷ 0x7a ∷ [])).1
      ((omega arith, refl), omega arith, refl)

greater_doc-AllEncodable : AllEncodable greater_doc
unfolding resolve_field resolve_value get
greater_doc-AllEncodable [] = tt
greater_doc-AllEncodable (s ∷ ss) = by_name (str_eq (units "a") s) ss
  where
    by_name :
        (b : Bool) (ss : List Str)
        → IsEncodable (elim (if b then some (str (units "z")) else none) [
          | none ↦ missing
          | some v ↦ resolve_value v ss
        ])
    by_name true [] = ((7 ∷ 0 ∷ 0 ∷ 0 ∷ 1 ∷ 0x7a ∷ [], key_z), tt)
    by_name true (s ∷ ss) = tt
    by_name false ss = tt

compile_filter-decides_example :
    (b : Bool) × (matches greater_doc ≡ ok b) × ((b ≡ true) ↔ Matches filter greater_doc)
compile_filter-decides_example =
    compile_filter-decides filter greater_doc matches filter-compiled greater_doc-AllEncodable
