-- ===== src/Storage/Planner/Tests.antt =====
-- A plan of packages/storage/src/indexing/planner.ts that reads an index of two documents.
use sinterdb.Prelude.{
  ◌≡◌, refl, true, false, none, some, List, [], ◌∷◌, units, ok, str_eq, contains,
}
use sinterdb.Protocol.Document.{str, get}
use sinterdb.Protocol.CustomId.{to_hex_string}
use sinterdb.Storage.Predicate.{
  every, resolve_field, resolve_value, compares, compare_values, has_operator, is_operator_document,
}
use sinterdb.Storage.Filter.{matches_clauses, matches_compiled_filter, operator_of}
use sinterdb.Storage.Compare.{compare_units}
use sinterdb.Storage.IndexValue.{
  strings, map_get, map_set, set_class, value_class_of, lower_bound, bisect, passes, middle_of,
  set_add,
}
use sinterdb.Storage.FieldIndex.{
  add_found, new_index, insert_ordered, lookup_range, range_entries, range_start, range_end,
  collect_keys, add_all,
}
use sinterdb.Storage.Filter.Tests.{filter, matches, filter-compiled}
use sinterdb.Storage.FieldIndex.Tests.{
  first_id, second_id, doc_of, doc_y-Lossless, holding_both, stored_both,
}
use sinterdb.Storage.FieldIndex.Tracks.{Stored}
use sinterdb.Storage.FieldIndex.Unique.{Evolves-Tracks}
use sinterdb.Storage.Planner.{
  QueryPlan, ixscan, range, plan_query, candidate_keys, plan_id, constraints_get, collect, push_all,
  field_constraints, operator_constraints, operator_constraint, plan_indexes, plan_index,
  plan_constraints, plan_constraint, plan_range, range_plan, narrow_all, narrow, tighter,
  estimate_range, choose, preferred,
}
use sinterdb.Storage.Planner.Sound.{plan_query-Finds}

y-matches : matches (doc_of second_id (units "y")) ≡ ok true
unfolding matches_clauses matches_compiled_filter every resolve_field resolve_value get str_eq
    compares compare_values compare_units
y-matches = refl

abbrev both_rest : List Stored
both_rest = (to_hex_string first_id, doc_of first_id (units "x")) ∷ []

abbrev the_plan : QueryPlan
the_plan =
    ixscan holding_both
      (range strings (some (record { value = str (units "y"); inclusive = true })) none) false 1

planned : plan_query (λ n d s. n) filter (holding_both ∷ []) 2 ≡ ok the_plan
unfolding plan_query plan_id constraints_get collect push_all field_constraints operator_constraints
    operator_constraint operator_of is_operator_document has_operator plan_indexes plan_index
    plan_constraints plan_constraint plan_range range_plan narrow_all narrow tighter estimate_range
    range_entries range_start range_end choose preferred add_found new_index insert_ordered map_get
    map_set set_class value_class_of lower_bound bisect passes middle_of compare_values
    compare_units str_eq
planned = refl

candidates : candidate_keys the_plan ≡ ok (some (to_hex_string second_id ∷ []))
unfolding candidate_keys lookup_range range_entries range_start range_end collect_keys add_all
    set_add contains add_found new_index insert_ordered map_get map_set set_class value_class_of
    lower_bound bisect passes middle_of compare_values compare_units str_eq
candidates = refl

plan_query-Finds_example : contains (to_hex_string second_id ∷ []) (to_hex_string second_id) ≡ true
unfolding get str_eq add_found map_get new_index insert_ordered value_class_of map_set
plan_query-Finds_example =
    plan_query-Finds (λ n d s. n) filter matches (holding_both ∷ []) 2 [] both_rest
      (to_hex_string second_id) (doc_of second_id (units "y")) second_id the_plan
      (to_hex_string second_id ∷ []) filter-compiled y-matches refl refl doc_y-Lossless
      (Evolves-Tracks stored_both, tt) planned candidates
