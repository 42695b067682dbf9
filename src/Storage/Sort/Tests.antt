-- ===== src/Storage/Sort/Tests.antt =====
-- packages/storage/src/sort.ts on concrete documents.
use mathlib.Core.List.{Perm}
use sinterdb.Prelude.{◌≡◌, refl, Bool, true, List, [], ◌∷◌, Str, units, ok, contains}
use sinterdb.Protocol.Document.{Fields, str, null, field, end}
use sinterdb.Storage.Sort.{
  SortKey, parse_sort_specification, parse_entries, compile_sort, sort_documents,
}
use sinterdb.Storage.Sort.Meaning.{InOrder}
use sinterdb.Storage.Sort.Laws.{compile_sort-IsSorted}
use sinterdb.Storage.IndexSpec.{split}
use sinterdb.Storage.Filter.{are_path_segments, is_path_segment}

abbrev first : Fields
first = field (units "a") (str (units "x")) end

abbrev second : Fields
second = field (units "b") null (field (units "a") (str (units "y")) end)

abbrev descending_a : List (Str × Bool)
descending_a = (units "a", true) ∷ []

abbrev keys_a : List SortKey
keys_a = record { segments = units "a" ∷ []; descending = true } ∷ []

compiled : compile_sort descending_a ≡ ok (sort_documents keys_a)
unfolding compile_sort parse_sort_specification parse_entries split are_path_segments
    is_path_segment contains
compiled = refl

compile_sort-IsSorted_example :
    InOrder descending_a (sort_documents keys_a (first ∷ second ∷ []))
    × Perm (sort_documents keys_a (first ∷ second ∷ [])) (first ∷ second ∷ [])
compile_sort-IsSorted_example =
    compile_sort-IsSorted descending_a (sort_documents keys_a) (first ∷ second ∷ []) compiled
