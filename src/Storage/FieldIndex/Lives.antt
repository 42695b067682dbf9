-- ===== src/Storage/FieldIndex/Lives.antt =====
-- An index of packages/storage/src/indexing/field-index.ts through its life, bulk loading included: what
-- `add`, `remove` and `finishBulk` make of the lists of documents.
use mathlib.Core.Path.{subst}
use sinterdb.Prelude.{◌≡◌, refl, sym, Bool, false, List, [], ◌∷◌, ◌++◌, Str, ok}
use sinterdb.Protocol.Document.{Fields}
use sinterdb.Storage.IndexSpec.{IndexSpec}
use sinterdb.Storage.FieldIndex.{FieldIndex, new_index, add, remove, finish_bulk, conflict_for}
use sinterdb.Storage.FieldIndex.Tracks.{Stored}
use sinterdb.Storage.FieldIndex.Untracked.{AreOthers}
use sinterdb.Storage.FieldIndex.Listing.{Lists, new_index-Lists, Lists-Alike}
use sinterdb.Storage.FieldIndex.Entered.{add-Lists}
use sinterdb.Storage.FieldIndex.Left.{remove-Lists}

finish_bulk-Lists :
    (spec : IndexSpec) (index : FieldIndex) (docs : List Stored)
    → Lists spec index docs
    → Lists spec (finish_bulk index) docs
unfolding finish_bulk
finish_bulk-Lists spec index docs l =
    Lists-Alike index (finish_bulk index) (refl, refl, refl) spec docs l

-- The life of an index: documents are added, in bulk or one by one, where `conflictFor` has found no
-- conflict, and removed, and bulk loading is finished.
pub data Lives (spec : IndexSpec) : FieldIndex → List Stored → Type 0 where
  begun : Lives spec (new_index spec) []
  entered :
      {index : FieldIndex} {docs : List Stored}
      → Lives spec index docs
      → (bulk : Bool) (k : Str) (d : Fields) (index' : FieldIndex) → AreOthers k docs
      → conflict_for k d index ≡ ok false
      → add k d bulk index ≡ ok index'
      → Lives spec index' ((k, d) ∷ docs)
  left :
      {index : FieldIndex} (xs ys docs : List Stored) (k : Str) (d : Fields) (index' : FieldIndex)
      → Lives spec index (xs ++ (k, d) ∷ ys)
      → AreOthers k (xs ++ ys)
      → docs ≡ xs ++ ys
      → remove k d index ≡ ok index'
      → Lives spec index' docs
  finished :
      {index : FieldIndex} {docs : List Stored}
      → Lives spec index docs
      → Lives spec (finish_bulk index) docs

-- Through every life of an index, bulk loading included, a document is listed under the key of its
-- field, or among those that lack the field unless the index is sparse, if it was added and not removed;
-- and whatever the index lists under a key, or as lacking the field, is such a document.
pub Lives-Lists :
    {spec : IndexSpec} {index : FieldIndex} {docs : List Stored}
    → Lives spec index docs
    → Lists spec index docs
Lives-Lists {spec} begun = new_index-Lists spec
Lives-Lists {spec} (entered {index = i} {docs = ds} h bulk k d index' others free done) =
    add-Lists spec i ds (Lives-Lists h) k d bulk index' done
Lives-Lists {spec} (left {index = i} xs ys docs k d index' h others e done) =
    subst (Lists spec index') (sym e)
      (remove-Lists spec i xs ys k d (Lives-Lists h) others index' done)
Lives-Lists {spec} (finished {index = i} {docs = ds} h) =
    finish_bulk-Lists spec i ds (Lives-Lists h)
