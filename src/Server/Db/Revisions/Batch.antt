-- ===== src/Server/Db/Revisions/Batch.antt =====
-- revisions.rs: `get_parents_batch` finds for each id what `get_parents` finds.
use rustend.Prelude.{◌==◌, true, List, [], ◌∷◌, Bool, All, ◌≡◌}
use rustend.Core.Ids.{Uuid}
use rustend.Server.Tables.{Tables, ParentRow}
use rustend.Server.Db.Revisions.{before}

abbrev of : Uuid → ParentRow → Bool
of r row = r == row.revision_id

abbrev Sorted : List ParentRow → Type 0
Sorted [] = Unit
Sorted (x ∷ xs) = All (λ y. before x y ≡ true) xs × Sorted xs
