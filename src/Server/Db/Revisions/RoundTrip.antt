-- ===== src/Server/Db/Revisions/RoundTrip.antt =====
-- revisions.rs: what `insert_revision` writes is read back as the same revision.
use rustend.Prelude.{ℕ, suc, List, [], ◌∷◌, map, ◌≡◌, refl, ap}
use rustend.Core.Ids.{RevisionId}
use rustend.Core.Lineage.{Lineage}
use rustend.Core.Content.{Content}
use rustend.Core.Revision.{Revision}
use rustend.Server.Tables.{Tables, ParentRow}
use rustend.Server.Db.Revisions.Statements.{parent_rows}

map-parent_rows :
    (r : RevisionId) (pos : ℕ) (ps : List RevisionId)
    → map (λ (row : ParentRow). row.parent_id) (parent_rows r pos ps) ≡ ps
map-parent_rows r pos [] = refl
map-parent_rows r pos (p ∷ ps) = ap (λ l. p ∷ l) (map-parent_rows r (suc pos) ps)
