-- ===== src/Server/Db/Revisions/Statements.antt =====
-- revisions.rs: the statements that insert a revision.
use native.Mathlib.Nat.{le_refl}
use rustend.Prelude.{ℕ, suc, ◌==◌, ◌&&◌, List, [], ◌∷◌, contains, ◌≡◌, refl, arith}
use rustend.Core.Ids.{RevisionId}
use rustend.Core.Lineage.{parents}
use rustend.Core.Revision.{Revision}
use rustend.Server.Tables.{ParentRow, has_parent_row}
use rustend.Server.Tables.Valid.{is_parent}
use rustend.Server.Sql.Shape.{Plain}
use rustend.Server.Db.Revisions.{insert_parents, insert_revision, as_i16}

module _ (V : Type 0) where
  insert_parents-Plain :
      (r : RevisionId) (pos : ℕ) (ps : List RevisionId) → Plain (insert_parents {V = V} r pos ps)
  unfolding insert_parents
  insert_parents-Plain r pos [] = tt
  insert_parents-Plain r pos (p ∷ ps) = λ _. (le_refl _, insert_parents-Plain r (suc pos) ps)

module _ {V : Type 0} where
  pub insert_revision-Plain : (rev : Revision V) → Plain (insert_revision rev)
  unfolding insert_revision
  insert_revision-Plain rev =
      λ _. (le_refl _, insert_parents-Plain V rev.id 0 (parents rev.lineage))

-- The rows that `insert_parents` adds.
abbrev pub parent_rows : RevisionId → ℕ → List RevisionId → List ParentRow
parent_rows r pos [] = []
parent_rows r pos (p ∷ ps) =
    record { revision_id = r; parent_id = p; position = as_i16 pos } ∷ parent_rows r (suc pos) ps

pub is_parent-parent_rows :
    (p r : RevisionId) (pos : ℕ) (ps : List RevisionId)
    → is_parent p (parent_rows r pos ps) ≡ contains p ps
is_parent-parent_rows p r pos [] = refl
is_parent-parent_rows p r pos (q ∷ ps) = ground (arith, is_parent-parent_rows p r (suc pos) ps)

pub has_parent_row-parent_rows :
    (r' p r : RevisionId) (pos : ℕ) (ps : List RevisionId)
    → has_parent_row r' p (parent_rows r pos ps) ≡ (r' == r && contains p ps)
has_parent_row-parent_rows r' p r pos [] = ground arith
has_parent_row-parent_rows r' p r pos (q ∷ ps) =
    ground (arith, has_parent_row-parent_rows r' p r (suc pos) ps)
