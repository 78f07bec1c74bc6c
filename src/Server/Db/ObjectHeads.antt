-- ===== src/Server/Db/ObjectHeads.antt =====
-- rustend-server/src/db/object_heads.rs
pub mod Statements
use rustend.Prelude.{
  ◌==◌, if◌then◌else◌, ◌&&◌, not, Option, none, some, List, [], ◌∷◌, ◌++◌, map, keep, contains,
}
use rustend.Core.Ids.{Uuid}
use rustend.Server.Error.{SqlError, foreign_key_violation}
use rustend.Server.Tables.{HeadRow, Tables, has_head, object_of}
use rustend.Server.Sql.{Db, ◌>>◌, ret, query, execute}

-- `DELETE FROM object_heads WHERE object_id = $1 AND revision_id = ANY($2)`
abbrev pub without_heads : Uuid → List Uuid → List HeadRow → List HeadRow
without_heads object_id ids =
    keep λ (row : HeadRow). not (object_id == row.object_id && contains row.revision_id ids)

-- `INSERT INTO object_heads … ON CONFLICT DO NOTHING`
abbrev pub with_head : Uuid → Uuid → List HeadRow → List HeadRow
with_head object_id revision_id rows =
    if has_head object_id revision_id rows
    then rows
    else rows ++ (record { object_id = object_id; revision_id = revision_id } ∷ [])

-- The ids of an object's heads, in the order of the table.
abbrev pub head_ids : Uuid → List HeadRow → List Uuid
head_ids object_id rows =
    map (λ (row : HeadRow). row.revision_id)
      (keep (λ (row : HeadRow). object_id == row.object_id) rows)

module _ {V : Type 0} where
  abbrev pub references_revision : Uuid → Tables V → Option SqlError
  references_revision r t = elim (object_of r t.revisions) [
    | none ↦ some foreign_key_violation
    | some _ ↦ none
  ]

  abbrev delete_heads : Uuid → List Uuid → Db V SqlError (Unit {0})
  delete_heads object_id [] = ret tt
  delete_heads object_id (p ∷ parent_ids) =
      execute (λ _. none)
        λ t. record t { object_heads = without_heads object_id (p ∷ parent_ids) t.object_heads }

  unfoldable pub update_heads : Uuid → List Uuid → Uuid → Db V SqlError (Unit {0})
  update_heads object_id parent_ids new_revision_id =
      delete_heads object_id parent_ids
      >> execute (references_revision new_revision_id)
          λ t. record t { object_heads = with_head object_id new_revision_id t.object_heads }

  -- `order` is that in which the database returns the rows.
  unfoldable pub get_heads : (List HeadRow → List HeadRow) → Uuid → Db V SqlError (List Uuid)
  get_heads order object_id = query λ t.
      map (λ (row : HeadRow). row.revision_id)
        (order (keep (λ (row : HeadRow). object_id == row.object_id) t.object_heads))
