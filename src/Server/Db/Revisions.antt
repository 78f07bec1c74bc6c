-- ===== src/Server/Db/Revisions.antt =====
-- rustend-server/src/db/revisions.rs
pub mod Statements
pub mod Insert
pub mod RoundTrip
pub mod Batch
pub mod Known
use rustend.Prelude.{
  ℕ, suc, ◌+◌, ◌%◌, ◌==◌, leb, ltb, if◌then◌else◌, Bool, true, false, Option, none, some, List, [],
  ◌∷◌, ◌++◌, map, keep, contains, lookup,
}
use rustend.Core.Ids.{Uuid, RevisionId}
use rustend.Core.Lineage.{Lineage, root, update, merge, parents}
use rustend.Core.Content.{Content, active, deleted}
use rustend.Core.Revision.{Revision}
use rustend.Server.Error.{SqlError, foreign_key_violation, unique_violation, check_violation}
use rustend.Server.Tables.{
  Tables, RevisionRow, ParentRow, object_of, has_client, has_parent_row, active_has_data,
}
use rustend.Server.Sql.{Db, ◌>>=◌, ◌>>◌, ret, query, execute}

-- `pos as i16`, plus 32768: the two's complement of the low 16 bits, shifted to start at 0.
abbrev pub as_i16 : ℕ → ℕ
as_i16 pos = (pos + 32768) % 65536

pub lineage_of : List Uuid → Lineage
lineage_of [] = root
lineage_of (p ∷ []) = update p
lineage_of (a ∷ b ∷ rest) = merge a b rest

-- `ORDER BY revision_id, position`
abbrev before : ParentRow → ParentRow → Bool
before a b =
    if a.revision_id == b.revision_id
    then leb a.position b.position
    else ltb a.revision_id b.revision_id

abbrev place : ParentRow → List ParentRow → List ParentRow
place row [] = row ∷ []
place row (x ∷ xs) = if before row x then row ∷ x ∷ xs else x ∷ place row xs

pub order_by_position : List ParentRow → List ParentRow
order_by_position [] = []
order_by_position (row ∷ rows) = place row (order_by_position rows)

-- `HashMap::entry(key).or_default().push(item)`
abbrev pub push_under : ℕ → ℕ → List (ℕ × List ℕ) → List (ℕ × List ℕ)
push_under k x [] = (k, x ∷ []) ∷ []
push_under k x ((j, xs) ∷ m) =
    if k == j then (j, xs ++ (x ∷ [])) ∷ m else (j, xs) ∷ push_under k x m

group : List ParentRow → List (Uuid × List Uuid) → List (Uuid × List Uuid)
group [] m = m
group (row ∷ rows) m = group rows (push_under row.revision_id row.parent_id m)

-- `parents_map.get(&id).cloned().unwrap_or_default()`
abbrev pub parents_in : Uuid → List (Uuid × List Uuid) → List Uuid
parents_in id m = elim (lookup id m) [ none ↦ [] | some ps ↦ ps ]

module _ {V : Type 0} where
  unfoldable pub revision_exists : RevisionId → Db V SqlError Bool
  revision_exists id = query λ t. elim (object_of id t.revisions) [ none ↦ false | some _ ↦ true ]

  -- The pair `(deleted, data)`.
  abbrev deleted_and_data : Content V → Bool × Option V
  deleted_and_data (active v) = (false, some v)
  deleted_and_data deleted = (true, none)

  unfoldable pub row_of : Revision V → RevisionRow V
  row_of rev = record {
    id = rev.id;
    object_id = rev.object_id;
    object_type = rev.object_type;
    deleted = (deleted_and_data rev.content).0;
    payload = (deleted_and_data rev.content).1;
    created_at = rev.created_at;
    created_by = rev.created_by;
  }

  abbrev revision_broken : RevisionRow V → Tables V → Option SqlError
  revision_broken row t =
      if active_has_data row.deleted row.payload
      then elim (object_of row.id t.revisions) [
        | some _ ↦ some unique_violation
        | none ↦ if has_client row.created_by t.clients then none else some foreign_key_violation
      ]
      else some check_violation

  abbrev parent_broken : Uuid → Uuid → Tables V → Option SqlError
  parent_broken rev_id parent_id t =
      if has_parent_row rev_id parent_id t.revision_parents
      then some unique_violation
      else elim (object_of rev_id t.revisions) [
        | none ↦ some foreign_key_violation
        | some _ ↦ elim (object_of parent_id t.revisions) [
          | none ↦ some foreign_key_violation
          | some _ ↦ none
        ]
      ]

  insert_parents : Uuid → ℕ → List RevisionId → Db V SqlError (Unit {0})
  insert_parents rev_id pos [] = ret tt
  insert_parents rev_id pos (parent_id ∷ rest) =
      execute (parent_broken rev_id parent_id) (λ t. record t {
        revision_parents =
            t.revision_parents
            ++ (record { revision_id = rev_id; parent_id = parent_id; position = as_i16 pos } ∷ []);
      })
      >> insert_parents rev_id (suc pos) rest

  unfoldable pub insert_revision : Revision V → Db V SqlError (Unit {0})
  unfolding row_of insert_parents parents
  insert_revision rev =
      execute (revision_broken (row_of rev))
        (λ t. record t { revisions = t.revisions ++ (row_of rev ∷ []) })
      >> insert_parents rev.id 0 (parents rev.lineage)

  unfoldable pub get_revision_object_id : Uuid → Db V SqlError (Option Uuid)
  get_revision_object_id revision_id = query λ t. object_of revision_id t.revisions

  -- `FROM revisions WHERE id = ANY($1)`
  unfoldable pub get_revision_rows_by_ids : List Uuid → Db V SqlError (List (RevisionRow V))
  get_revision_rows_by_ids ids =
      query λ t. keep (λ (row : RevisionRow V). contains row.id ids) t.revisions

  unfoldable pub row_to_revision_sync : RevisionRow V → V → List Uuid → Revision V
  unfolding lineage_of
  row_to_revision_sync row null parents = record {
    id = row.id;
    object_id = row.object_id;
    object_type = row.object_type;
    lineage = lineage_of parents;
    created_at = row.created_at;
    created_by = row.created_by;
    content =
        if row.deleted then deleted else active (elim row.payload [ some v ↦ v | none ↦ null ]);
  }

  -- `WHERE revision_id = $1 ORDER BY position`
  unfoldable pub get_parents : Uuid → Db V SqlError (List Uuid)
  unfolding order_by_position
  get_parents revision_id = query λ t.
      map (λ (row : ParentRow). row.parent_id)
        (order_by_position
          (keep (λ (row : ParentRow). revision_id == row.revision_id) t.revision_parents))

  unfoldable pub get_parents_batch : List Uuid → Db V SqlError (List (Uuid × List Uuid))
  unfolding order_by_position group
  get_parents_batch [] = ret []
  get_parents_batch (r ∷ revision_ids) = query λ t.
      group
        (order_by_position (
          keep (λ (row : ParentRow). contains row.revision_id (r ∷ revision_ids))
            t.revision_parents))
        []

  -- The revisions with these ids, from their rows and the batch of their parents; `order` is that in
  -- which the database returns the rows.
  unfoldable pub read_revisions :
      (List (RevisionRow V) → List (RevisionRow V))
      → V
      → List Uuid
      → Db V SqlError (List (Revision V))
  unfolding get_revision_rows_by_ids get_parents_batch row_to_revision_sync
  read_revisions order null ids = do
    found ← get_revision_rows_by_ids ids
    let rows = order found
    parents_map ← get_parents_batch (map (λ (row : RevisionRow V). row.id) rows)
    ret (
        map (λ (row : RevisionRow V). row_to_revision_sync row null (parents_in row.id parents_map))
          rows)
