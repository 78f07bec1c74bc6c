-- ===== src/Server/Db/Pull.antt =====
-- rustend-server/src/db/pull.rs: the objects that others changed, with all their heads.
pub mod Filters
pub mod Maps
pub mod Heads
pub mod Collected
pub mod Complete
pub mod Stored
pub mod Window
pub mod Reads
use rustend.Prelude.{
  ℕ, ◌==◌, ltb, leb, if◌then◌else◌, not, Bool, true, false, ◌&&◌, ◌||◌, Option, none, some, List,
  [], ◌∷◌, map, keep, any, contains, length, to_set, put, lookup, ◌++◌,
}
use rustend.Core.Ids.{Uuid, ClientId, TransactionId, Text}
use rustend.Core.Text.{text_eq}
use rustend.Core.Json.{Json}
use rustend.Core.Revision.{Revision}
use rustend.Core.Filter.{CreatedAtFilter, FilterCondition}
use rustend.Core.Protocol.{HeadAction, replace, conflict, ObjectUpdate}
use rustend.Server.Error.{SqlError, protocol}
use rustend.Server.Tables.{Tables, RevisionRow, TransactionRow, TransactionRevisionRow, HeadRow}
use rustend.Server.Sql.{Db, ret, throw, query, ◌>>=◌}
use rustend.Server.Db.Transactions.{i64_max}
use rustend.Server.Db.Revisions.{
  get_revision_rows_by_ids, get_parents_batch, row_to_revision_sync, push_under, parents_in,
}
use rustend.Server.Db.Pull.Filters.{apply_created_at_filters, apply_content_filter}

-- The order in which the database returns the rows of a `SELECT` without `ORDER BY`.
pub record Planner : Type 0 where
  pub objects : List Uuid → List Uuid
  pub heads : List HeadRow → List HeadRow

-- `t.id > $1`, where `$1` is `since.0 as i64`: negative from 2 ^ 63 on.
abbrev pub after : ℕ → ℕ → Bool
after since_id id = if leb since_id i64_max then ltb since_id id else true

-- The `JOIN` of a revision with the transactions after `since_id` up to `up_to_id`.
abbrev pub in_window : ℕ → ℕ → Uuid → List TransactionRow → List TransactionRevisionRow → Bool
in_window since_id up_to_id r transactions = any λ (tr : TransactionRevisionRow).
    tr.revision_id == r
    && any
        (λ (t : TransactionRow).
          t.id == tr.transaction_id && (after since_id t.id && leb t.id up_to_id))
        transactions

-- `heads_by_object`.
abbrev heads_by_object : List HeadRow → List (Uuid × List Uuid) → List (Uuid × List Uuid)
heads_by_object [] m = m
heads_by_object (row ∷ rows) m = heads_by_object rows (push_under row.object_id row.revision_id m)

-- `HashMap::remove`.
abbrev remove {ℓ} : {A : Type ℓ} → ℕ → List (ℕ × A) → List (ℕ × A)
remove k m = keep (λ e. not (k == e.0)) m

module _ {V : Type 0} where
  -- `SELECT DISTINCT r.object_id …`
  abbrev pub changed_objects : ClientId → ℕ → ℕ → Tables V → List Uuid
  changed_objects client_id since_id up_to_id t = to_set (
      map (λ (r : RevisionRow V). r.object_id)
        (keep
          (λ (r : RevisionRow V).
            not (r.created_by == client_id)
            && in_window since_id up_to_id r.id t.transactions t.transaction_revisions)
          t.revisions))

  -- `collect` of the rows into `rows_by_id`.
  abbrev rows_by_id : List (RevisionRow V) → List (Uuid × RevisionRow V)
  rows_by_id [] = []
  rows_by_id (row ∷ rows) = put row.id row (rows_by_id rows)

-- `HeadAction::Replace` for a single head.
abbrev pub action_for : ℕ → HeadAction
action_for heads = if heads == 1 then replace else conflict

module _ {V : Type 0} (json : Json V) (object_types : Option (List Text))
    (created_at_filters : Option (List CreatedAtFilter))
    (content_filter : Option (List (List (FilterCondition V)))) where
  abbrev type_passes : Text → Bool
  type_passes object_type = elim object_types [
    | none ↦ true
    | some types ↦ any (text_eq object_type) types
  ]

  abbrev created_at_passes : RevisionRow V → Bool
  created_at_passes row = elim created_at_filters [
    | none ↦ true
    | some fs ↦ apply_created_at_filters row.created_at fs
  ]

  abbrev content_passes : Option V → Bool
  content_passes payload = elim content_filter [
    | none ↦ true
    | some f ↦ elim payload [ none ↦ true | some data' ↦ apply_content_filter json data' f ]
  ]

  -- All filter criteria for a head.
  abbrev pub head_passes : RevisionRow V → Bool
  head_passes row =
      type_passes row.object_type && (created_at_passes row && content_passes row.payload)

  -- The loop over an object's heads: the revisions, whether one passed, and `rows_by_id`, which goes on
  -- to the next object.
  pub collect_heads :
      List (Uuid × List Uuid)
      → List Uuid
      → List (Uuid × RevisionRow V)
      → List (Revision V) × (Bool × List (Uuid × RevisionRow V))
  collect_heads parents_map [] rows = ([], (false, rows))
  collect_heads parents_map (head_id ∷ head_ids) rows =
      let others = collect_heads parents_map head_ids (remove head_id rows) in
      elim (lookup head_id rows) [
        | none ↦ others
        | some row ↦ (
          row_to_revision_sync row json.null_value (parents_in row.id parents_map) ∷ others.0,
          (head_passes row || others.1.0, others.1.1),
        )
      ]

  -- The update for an object, if its heads call for one.
  abbrev pub update_of : Uuid → List (Revision V) → Bool → List (ObjectUpdate V)
  update_of object_id head_revisions passes_filter =
      if not passes_filter || length head_revisions == 0
      then []
      else record {
        object_id = object_id;
        action = action_for (length head_revisions);
        heads = head_revisions;
      }
        ∷ []

  -- The loop over the changed objects.
  pub collect_updates :
      List (Uuid × List Uuid)
      → List (Uuid × List Uuid)
      → List Uuid
      → List (Uuid × RevisionRow V)
      → List (ObjectUpdate V)
  unfolding collect_heads
  collect_updates heads parents_map [] rows = []
  collect_updates heads parents_map (object_id ∷ objects) rows = elim (lookup object_id heads) [
    | none ↦ collect_updates heads parents_map objects rows
    | some head_ids ↦
        let found = collect_heads parents_map head_ids rows in
        update_of object_id found.0 found.1.0 ++ collect_updates heads parents_map objects found.1.1
  ]

  -- What follows the early return for no changed object.
  pub fetch_heads : Planner → List Uuid → Db V SqlError (List (ObjectUpdate V))
  unfolding collect_updates
  fetch_heads planner [] = ret []
  fetch_heads planner (o ∷ objects) = do
    head_rows ← query λ t.
        planner.heads
          (keep (λ (row : HeadRow). contains row.object_id (o ∷ objects)) t.object_heads)
    let all_head_ids = map (λ (row : HeadRow). row.revision_id) head_rows
    revision_rows ← get_revision_rows_by_ids all_head_ids
    parents_map ← get_parents_batch all_head_ids
    ret (
        collect_updates (heads_by_object head_rows []) parents_map (o ∷ objects)
          (rows_by_id revision_rows))

  unfoldable pub fetch_object_updates :
      Planner
      → ClientId
      → Option TransactionId
      → TransactionId
      → Db V SqlError (List (ObjectUpdate V))
  unfolding fetch_heads
  fetch_object_updates planner client_id since up_to =
      if leb up_to i64_max
      then (do
        changed ← query λ t.
            planner.objects
              (changed_objects client_id (elim since [ none ↦ 0 | some s ↦ s ]) up_to t)
        fetch_heads planner changed)
      else throw protocol
