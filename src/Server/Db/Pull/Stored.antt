-- ===== src/Server/Db/Pull/Stored.antt =====
-- pull.rs: the revisions that a pull returns are stored, and so are their parents.
use mathlib.Core.Path.{subst}
use rustend.Prelude.{
  ◌≤◌, ◌==◌, leb, Bool, true, false, Option-cases, Option, none, some, inl, inr, List, [], ◌∷◌, map,
  keep, All, contains, lookup, length, ◌≡◌, refl, sym, ap, ◌∙◌, arith,
}
use rustend.Core.Ids.{Uuid, ClientId, TransactionId, Text}
use rustend.Core.Json.{Json}
use rustend.Core.Lineage.{parents}
use rustend.Core.Revision.{Revision}
use rustend.Core.Filter.{CreatedAtFilter, FilterCondition}
use rustend.Core.Protocol.{ObjectUpdate}
use rustend.Server.Tables.{Tables, RevisionRow, HeadRow, object_of}
use rustend.Server.Tables.Valid.{is_parent}
use rustend.Server.Sql.{ok, idle, run}
use rustend.Server.Db.Transactions.{i64_max}
use rustend.Server.Db.Revisions.{
  parents_in, row_to_revision_sync, get_revision_rows_by_ids, get_parents_batch,
}
use rustend.Server.Db.Revisions.Known.{Known, get_parents_batch-Known, contains-parents-lineage_of}
use rustend.Server.Db.Pull.{
  Planner, heads_by_object, remove, changed_objects, rows_by_id, collect_heads, update_of,
  collect_updates, fetch_heads, fetch_object_updates,
}
use rustend.Server.Db.Pull.Maps.{suc-not_zero}
use rustend.Server.Db.Pull.Heads.{All-append}
use rustend.Server.Db.Pull.Collected.{updates_in}

module _ {V : Type 0} (t : Tables V) where
  -- The revision is stored under its object, and each of its parents is some revision's.
  abbrev pub Stored : Revision V → Type 0
  Stored rev =
      (object_of rev.id t.revisions ≡ some rev.object_id)
      × ((p : Uuid)
          → contains p (parents rev.lineage) ≡ true
          → is_parent p t.revision_parents ≡ true)

  -- The map has the rows of the table under their ids.
  abbrev Rows : List (Uuid × RevisionRow V) → Type 0
  Rows m =
      (k : Uuid) (row : RevisionRow V)
      → lookup k m ≡ some row
      → (row.id ≡ k) × (object_of k t.revisions ≡ some row.object_id)

  lookup-of_remove :
      (k x : Uuid) (row : RevisionRow V) (m : List (Uuid × RevisionRow V))
      → lookup k (remove x m) ≡ some row
      → ((k == x) ≡ false) × (lookup k m ≡ some row)
  lookup-of_remove k x row [] h = cc
  lookup-of_remove k x row ((j, y) ∷ m) h = ground (arith, h, lookup-of_remove k x row m)

  found_row :
      (ids : List Uuid) (k : Uuid) (row : RevisionRow V) (rows : List (RevisionRow V))
      → lookup k (rows_by_id (keep (λ (y : RevisionRow V). contains y.id ids) rows)) ≡ some row
      → (contains k ids ≡ true) × ((row.id ≡ k) × (object_of k rows ≡ some row.object_id))
  found_row ids k row [] h = cc
  found_row ids k row (y ∷ rows) h = ground (arith, h, found_row ids k row rows)

  row_to_revision_sync-Stored :
      (null : V) (pm : List (Uuid × List Uuid)) (k : Uuid) (row : RevisionRow V)
      → Known t pm
      → (row.id ≡ k) × (object_of k t.revisions ≡ some row.object_id)
      → Stored (row_to_revision_sync row null (parents_in row.id pm))
  unfolding row_to_revision_sync
  row_to_revision_sync-Stored null pm k row known (same, owned) = (
    rw same owned,
    λ p h. known row.id p (sym (contains-parents-lineage_of p (parents_in row.id pm)) ∙ h),
  )

module _ {V : Type 0} (json : Json V) (object_types : Option (List Text))
    (created_at_filters : Option (List CreatedAtFilter))
    (content_filter : Option (List (List (FilterCondition V)))) (t : Tables V) where
  abbrev AllStored : ObjectUpdate V → Type 0
  AllStored u = All (Stored t) u.heads

  collect_heads-Stored :
      (pm : List (Uuid × List Uuid)) (ids : List Uuid) (m : List (Uuid × RevisionRow V))
      → Known t pm
      → Rows t m
      → let found = collect_heads json object_types created_at_filters content_filter pm ids m in
        All (Stored t) found.0 × Rows t found.1.1
  unfolding collect_heads row_to_revision_sync
  collect_heads-Stored pm [] m known rows = (tt, rows)
  collect_heads-Stored pm (k ∷ ids) m known rows =
      let rest =
        collect_heads-Stored pm ids (remove k m) known
          (λ j row h. rows j row (lookup-of_remove t j k row m h).1) in
      elim (Option-cases (lookup k m)) [
        | inl absent ↦ rw (collect_heads, absent) rest
        | inr (row, found) ↦
            rw (collect_heads, found)
              (
                (
                  row_to_revision_sync-Stored t json.null_value pm k row known (rows k row found),
                  rest.0,
                ),
                rest.1,
              )
      ]

  update_of-Stored :
      (o : Uuid) (revs : List (Revision V)) (passes : Bool)
      → All (Stored t) revs
      → All AllStored (update_of json object_types created_at_filters content_filter o revs passes)
  update_of-Stored o revs false h = tt
  update_of-Stored o [] true h = tt
  update_of-Stored o (rev ∷ revs) true h = rw (suc-not_zero (length revs)) (h, tt)

  collect_updates-Stored :
      (heads pm : List (Uuid × List Uuid)) (objects : List Uuid) (m : List (Uuid × RevisionRow V))
      → Known t pm
      → Rows t m
      → All AllStored
          (collect_updates json object_types created_at_filters content_filter heads pm objects m)
  unfolding collect_updates
  collect_updates-Stored heads pm [] m known rows = tt
  collect_updates-Stored heads pm (o ∷ objects) m known rows =
      elim (Option-cases (lookup o heads)) [
        | inl absent ↦
            rw (collect_updates, absent) (collect_updates-Stored heads pm objects m known rows)
        | inr (ids, found) ↦
            let one = collect_heads json object_types created_at_filters content_filter pm ids m in
            let facts = collect_heads-Stored pm ids m known rows in
            rw (collect_updates, found)
              (All-append json object_types created_at_filters content_filter AllStored
                (update_of json object_types created_at_filters content_filter o one.0 one.1.0) _
                (update_of-Stored o one.0 one.1.0 facts.0)
                (collect_updates-Stored heads pm objects one.1.1 known facts.1))
      ]

  fetch_heads-Stored :
      (planner : Planner) (objects : List Uuid)
      → (updates : List (ObjectUpdate V)) × (run
            (fetch_heads json object_types created_at_filters content_filter planner objects)
            (idle t)
          ≡ (ok updates, idle t))
        × All AllStored updates
  unfolding fetch_heads run get_parents_batch get_revision_rows_by_ids
  fetch_heads-Stored planner [] = ([], refl, tt)
  fetch_heads-Stored planner (o ∷ objects) =
      let asked : List HeadRow =
        keep (λ (row : HeadRow). contains row.object_id (o ∷ objects)) t.object_heads in
      let head_rows : List HeadRow = planner.heads asked in
      let ids : List Uuid = map (λ (row : HeadRow). row.revision_id) head_rows in
      let rows = rows_by_id (keep (λ (row : RevisionRow V). contains row.id ids) t.revisions) in
      let heads = heads_by_object head_rows [] in
      let (pm, ran, known) =
        get_parents_batch-Known (List (ObjectUpdate V))
          (λ parents_map.
            collect_updates json object_types created_at_filters content_filter heads parents_map
              (o ∷ objects) rows)
          ids t in
      (
        _,
        ran,
        collect_updates-Stored heads pm (o ∷ objects) rows known
            (λ k row h. (found_row t ids k row t.revisions h).1),
      )

  pub fetch_object_updates-Stored :
      (planner : Planner) (client_id : ClientId) (since : Option TransactionId)
      (up_to : TransactionId)
      → up_to ≤ i64_max
      → (updates : List (ObjectUpdate V))
      → run
          (fetch_object_updates json object_types created_at_filters content_filter planner
            client_id since up_to)
          (idle t)
        ≡ (ok updates, idle t)
      → All (λ (u : ObjectUpdate V). All (Stored t) u.heads) updates
  unfolding fetch_object_updates run
  fetch_object_updates-Stored planner client_id since up_to h updates e =
      let objects : List Uuid =
        changed_objects client_id (elim since [ none ↦ 0 | some s ↦ s ]) up_to t in
      let in_range : leb up_to i64_max ≡ true = ground arith in
      let (found, ran, stored) = fetch_heads-Stored planner (planner.objects objects) in
      let whole : run
            (fetch_object_updates json object_types created_at_filters content_filter planner
              client_id since up_to)
            (idle t)
          ≡ (ok found, idle t) =
        rw (fetch_object_updates, in_range, run) ran in
      subst (All AllStored) (ap (λ x. updates_in x.0) (sym whole ∙ e)) stored
