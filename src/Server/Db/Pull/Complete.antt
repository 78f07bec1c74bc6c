-- ===== src/Server/Db/Pull/Complete.antt =====
-- pull.rs: a changed object of which a head passes the filters is returned with all its heads.
use mathlib.Core.Path.{subst}
use rustend.Prelude.{
  ◌≤◌, leb, true, ◌&&◌, Option-cases, Option, none, some, inl, inr, List, [], ◌∷◌, map, keep,
  contains, lookup, ◌≡◌, sym, ap, ◌∙◌, arith,
}
use rustend.Core.Ids.{Uuid, ClientId, TransactionId, Text}
use rustend.Core.Json.{Json}
use rustend.Core.Filter.{CreatedAtFilter, FilterCondition}
use rustend.Core.Protocol.{ObjectUpdate}
use rustend.Server.Tables.{Tables, RevisionRow, HeadRow, object_of}
use rustend.Server.Tables.Valid.{IsValid, is_leaf}
use rustend.Server.Sql.{ok, idle, run}
use rustend.Server.Db.Transactions.{i64_max}
use rustend.Server.Db.Revisions.{get_revision_rows_by_ids, get_parents_batch}
use rustend.Server.Db.Pull.{
  Planner, heads_by_object, changed_objects, rows_by_id, head_passes, collect_updates, fetch_heads,
  fetch_object_updates,
}
use rustend.Server.Db.Pull.Maps.{
  under, has_head-heads_by_object, has_head-keep-eq, has_head-contains, rows_by_id-Keyed,
}
use rustend.Server.Db.Pull.Heads.{IsFaithful, batch_then}
use rustend.Server.Db.Pull.Collected.{
  object_of-eq-find_row, lookup-rows_by_id, Somewhere-mono, collect_updates_complete, updates_in,
  find_row, Somewhere, Carries,
}

module _ {V : Type 0} (json : Json V) (object_types : Option (List Text))
    (created_at_filters : Option (List CreatedAtFilter))
    (content_filter : Option (List (List (FilterCondition V)))) where
  -- Some head of the object passes the filters.
  abbrev pub Wanted : Uuid → Tables V → Type 0
  Wanted o t =
      (r : Uuid) × (row : RevisionRow V) × (is_leaf o r t ≡ true)
      × (find_row r t.revisions ≡ some row)
      × (head_passes json object_types created_at_filters content_filter row ≡ true)

  is_leaf-owner :
      (o x r : Uuid) (t : Tables V) → is_leaf o r t ≡ true → is_leaf x r t ≡ true → x ≡ o
  is_leaf-owner o x r t h g = elim (Option-cases (object_of r t.revisions)) [
    | inl absent ↦ ground (arith, absent, h)
    | inr (y, found) ↦ ground (arith, found, h, g)
  ]

  pub is_leaf-find_row :
      (o r : Uuid) (t : Tables V)
      → is_leaf o r t ≡ true
      → (row : RevisionRow V) × (find_row r t.revisions ≡ some row)
  is_leaf-find_row o r t h = elim (Option-cases (find_row r t.revisions)) [
    | inl absent ↦ ground (arith, absent, h, object_of-eq-find_row r t.revisions)
    | inr found ↦ found
  ]

  fetch_heads_complete :
      (planner : Planner) (objects : List Uuid) (t : Tables V) (o : Uuid)
      → IsFaithful planner
      → IsValid t
      → contains o objects ≡ true
      → Wanted o t
      → (updates : List (ObjectUpdate V)) × (run
            (fetch_heads json object_types created_at_filters content_filter planner objects)
            (idle t)
          ≡ (ok updates, idle t))
        × Somewhere (Carries o (λ r. is_leaf o r t)) updates
  unfolding fetch_heads run get_parents_batch get_revision_rows_by_ids
  fetch_heads_complete planner [] t o f v i w = cc
  fetch_heads_complete planner (x ∷ objects) t o f v i (good, good_row, leaf, stored, passes) =
      let os : List Uuid = x ∷ objects in
      let asked : List HeadRow =
        keep (λ (row : HeadRow). contains row.object_id os) t.object_heads in
      let head_rows : List HeadRow = planner.heads asked in
      let ids : List Uuid = map (λ (row : HeadRow). row.revision_id) head_rows in
      let rows = rows_by_id (keep (λ (row : RevisionRow V). contains row.id ids) t.revisions) in
      let heads = heads_by_object head_rows [] in
      let batch =
        batch_then (List (ObjectUpdate V))
          (λ parents_map.
            collect_updates json object_types created_at_filters content_filter heads parents_map os
              rows)
          ids t in
      let listed : (y r : Uuid) → contains r (under y heads) ≡ (is_leaf y r t && contains y os) =
        λ y r.
          has_head-heads_by_object y r head_rows []
          ∙ f.heads_kept asked y r
          ∙ has_head-keep-eq y r os t.object_heads
          ∙ ap (λ b. b && contains y os) (v.heads_are_leaves y r) in
      let found : (r : Uuid) → is_leaf o r t ≡ true → lookup r rows ≡ find_row r t.revisions =
        λ r h. lookup-rows_by_id r ids t.revisions (
          has_head-contains o r head_rows (
            sym (has_head-heads_by_object o r head_rows []) ∙ listed o r ∙ ground (arith, h, i))) in
      (
        _,
        batch.1,
        Somewhere-mono (Carries o (λ r. contains r (under o heads)))
            (Carries o (λ r. is_leaf o r t))
            (λ u c. (c.0, λ r h. c.1 r (listed o r ∙ ground (arith, h, i)))) _
            (collect_updates_complete json object_types created_at_filters content_filter heads
              batch.0 o good good_row os rows i (rows_by_id-Keyed _)
              (λ y r a b.
                is_leaf-owner o y r t (ground (arith, listed o r, b))
                  (ground (arith, listed y r, a)))
              (λ r a.
                let h : is_leaf o r t ≡ true = ground (arith, listed o r, a) in
                let (row, e) = is_leaf-find_row o r t h in (row, found r h ∙ e))
              (listed o good ∙ ground (arith, leaf, i)) (found good leaf ∙ stored) passes),
      )

  -- If a head of an object with a revision in the pull's range by another client passes the filters,
  -- then one update of the pull is for this object and has all its leaves: heads in conflict stay together.
  pub fetch_object_updates_complete :
      (planner : Planner) (client_id : ClientId) (since : Option TransactionId)
      (up_to : TransactionId) (t : Tables V) (o : Uuid)
      → IsFaithful planner
      → IsValid t
      → up_to ≤ i64_max
      → contains o (changed_objects client_id (elim since [ none ↦ 0 | some s ↦ s ]) up_to t) ≡ true
      → Wanted o t
      → (updates : List (ObjectUpdate V))
      → run
          (fetch_object_updates json object_types created_at_filters content_filter planner
            client_id since up_to)
          (idle t)
        ≡ (ok updates, idle t)
      → Somewhere (Carries o (λ r. is_leaf o r t)) updates
  unfolding fetch_object_updates run
  fetch_object_updates_complete planner client_id since up_to t o f v h changed w updates e =
      let objects : List Uuid =
        changed_objects client_id (elim since [ none ↦ 0 | some s ↦ s ]) up_to t in
      let in_range : leb up_to i64_max ≡ true = ground arith in
      let (found, ran, somewhere) =
        fetch_heads_complete planner (planner.objects objects) t o f v
          (f.objects_kept objects o ∙ changed) w in
      let whole : run
            (fetch_object_updates json object_types created_at_filters content_filter planner
              client_id since up_to)
            (idle t)
          ≡ (ok found, idle t) =
        rw (fetch_object_updates, in_range, run) ran in
      subst (Somewhere (Carries o (λ r. is_leaf o r t))) (ap (λ x. updates_in x.0) (sym whole ∙ e))
        somewhere
