-- ===== src/Server/Db/Pull/Heads.antt =====
-- pull.rs: every head that a pull returns is a leaf of an object that changed.
use rustend.Prelude.{
  ◌≤◌, ◌<◌, leb, Bool, true, false, Option-cases, Option, none, some, inl, inr, List, [], ◌∷◌, ◌++◌,
  map, keep, All, contains, lookup, length, ◌≡◌, refl, sym, ◌∙◌, arith,
}
use rustend.Core.Ids.{Uuid, ClientId, TransactionId, Text}
use rustend.Core.Json.{Json}
use rustend.Core.Revision.{Revision}
use rustend.Core.Filter.{CreatedAtFilter, FilterCondition}
use rustend.Core.Protocol.{ObjectUpdate}
use rustend.Server.Tables.{Tables, RevisionRow, HeadRow, has_head}
use rustend.Server.Tables.Valid.{IsValid, is_leaf}
use rustend.Server.Sql.{ok, idle, run, ret, ◌>>=◌}
use rustend.Server.Db.Transactions.{i64_max}
use rustend.Server.Db.Revisions.{row_to_revision_sync, get_revision_rows_by_ids, get_parents_batch}
use rustend.Server.Db.Pull.{
  Planner, heads_by_object, remove, changed_objects, rows_by_id, collect_heads, update_of,
  collect_updates, fetch_heads, fetch_object_updates,
}
use rustend.Server.Db.Pull.Maps.{
  under, has_head-heads_by_object, has_head-keep, Keyed, rows_by_id-Keyed, remove-Keyed,
  lookup-Keyed, suc-not_zero,
}

-- The database returns the rows of a query, in some order.
pub record IsFaithful (planner : Planner) : Type 0 where
  pub objects_kept : (os : List Uuid) (o : Uuid) → contains o (planner.objects os) ≡ contains o os
  pub heads_kept :
      (rows : List HeadRow) (o r : Uuid) → has_head o r (planner.heads rows) ≡ has_head o r rows

-- The program after the query for the parents goes on with some map.
pub batch_then :
    {V : Type 0} (B : Type 0) (F : List (Uuid × List Uuid) → B) (ids : List Uuid) (t : Tables V)
    → (m : List (Uuid × List Uuid)) × (run (get_parents_batch ids >>= λ m. ret (F m)) (idle t)
        ≡ (ok (F m), idle t))
unfolding get_parents_batch run
batch_then B F [] t = ([], refl)
batch_then B F (r ∷ ids) t = (_, refl)

module _ {V : Type 0} (json : Json V) (object_types : Option (List Text))
    (created_at_filters : Option (List CreatedAtFilter))
    (content_filter : Option (List (List (FilterCondition V)))) where
  -- Each revision is one of these.
  abbrev pub From : List Uuid → List (Revision V) → Type 0
  From ids revs = All (λ (rev : Revision V). contains rev.id ids ≡ true) revs

  From-cons :
      (k : Uuid) (ids : List Uuid) (revs : List (Revision V)) → From ids revs → From (k ∷ ids) revs
  From-cons k ids [] h = tt
  From-cons k ids (rev ∷ revs) h = (ground (arith, h.0), From-cons k ids revs h.1)

  pub collect_heads-From :
      (parents_map : List (Uuid × List Uuid)) (ids : List Uuid) (m : List (Uuid × RevisionRow V))
      → Keyed m
      → let found =
          collect_heads json object_types created_at_filters content_filter parents_map ids m in
        From ids found.0 × Keyed found.1.1
  unfolding collect_heads row_to_revision_sync
  collect_heads-From parents_map [] m h = (tt, h)
  collect_heads-From parents_map (k ∷ ids) m h =
      let rest = collect_heads-From parents_map ids (remove k m) (remove-Keyed k m h) in
      elim (Option-cases (lookup k m)) [
        | inl absent ↦ rw (collect_heads, absent) (From-cons k ids _ rest.0, rest.1)
        | inr (row, found) ↦
            rw (collect_heads, found)
              ((ground (arith, lookup-Keyed k row m h found), From-cons k ids _ rest.0), rest.1)
      ]

  -- Every head of the update is of this kind for its object, there is one at least, and the object is
  -- among these.
  abbrev pub Sound : List Uuid → (Uuid → Uuid → Bool) → ObjectUpdate V → Type 0
  Sound changed is u =
      (contains u.object_id changed ≡ true)
      × (0 < length u.heads)
      × All (λ (rev : Revision V). is u.object_id rev.id ≡ true) u.heads

  pub All-append :
      (P : ObjectUpdate V → Type 0) (us vs : List (ObjectUpdate V))
      → All P us
      → All P vs
      → All P (us ++ vs)
  All-append P [] vs h g = g
  All-append P (u ∷ us) vs h g = (h.0, All-append P us vs h.1 g)

  From-heads :
      (o : Uuid) (is : Uuid → Uuid → Bool) (ids : List Uuid) (revs : List (Revision V))
      → ((r : Uuid) → contains r ids ≡ true → is o r ≡ true)
      → From ids revs
      → All (λ (rev : Revision V). is o rev.id ≡ true) revs
  From-heads o is ids [] h g = tt
  From-heads o is ids (rev ∷ revs) h g = (h rev.id g.0, From-heads o is ids revs h g.1)

  update_of-Sound :
      (changed : List Uuid) (is : Uuid → Uuid → Bool) (o : Uuid) (revs : List (Revision V))
      (passes : Bool)
      → contains o changed ≡ true
      → All (λ (rev : Revision V). is o rev.id ≡ true) revs
      → All
          (Sound changed is)
          (update_of json object_types created_at_filters content_filter o revs passes)
  update_of-Sound changed is o revs false h g = tt
  update_of-Sound changed is o [] true h g = tt
  update_of-Sound changed is o (rev ∷ revs) true h g =
      rw (suc-not_zero (length revs)) ((h, omega arith, g), tt)

  collect_updates-Sound :
      (heads parents_map : List (Uuid × List Uuid)) (changed : List Uuid) (is : Uuid → Uuid → Bool)
      (objects : List Uuid) (m : List (Uuid × RevisionRow V))
      → ((o r : Uuid) → contains r (under o heads) ≡ true → is o r ≡ true)
      → ((o : Uuid) → contains o objects ≡ true → contains o changed ≡ true)
      → Keyed m
      → All (Sound changed is) (
          collect_updates json object_types created_at_filters content_filter heads parents_map
            objects m)
  unfolding collect_updates
  collect_updates-Sound heads parents_map changed is [] m h g k = tt
  collect_updates-Sound heads parents_map changed is (o ∷ objects) m h g k =
      elim (Option-cases (lookup o heads)) [
        | inl absent ↦
            rw (collect_updates, absent)
              (collect_updates-Sound heads parents_map changed is objects m h
                (λ x i. g x (ground arith)) k)
        | inr (ids, found) ↦
            let facts = collect_heads-From parents_map ids m k in
            let one =
              collect_heads json object_types created_at_filters content_filter parents_map ids m in
            rw (collect_updates, found)
              (All-append (Sound changed is)
                (update_of json object_types created_at_filters content_filter o one.0 one.1.0) _
                (update_of-Sound changed is o one.0 one.1.0 (g o (ground arith))
                  (From-heads o is ids one.0 (λ r i. h o r (ground (arith, found, i))) facts.0))
                (collect_updates-Sound heads parents_map changed is objects one.1.1 h
                  (λ x i. g x (ground arith)) facts.1))
      ]

  fetch_heads-Sound :
      (planner : Planner) (changed objects : List Uuid) (t : Tables V)
      → IsFaithful planner
      → IsValid t
      → ((o : Uuid) → contains o objects ≡ true → contains o changed ≡ true)
      → (updates : List (ObjectUpdate V)) × (run
            (fetch_heads json object_types created_at_filters content_filter planner objects)
            (idle t)
          ≡ (ok updates, idle t))
        × All (Sound changed (λ o r. is_leaf o r t)) updates
  unfolding fetch_heads run get_parents_batch get_revision_rows_by_ids
  fetch_heads-Sound planner changed [] t f v g = ([], refl, tt)
  fetch_heads-Sound planner changed (o ∷ objects) t f v g =
      let asked : List HeadRow =
        keep (λ (row : HeadRow). contains row.object_id (o ∷ objects)) t.object_heads in
      let head_rows : List HeadRow = planner.heads asked in
      let ids : List Uuid = map (λ (row : HeadRow). row.revision_id) head_rows in
      let rows = rows_by_id (keep (λ (row : RevisionRow V). contains row.id ids) t.revisions) in
      let heads = heads_by_object head_rows [] in
      let batch =
        batch_then (List (ObjectUpdate V))
          (λ parents_map.
            collect_updates json object_types created_at_filters content_filter heads parents_map
              (o ∷ objects) rows)
          ids t in
      (
        _,
        batch.1,
        collect_updates-Sound heads batch.0 changed (λ x r. is_leaf x r t) (o ∷ objects) rows
            (λ x r i.
              sym (v.heads_are_leaves x r)
              ∙ has_head-keep x r (o ∷ objects) t.object_heads (
                  ground
                    (arith, has_head-heads_by_object x r head_rows [], f.heads_kept asked x r, i)))
            g (rows_by_id-Keyed _),
      )

  pub fetch_object_updates-leaves :
      (planner : Planner) (client_id : ClientId) (since : Option TransactionId)
      (up_to : TransactionId) (t : Tables V)
      → IsFaithful planner
      → IsValid t
      → up_to ≤ i64_max
      → (updates : List (ObjectUpdate V)) × (run
            (fetch_object_updates json object_types created_at_filters content_filter planner
              client_id since up_to)
            (idle t)
          ≡ (ok updates, idle t))
        × All
            (Sound
              (changed_objects client_id (elim since [ none ↦ 0 | some s ↦ s ]) up_to t)
              (λ o r. is_leaf o r t))
            updates
  unfolding fetch_object_updates run
  fetch_object_updates-leaves planner client_id since up_to t f v h =
      let changed : List Uuid =
        changed_objects client_id (elim since [ none ↦ 0 | some s ↦ s ]) up_to t in
      let in_range : leb up_to i64_max ≡ true = ground arith in
      let (updates, ran, sound) =
        fetch_heads-Sound planner changed (planner.objects changed) t f v
          (λ o m. sym (f.objects_kept changed o) ∙ m) in
      (updates, rw (fetch_object_updates, in_range, run) ran, sound)
