-- ===== src/Server/Handlers/Objects.antt =====
-- handlers/objects.rs: an object is answered with its leaves.
use mathlib.Core.Path.{subst}
use rustend.Server.Db.Pull.Maps.{has_head-contains}
use rustend.Prelude.{
  length, ◌==◌, Bool, Bool-cases, true, false, ◌&&◌, ◌||◌, any, keep, map, none, some, inl, inr,
  ◌⊎◌, List, [], ◌∷◌, contains, ◌≡◌, refl, sym, ap, ◌∙◌, arith,
}
use rustend.Core.Ids.{Uuid}
use rustend.Core.Json.{Json}
use rustend.Core.Revision.{Revision}
use rustend.Core.Protocol.{ObjectUpdate}
use rustend.Server.Error.{ServerError, not_found}
use rustend.Server.Tables.{Tables, RevisionRow, HeadRow, has_head, object_of}
use rustend.Server.Tables.Valid.{IsValid, is_leaf}
use rustend.Server.Sql.{Result, ok, err, Session, idle, run, from_sql}
use rustend.Server.Sql.Laws.{run->>=, run-from_sql}
use rustend.Server.Db.Revisions.{
  read_revisions, row_to_revision_sync, parents_in, get_revision_rows_by_ids,
}
use rustend.Server.Db.ObjectHeads.{get_heads}
use rustend.Server.Db.Pull.{Planner, action_for}
use rustend.Server.Db.Pull.Heads.{IsFaithful, batch_then}
use rustend.Server.Db.Pull.Collected.{ids_of}
use rustend.Server.Handlers.{get_object, object_of_heads}

has_head-of_object :
    (o o' r : Uuid) (rows : List HeadRow)
    → has_head o' r (keep (λ (row : HeadRow). o == row.object_id) rows)
      ≡ (o == o' && has_head o' r rows)
has_head-of_object o o' r [] = ground arith
has_head-of_object o o' r (row ∷ rows) = ground (arith, has_head-of_object o o' r rows)

head_of_contains :
    (r : Uuid) (rows : List HeadRow)
    → contains r (map (λ (row : HeadRow). row.revision_id) rows) ≡ true
    → (o : Uuid) × (has_head o r rows ≡ true)
head_of_contains r [] h = cc
head_of_contains r (row ∷ rows) h = elim (Bool-cases (r == row.revision_id)) [
  | inl here ↦ (row.object_id, ground (arith, here))
  | inr there ↦
      let (o, found) = head_of_contains r rows (ground (arith, h, there)) in
      (o, ground (arith, found))
]

module _ {V : Type 0} where
  abbrev pub has_row : Uuid → List (RevisionRow V) → Bool
  has_row r = any (λ (row : RevisionRow V). r == row.id)

  -- An order in which the database returns rows.
  abbrev pub Reorders : (List (RevisionRow V) → List (RevisionRow V)) → Type 0
  Reorders order =
      (rows : List (RevisionRow V)) (r : Uuid) → has_row r (order rows) ≡ has_row r rows

  has_row-keep :
      (r : Uuid) (ids : List Uuid) (rows : List (RevisionRow V))
      → has_row r (keep (λ (row : RevisionRow V). contains row.id ids) rows)
        ≡ (has_row r rows && contains r ids)
  has_row-keep r ids [] = refl
  has_row-keep r ids (row ∷ rows) = ground (arith, has_row-keep r ids rows)

  has_row-object_of :
      (r : Uuid) (rows : List (RevisionRow V))
      → has_row r rows ≡ (elim (object_of r rows) as (λ _. Bool) [ none ↦ false | some _ ↦ true ])
  has_row-object_of r [] = refl
  has_row-object_of r (row ∷ rows) = ground (arith, has_row-object_of r rows)

  leaf-has_row : (o r : Uuid) (t : Tables V) → is_leaf o r t ≡ true → has_row r t.revisions ≡ true
  leaf-has_row o r t h = ground (arith, h, has_row-object_of r t.revisions)

  ids_of-rows :
      (r : Uuid) (null : V) (m : List (Uuid × List Uuid)) (rows : List (RevisionRow V))
      → contains r (
          ids_of (
            map
              (λ (row : RevisionRow V). row_to_revision_sync row null (parents_in row.id m))
              rows))
        ≡ has_row r rows
  unfolding row_to_revision_sync
  ids_of-rows r null m [] = refl
  ids_of-rows r null m (row ∷ rows) = ap (λ b. r == row.id || b) (ids_of-rows r null m rows)

  -- What is read for these ids.
  run-read_revisions :
      (order : List (RevisionRow V) → List (RevisionRow V)) (null : V) (ids : List Uuid)
      (t : Tables V)
      → Reorders order
      → (revs : List (Revision V)) × (run (read_revisions order null ids) (idle t)
          ≡ (ok revs, idle t))
        × ((r : Uuid) → contains r (ids_of revs) ≡ (has_row r t.revisions && contains r ids))
  unfolding read_revisions run get_revision_rows_by_ids
  run-read_revisions order null ids t f =
      let kept = keep (λ (row : RevisionRow V). contains row.id ids) t.revisions in
      let rows : List (RevisionRow V) = order kept in
      let (m, ran) =
        batch_then (List (Revision V))
          (λ parents_map.
            map
              (λ (row : RevisionRow V).
                row_to_revision_sync row null (parents_in row.id parents_map))
              rows)
          (map (λ (row : RevisionRow V). row.id) rows) t in
      (_, ran, λ r. ids_of-rows r null m rows ∙ f kept r ∙ has_row-keep r ids t.revisions)

module _ {V : Type 0} (json : Json V) (planner : Planner)
    (order : List (RevisionRow V) → List (RevisionRow V)) (o : Uuid) (t : Tables V) where
  head_ids : List Uuid
  head_ids =
      map (λ (row : HeadRow). row.revision_id)
        (planner.heads (keep (λ (row : HeadRow). o == row.object_id) t.object_heads))

  head_ids-leaves :
      IsFaithful planner → IsValid t → (r : Uuid) → contains r head_ids ≡ is_leaf o r t
  unfolding head_ids
  head_ids-leaves f v r =
      let kept = keep (λ (row : HeadRow). o == row.object_id) t.object_heads in
      let listed = λ (x : Uuid). f.heads_kept kept x r ∙ has_head-of_object o x r t.object_heads in
      elim (Bool-cases (is_leaf o r t)) [
        | inl leaf ↦
            has_head-contains o r (planner.heads kept)
              (ground (arith, listed o, leaf, v.heads_are_leaves o r))
            ∙ sym leaf
        | inr other ↦ elim (Bool-cases (contains r head_ids)) [
          | inr absent ↦ absent ∙ sym other
          | inl present ↦
              let (x, found) = head_of_contains r (planner.heads kept) present in
              absurd (ground (arith, found, listed x, other, v.heads_are_leaves o r))
        ]
      ]

  -- An answer for the object: none if it has no leaf, or all its leaves.
  abbrev pub AnswersLeaves : Result ServerError (ObjectUpdate V) × Session V → Type 0
  AnswersLeaves answer =
      (((r : Uuid) → is_leaf o r t ≡ false) × (answer ≡ (err not_found, idle t)))
      ⊎ ((update : ObjectUpdate V) × (answer ≡ (ok update, idle t))
          × (update.object_id ≡ o)
          × ((r : Uuid) → contains r (ids_of update.heads) ≡ is_leaf o r t))

  answer_of_heads :
      (ids : List Uuid)
      → Reorders order
      → ((r : Uuid) → contains r ids ≡ is_leaf o r t)
      → AnswersLeaves (run (object_of_heads json order o ids) (idle t))
  unfolding run
  answer_of_heads [] f leaves = inl (λ r. sym (leaves r), refl)
  answer_of_heads (h ∷ ids) f leaves =
      let (revs, ran, read) = run-read_revisions order json.null_value (h ∷ ids) t f in
      let reading = read_revisions order json.null_value (h ∷ ids) in
      inr (
        record { object_id = o; action = action_for (length revs); heads = revs },
        rw (run->>= (from_sql reading), run-from_sql reading (idle t), ran) refl,
        refl,
        λ r. read r ∙ ground (arith, leaves r, leaf-has_row o r t),
      )

  run-get_object :
      run (get_object json planner order o) (idle t)
      ≡ run (object_of_heads json order o head_ids) (idle t)
  unfolding get_object get_heads run head_ids
  run-get_object = refl

  -- If the database returns the rows of a query in some order, the answer for an object of valid tables is that
  -- it is not found if it has no leaf, and otherwise an update with exactly its leaves. The tables stay.
  pub get_object-leaves :
      IsFaithful planner
      → IsValid t
      → Reorders order
      → AnswersLeaves (run (get_object json planner order o) (idle t))
  get_object-leaves f v reorders =
      subst AnswersLeaves (sym run-get_object)
        (answer_of_heads head_ids reorders (head_ids-leaves f v))
