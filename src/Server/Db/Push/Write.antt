-- ===== src/Server/Db/Push/Write.antt =====
-- push.rs, the loop inside the transaction: revisions that fit are written, and the tables stay
-- valid.
use rustend.Prelude.{
  ◌==◌, ◌&&◌, ◌||◌, not, true, none, some, List, [], ◌∷◌, contains, or_else, if◌then◌else◌, map,
  ◌⊎◌, ◌≡◌, ◌≢◌, refl, arith, ◌∙◌,
}
use rustend.Core.Ids.{Uuid, RevisionId}
use rustend.Core.Lineage.{parents}
use rustend.Core.Revision.{Revision}
use rustend.Server.Tables.{Tables, ParentRow, object_of, has_parent_row, has_head}
use rustend.Server.Tables.Laws.{has_parent_row-append, is_parent-append}
use rustend.Server.Tables.Valid.{IsValid, is_parent, is_leaf, is_parent_stored}
use rustend.Server.Sql.{ok, Session, run}
use rustend.Server.Sql.Laws.{run->>=}
use rustend.Server.Db.Revisions.{insert_revision}
use rustend.Server.Db.Revisions.Statements.{
  parent_rows, is_parent-parent_rows, has_parent_row-parent_rows,
}
use rustend.Server.Db.Revisions.Insert.{
  Fits, with_tables, with_revision, run-insert_revision, object_of-with_row,
}
use rustend.Server.Db.ObjectHeads.{update_heads, without_heads}
use rustend.Server.Db.ObjectHeads.Statements.{
  with_heads, run-update_heads, has_head-without_heads, has_head-with_head,
}
use rustend.Server.Db.Push.{write_all}

module _ {V : Type 0} where
  -- The tables after one round of the loop.
  abbrev pub added : Tables V → Revision V → Tables V
  added t rev = with_heads (with_revision t rev) rev.object_id (parents rev.lineage) rev.id

  pub object_of-added :
      (rev : Revision V) (t : Tables V) (r : RevisionId)
      → object_of r (added t rev).revisions
        ≡ or_else (object_of r t.revisions) (if r == rev.id then some rev.object_id else none)
  object_of-added rev t r = object_of-with_row rev t r

  abbrev new_rows : Revision V → List ParentRow
  new_rows rev = parent_rows rev.id 0 (parents rev.lineage)

  has_parent_row-added :
      (rev : Revision V) (t : Tables V) (r p : RevisionId)
      → has_parent_row r p (added t rev).revision_parents ≡ (
          has_parent_row r p t.revision_parents
          || (r == rev.id && contains p (parents rev.lineage)))
  has_parent_row-added rev t r p =
      has_parent_row-append r p t.revision_parents (new_rows rev) ∙ rw has_parent_row-parent_rows

  is_parent-added :
      (rev : Revision V) (t : Tables V) (p : RevisionId)
      → is_parent p (added t rev).revision_parents
        ≡ (is_parent p t.revision_parents || contains p (parents rev.lineage))
  is_parent-added rev t p =
      is_parent-append p t.revision_parents (new_rows rev) ∙ rw is_parent-parent_rows

  pub has_head-added :
      (rev : Revision V) (t : Tables V) (o r : Uuid)
      → has_head o r (added t rev).object_heads ≡ (
          has_head o r t.object_heads
            && not (o == rev.object_id && contains r (parents rev.lineage))
          || (o == rev.object_id && r == rev.id))
  has_head-added rev t o r =
      has_head-with_head o r rev.object_id rev.id
        (without_heads rev.object_id (parents rev.lineage) t.object_heads)
      ∙ rw has_head-without_heads

  module _ (rev : Revision V) (t : Tables V) (v : IsValid t) (f : Fits t rev) where
    added-parents_stored :
        (r p : Uuid)
        → has_parent_row r p (added t rev).revision_parents ≡ true
        → (object_of p (added t rev).revisions ≢ none)
          × (object_of r (added t rev).revisions ≡ object_of p (added t rev).revisions)
    added-parents_stored r p h = ground (
      arith,
      object_of-added rev t p,
      object_of-added rev t r,
      has_parent_row-added rev t r p,
      v.parents_stored r p,
      f.known p,
      f.fresh,
    )

    added-heads_are_leaves :
        (o r : Uuid) → has_head o r (added t rev).object_heads ≡ is_leaf o r (added t rev)
    added-heads_are_leaves o r = ground (
      arith,
      object_of-added rev t r,
      is_parent-added rev t r,
      has_head-added rev t o r,
      v.heads_are_leaves o r,
      is_parent_stored v r,
      f.known r,
      f.fresh,
    )

    pub added-IsValid : IsValid (added t rev)
    added-IsValid = record {
      parents_stored = added-parents_stored;
      heads_are_leaves = added-heads_are_leaves;
      ids_given = v.ids_given;
      seq_started = v.seq_started;
      transactions_stored = v.transactions_stored;
    }

module _ {V : Type 0} where
  -- Each revision fits the tables that the ones before it leave.
  abbrev pub Chain : Tables V → List (Revision V) → Type 0
  Chain t [] = Unit
  Chain t (rev ∷ revisions) = Fits t rev × Chain (added t rev) revisions

  abbrev pub all_added : Tables V → List (Revision V) → Tables V
  all_added t [] = t
  all_added t (rev ∷ revisions) = all_added (added t rev) revisions

  pub all_added-IsValid :
      (revisions : List (Revision V)) (t : Tables V)
      → IsValid t
      → Chain t revisions
      → IsValid (all_added t revisions)
  all_added-IsValid [] t v h = v
  all_added-IsValid (rev ∷ revisions) t v h =
      all_added-IsValid revisions (added t rev) (added-IsValid rev t v h.0) h.1

  -- Writing a revision changes neither the clients nor what is known of transactions.
  pub all_added_rest :
      (revisions : List (Revision V)) (t : Tables V)
      → ((all_added t revisions).clients ≡ t.clients)
        × ((all_added t revisions).transactions_id_seq ≡ t.transactions_id_seq)
        × ((all_added t revisions).transactions ≡ t.transactions)
        × ((all_added t revisions).transaction_revisions ≡ t.transaction_revisions)
  all_added_rest [] t = (refl, refl, refl, refl)
  all_added_rest (rev ∷ revisions) t = all_added_rest revisions (added t rev)

  pub all_added-stored :
      (revisions : List (Revision V)) (t : Tables V) (r : RevisionId)
      → (contains r (map (λ (rev : Revision V). rev.id) revisions) ≡ true)
        ⊎ (object_of r t.revisions ≢ none)
      → object_of r (all_added t revisions).revisions ≢ none
  all_added-stored [] t r h = ground arith
  all_added-stored (rev ∷ revisions) t r h =
      all_added-stored revisions (added t rev) r (ground (arith, object_of-added rev t r))

  pub run-write_all :
      (revisions : List (Revision V)) (s : Session V)
      → IsValid s.tables
      → Chain s.tables revisions
      → run (write_all revisions) s ≡ (ok tt, with_tables s (all_added s.tables revisions))
  unfolding write_all run
  run-write_all [] s v h = refl
  run-write_all (rev ∷ revisions) s v h =
      rw
        (
          run->>= (insert_revision rev),
          run-insert_revision rev s v h.0,
          run->>= (update_heads rev.object_id (parents rev.lineage) rev.id),
          run-update_heads rev.object_id (parents rev.lineage) rev.id {o' = rev.object_id}
              (with_tables s (with_revision s.tables rev))
              (object_of-added rev s.tables rev.id ∙ rw h.0.fresh (ground arith)),
        )
        (run-write_all revisions (with_tables s (added s.tables rev))
          (added-IsValid rev s.tables v h.0) h.1)
