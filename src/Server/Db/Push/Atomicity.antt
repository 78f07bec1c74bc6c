-- ===== src/Server/Db/Push/Atomicity.antt =====
-- push.rs: which statements of a push write, and what broken connections can leave of one.
use rustend.Prelude.{
  refl, Option-cases, inl, inr, lookup, ◌==◌, Option, none, some, List, [], ◌∷◌, not, keep, length,
  to_set,
}
use rustend.Core.Ids.{ObjectId, RevisionId, ClientId, Instant}
use rustend.Core.Lineage.{parents}
use rustend.Core.Revision.{Revision}
use rustend.Core.Protocol.{RejectionReason, malformed_data, duplicate_revision_id}
use rustend.Server.Error.{SqlError, database, connection}
use rustend.Server.Tables.{Tables}
use rustend.Server.Sql.{idle, run, run_under, Fate, Db, ret, ◌>>=◌}
use rustend.Server.Sql.Shape.{
  ReadOnly, Plain, Commits, Atomic, >>=-ReadOnly, >>=-Plain, >>=-Commits, >>=-Commits_then,
  >>=-Atomic, if-ReadOnly, LeavesOr, run_under-Atomic, from_sql-Atomic,
}
use rustend.Server.Db.Revisions.{revision_exists, get_revision_object_id, insert_revision}
use rustend.Server.Db.Revisions.Statements.{insert_revision-Plain}
use rustend.Server.Db.ObjectHeads.{update_heads}
use rustend.Server.Db.ObjectHeads.Statements.{update_heads-Plain}
use rustend.Server.Db.Transactions.{create_transaction}
use rustend.Server.Db.Transactions.Statements.{create_transaction-Plain}
use rustend.Server.Db.Push.{
  Verdicts, no_verdicts, is_accepted, parent_object_id, check_parents, judge_lineage, judge, reject,
  after_parent, judge_all, write_all, write_body, store, respond, push_revisions,
}

module _ (V : Type 0) where
  parent_object_id-ReadOnly :
      (objects : List (RevisionId × ObjectId)) (p : RevisionId)
      → ReadOnly (parent_object_id {V = V} objects p)
  unfolding parent_object_id get_revision_object_id
  parent_object_id-ReadOnly objects p = elim (Option-cases (lookup p objects)) [
    | inl absent ↦ rw (absent, parent_object_id) (λ _. refl, λ _. tt)
    | inr (oid, found) ↦ rw (found, parent_object_id) tt
  ]

  revision_exists-ReadOnly : (r : RevisionId) → ReadOnly (revision_exists {V = V} r)
  unfolding revision_exists
  revision_exists-ReadOnly r = (λ _. refl, λ _. tt)

  after_parent-ReadOnly :
      (o : ObjectId) (others : Db V SqlError (Option RejectionReason)) (found : Option ObjectId)
      → ReadOnly others
      → ReadOnly (after_parent o others found)
  unfolding after_parent
  after_parent-ReadOnly o others none h = tt
  after_parent-ReadOnly o others (some oid) h = if-ReadOnly (oid == o) others _ h tt

  check_parents-ReadOnly :
      (objects : List (RevisionId × ObjectId)) (o : ObjectId) (ps : List RevisionId)
      → ReadOnly (check_parents {V = V} objects o ps)
  unfolding check_parents
  check_parents-ReadOnly objects o [] = tt
  check_parents-ReadOnly objects o (p ∷ ps) =
      >>=-ReadOnly (parent_object_id objects p) _ (parent_object_id-ReadOnly objects p) λ found.
        after_parent-ReadOnly o (check_parents objects o ps) found
          (check_parents-ReadOnly objects o ps)

module _ {V : Type 0} where
  judge_lineage-ReadOnly : (rev : Revision V) (s : Verdicts) → ReadOnly (judge_lineage rev s)
  unfolding judge_lineage
  judge_lineage-ReadOnly rev s =
      if-ReadOnly (not (length (to_set (parents rev.lineage)) == length (parents rev.lineage))) _ _
        tt
        (>>=-ReadOnly (check_parents s.accepted_objects rev.object_id (parents rev.lineage)) _
          (check_parents-ReadOnly V s.accepted_objects rev.object_id (parents rev.lineage))
          (λ _. tt))

  judge-ReadOnly : (c : ClientId) (rev : Revision V) (s : Verdicts) → ReadOnly (judge c rev s)
  unfolding judge
  judge-ReadOnly c rev s =
      if-ReadOnly (not (rev.created_by == c)) (ret (reject rev malformed_data s)) _ tt (
        >>=-ReadOnly (revision_exists rev.id) _ (revision_exists-ReadOnly V rev.id) λ exists.
          if-ReadOnly exists (ret (reject rev duplicate_revision_id s)) (judge_lineage rev s) tt
            (judge_lineage-ReadOnly rev s))

  judge_all-ReadOnly :
      (c : ClientId) (revisions : List (Revision V)) (s : Verdicts)
      → ReadOnly (judge_all c revisions s)
  unfolding judge_all
  judge_all-ReadOnly c [] s = tt
  judge_all-ReadOnly c (rev ∷ revisions) s =
      >>=-ReadOnly (judge c rev s) _ (judge-ReadOnly c rev s)
        (λ s'. judge_all-ReadOnly c revisions s')

  pub write_all-Plain : (revisions : List (Revision V)) → Plain (write_all revisions)
  unfolding write_all
  write_all-Plain [] = tt
  write_all-Plain (rev ∷ revisions) =
      >>=-Plain (insert_revision rev) _ (insert_revision-Plain rev) λ _.
        >>=-Plain (update_heads rev.object_id (parents rev.lineage) rev.id) _
          (update_heads-Plain V rev.object_id (parents rev.lineage) rev.id)
          (λ _. write_all-Plain revisions)

  write_body-Commits :
      (now : Instant) (c : ClientId) (revisions : List (Revision V)) (ids : List RevisionId)
      → Commits (write_body now c revisions ids)
  unfolding write_body
  write_body-Commits now c revisions ids =
      >>=-Commits (write_all revisions) _ (write_all-Plain revisions) λ _.
        >>=-Commits (create_transaction now c ids) _ (create_transaction-Plain V now c ids)
          (λ _. tt)

  respond-Atomic :
      (now : Instant) (c : ClientId) (s : Verdicts) (revisions : List (Revision V))
      → Atomic (respond now c s revisions)
  unfolding respond store
  respond-Atomic now c s [] = tt
  respond-Atomic now c s (rev ∷ revisions) =
      >>=-Commits_then (write_body now c (rev ∷ revisions) s.accepted) _
        (write_body-Commits now c (rev ∷ revisions) s.accepted) (λ _. tt)

  push_revisions-Atomic :
      (now : Instant) (c : ClientId) (revisions : List (Revision V))
      → Atomic (push_revisions now c revisions)
  unfolding push_revisions
  push_revisions-Atomic now c revisions =
      from_sql-Atomic (judge_all c revisions no_verdicts >>= _) (
        >>=-Atomic (judge_all c revisions no_verdicts) _
          (judge_all-ReadOnly c revisions no_verdicts)
          (λ s. respond-Atomic now c s (keep (is_accepted s) revisions)))

  -- Whatever becomes of the messages of a push, it leaves the tables as they were, but for an id
  -- that the sequence gave out, or as the same push leaves them that loses no message.
  pub push_revisions_atomic :
      (now : Instant) (c : ClientId) (revisions : List (Revision V)) (fates : List Fate)
      (t : Tables V)
      → LeavesOr t
          (run_under (database connection) (push_revisions now c revisions) fates (idle t)).1.tables
          (run (push_revisions now c revisions) (idle t)).1.tables
  push_revisions_atomic now c revisions fates t =
      run_under-Atomic (database connection) (push_revisions now c revisions) fates t
        (push_revisions-Atomic now c revisions)
