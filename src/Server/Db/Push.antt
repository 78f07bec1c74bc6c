-- ===== src/Server/Db/Push.antt =====
-- rustend-server/src/db/push.rs: the revisions of a request are judged one by one against the
-- tables and those accepted before them, and then those accepted are written in one transaction.
use rustend.Prelude.{
  ◌==◌, if◌then◌else◌, not, Bool, Option, none, some, List, [], ◌∷◌, ◌++◌, keep, length, contains,
  insert, to_set, put, lookup,
}
use rustend.Core.Ids.{ObjectId, RevisionId, ClientId, TransactionId, Instant}
use rustend.Core.Lineage.{parents}
use rustend.Core.Revision.{Revision}
use rustend.Core.Protocol.{
  RejectionReason, duplicate_revision_id, unknown_parent, malformed_data, RejectedRevision,
  PushResponse,
}
use rustend.Server.Error.{SqlError, ServerError}
use rustend.Server.Sql.{Db, ret, begin, commit, ◌>>=◌, ◌>>◌, from_sql}
use rustend.Server.Db.Revisions.{revision_exists, get_revision_object_id, insert_revision}
use rustend.Server.Db.ObjectHeads.{update_heads}
use rustend.Server.Db.Transactions.{create_transaction}
pub mod Judge
pub mod Atomicity
pub mod Write
pub mod Accepted
pub mod Duplicates
pub mod Correct
pub mod Validity
pub mod Reasons
pub mod Answers
pub mod Judged
pub mod Ready
pub mod Written
pub mod Concurrent
pub mod Steps

-- The local variables of the loop.
pub record Verdicts : Type 0 where
  pub accepted : List RevisionId
  pub rejected : List RejectedRevision
  pub accepted_ids : List RevisionId
  pub accepted_objects : List (RevisionId × ObjectId)

abbrev pub no_verdicts : Verdicts
no_verdicts = record { accepted = []; rejected = []; accepted_ids = []; accepted_objects = [] }

module _ {V : Type 0} where
  abbrev pub reject : Revision V → RejectionReason → Verdicts → Verdicts
  reject rev reason s = record s {
    rejected = s.rejected ++ (record { revision_id = rev.id; reason = reason } ∷ []);
  }

  abbrev pub accept : Revision V → Verdicts → Verdicts
  accept rev s = record s {
    accepted = s.accepted ++ (rev.id ∷ []);
    accepted_ids = insert rev.id s.accepted_ids;
    accepted_objects = put rev.id rev.object_id s.accepted_objects;
  }

  -- The object of a parent, from the batch or from the database.
  parent_object_id : List (RevisionId × ObjectId) → RevisionId → Db V SqlError (Option ObjectId)
  parent_object_id objects parent_id = elim (lookup parent_id objects) [
    | some oid ↦ ret (some oid)
    | none ↦ get_revision_object_id parent_id
  ]

  -- The `match` on a parent's object; `others` is the rest of the loop.
  after_parent :
      ObjectId
      → Db V SqlError (Option RejectionReason)
      → Option ObjectId
      → Db V SqlError (Option RejectionReason)
  after_parent object_id others none = ret (some unknown_parent)
  after_parent object_id others (some oid) =
      if oid == object_id then others else ret (some malformed_data)

  -- The loop over the parents, to its `break`: the reason to reject, `none` if all are valid.
  check_parents :
      List (RevisionId × ObjectId)
      → ObjectId
      → List RevisionId
      → Db V SqlError (Option RejectionReason)
  check_parents objects object_id [] = ret none
  check_parents objects object_id (parent_id ∷ rest) = do
    let others = check_parents objects object_id rest
    found ← parent_object_id objects parent_id
    after_parent object_id others found

  abbrev pub conclude : Revision V → Option RejectionReason → Verdicts → Verdicts
  conclude rev (some reason) s = reject rev reason s
  conclude rev none s = accept rev s

  -- The body of the loop over the request's revisions, from the test on the parents' number.
  judge_lineage : Revision V → Verdicts → Db V SqlError Verdicts
  judge_lineage rev s =
      if not (length (to_set (parents rev.lineage)) == length (parents rev.lineage))
      then ret (reject rev malformed_data s)
      else (do
        verdict ← check_parents s.accepted_objects rev.object_id (parents rev.lineage)
        ret (conclude rev verdict s))

  -- The whole body of that loop.
  pub judge : ClientId → Revision V → Verdicts → Db V SqlError Verdicts
  judge client_id rev s =
      if not (rev.created_by == client_id) then ret (reject rev malformed_data s) else (do
        exists ← revision_exists rev.id
        if exists then ret (reject rev duplicate_revision_id s) else judge_lineage rev s)

  pub judge_all : ClientId → List (Revision V) → Verdicts → Db V SqlError Verdicts
  judge_all client_id [] s = ret s
  judge_all client_id (rev ∷ revisions) s = do
    s' ← judge client_id rev s
    judge_all client_id revisions s'

  -- The loop inside the transaction.
  pub write_all : List (Revision V) → Db V SqlError (Unit {0})
  write_all [] = ret tt
  write_all (rev ∷ revisions) = do
    insert_revision rev
    update_heads rev.object_id (parents rev.lineage) rev.id
    write_all revisions

  -- What follows `pool.begin()`, to `tx.commit()`.
  pub write_body :
      Instant → ClientId → List (Revision V) → List RevisionId → Db V SqlError TransactionId
  write_body now client_id revisions accepted = do
    write_all revisions
    transaction_id ← create_transaction now client_id accepted
    commit (ret transaction_id)

  pub store : Instant → ClientId → List (Revision V) → List RevisionId → Db V SqlError TransactionId
  unfolding write_body
  store now client_id revisions accepted = begin (write_body now client_id revisions accepted)

  abbrev pub is_accepted : Verdicts → Revision V → Bool
  is_accepted s rev = contains rev.id s.accepted_ids

  pub respond : Instant → ClientId → Verdicts → List (Revision V) → Db V SqlError PushResponse
  respond now client_id s [] =
      ret (record { transaction_id = 0; accepted = s.accepted; rejected = s.rejected })
  respond now client_id s (rev ∷ revisions) = do
    transaction_id ← store now client_id (rev ∷ revisions) s.accepted
    ret (record { transaction_id = transaction_id; accepted = s.accepted; rejected = s.rejected })

  -- `now` is `Utc::now()` at the end of the transaction.
  unfoldable pub push_revisions :
      Instant → ClientId → List (Revision V) → Db V ServerError PushResponse
  unfolding parent_object_id after_parent check_parents judge_lineage judge judge_all write_all
      store respond
  push_revisions now client_id revisions = from_sql (do
    s ← judge_all client_id revisions no_verdicts
    respond now client_id s (keep (is_accepted s) revisions))
