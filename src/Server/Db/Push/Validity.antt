-- ===== src/Server/Db/Push/Validity.antt =====
-- push.rs: the tables stay valid, whatever is pushed and whatever becomes of the messages.
use native.Mathlib.Nat.{le_trans}
use mathlib.Core.Path.{subst}
use rustend.Prelude.{◌≤◌, true, List, [], ◌∷◌, Distinct-cases, ◌≡◌, inl, inr, ap, sym, arith}
use rustend.Core.Ids.{ClientId, Instant}
use rustend.Core.Revision.{Revision}
use rustend.Server.Error.{database, connection}
use rustend.Server.Tables.{Tables, has_client}
use rustend.Server.Tables.Valid.{IsValid}
use rustend.Server.Sql.{idle, run, run_under, Fate, rolled_back}
use rustend.Server.Db.Transactions.{i64_max}
use rustend.Server.Db.Transactions.Statements.{with_batch-IsValid}
use rustend.Server.Db.Push.{Verdicts, push_revisions}
use rustend.Server.Db.Push.Write.{Chain, all_added, all_added-IsValid}
use rustend.Server.Db.Push.Accepted.{ids}
use rustend.Server.Db.Push.Atomicity.{push_revisions_atomic}
use rustend.Server.Db.Push.Correct.{
  decided, written, outcome, decided_facts, push_revisions_total, push_revisions_duplicate,
}

module _ {V : Type 0} where
  pub outcome-IsValid :
      (now : Instant) (c : ClientId) (t : Tables V) (s : Verdicts) (revisions : List (Revision V))
      → IsValid t
      → Chain t revisions
      → IsValid (outcome now c t s revisions)
  outcome-IsValid now c t s [] v chain = v
  outcome-IsValid now c t s (rev ∷ revisions) v chain =
      with_batch-IsValid now c s.accepted (all_added t (rev ∷ revisions))
        (all_added-IsValid (rev ∷ revisions) t v chain)

  pub rolled_back-IsValid :
      (t left : Tables V)
      → IsValid t
      → t.transactions_id_seq ≤ left.transactions_id_seq
      → IsValid (rolled_back t left)
  rolled_back-IsValid t left v q = record {
    parents_stored = v.parents_stored;
    heads_are_leaves = v.heads_are_leaves;
    ids_given = λ i h. ground (arith, v.ids_given i);
    seq_started = le_trans v.seq_started q;
    transactions_stored = v.transactions_stored;
  }

  run-push_revisions-IsValid :
      (now : Instant) (c : ClientId) (revisions : List (Revision V)) (t : Tables V)
      → IsValid t
      → has_client c t.clients ≡ true
      → t.transactions_id_seq ≤ i64_max
      → IsValid (run (push_revisions now c revisions) (idle t)).1.tables
  run-push_revisions-IsValid now c revisions t v registered room =
      elim (Distinct-cases (ids (written t c revisions))) [
        | inl d ↦ rw (push_revisions_total now c revisions t v registered room d) (
            outcome-IsValid now c t (decided t c revisions) (written t c revisions) v
              (decided_facts t c revisions registered d).0)
        | inr again ↦
            let left : Tables V = (run (push_revisions now c revisions) (idle t)).1.tables in
            let undone = (push_revisions_duplicate now c revisions t again).2 in
            subst IsValid (sym (ap (λ s. s.tables) undone.0))
              (rolled_back-IsValid t left v undone.1)
      ]

  -- Whatever is pushed and whatever becomes of its messages, valid tables that know the pusher and
  -- have an id left stay valid. In particular the heads of each object are its leaves.
  pub push_revisions-IsValid :
      (now : Instant) (c : ClientId) (revisions : List (Revision V)) (fates : List Fate)
      (t : Tables V)
      → IsValid t
      → has_client c t.clients ≡ true
      → t.transactions_id_seq ≤ i64_max
      → IsValid
          (run_under (database connection) (push_revisions now c revisions) fates (idle t)).1.tables
  push_revisions-IsValid now c revisions fates t v registered room =
      let left : Tables V =
        (run_under (database connection) (push_revisions now c revisions) fates
          (idle t)).1.tables in
      elim (push_revisions_atomic now c revisions fates t) [
        | inl (undone, q) ↦ subst IsValid (sym undone) (rolled_back-IsValid t left v q)
        | inr same ↦
            subst IsValid (sym same)
              (run-push_revisions-IsValid now c revisions t v registered room)
      ]
