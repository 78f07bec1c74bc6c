-- ===== src/Client/Sync/Whole.antt =====
-- sync.rs and the server together: a push of what is pending, and a pull from the tables that it leaves.
use rustend.Prelude.{ℕ, ◌+◌, ◌≤◌, List, [], ◌∷◌, map, keep, ◌≡◌}
use rustend.Core.Ids.{ClientId, Instant}
use rustend.Core.Json.{Json}
use rustend.Core.Revision.{Revision}
use rustend.Core.Outcome.{ok}
use rustend.Core.Protocol.{RejectedRevision}
use rustend.Server.Error.{database, connection}
use rustend.Server.Tables.{Tables}
use rustend.Server.Tables.Valid.{IsValid}
use rustend.Server.Sql.{idle, run_under}
use rustend.Server.Db.Push.{push_revisions}
use rustend.Client.Store.{Local, RevisionRecord, is_pending, revision_of, get_pending_revisions}
use rustend.Client.Sync.{push_these}
use rustend.Client.Sync
use rustend.Client.Sync.Pushed.{served}

module _ {V : Type 0} where
  abbrev keep_pending : List (RevisionRecord V) → List (RevisionRecord V)
  keep_pending = keep (λ (r : RevisionRecord V). is_pending r.sync_status)

  -- The server's tables after the client's push.
  abbrev tables_of : Instant → ClientId → Tables V → List (RevisionRecord V) → Tables V
  tables_of now c t [] = t
  tables_of now c t (r ∷ pending) =
      (run_under (database connection) (push_revisions now c (map revision_of (r ∷ pending))) []
        (idle t)).1.tables

  abbrev pub tables_after : Instant → ClientId → Tables V → Local V → Tables V
  tables_after now c t l = tables_of now c t (get_pending_revisions l)

  -- A push that the server answers.
  record Answered (now : Instant) (c : ClientId) (t : Tables V) (rs : List (RevisionRecord V))
      (l : Local V) : Type 0 where
    counts : ℕ × List RejectedRevision
    after : Local V
    made : push_these (served now c [] t) rs l ≡ (ok counts, after)
    heads_kept : after.object_heads ≡ l.object_heads
    state_kept : after.sync_state ≡ l.sync_state
    valid : IsValid (tables_of now c t rs)
    room : (tables_of now c t rs).transactions_id_seq ≤ t.transactions_id_seq + 1
