-- ===== src/Client/Repository/Resume.antt =====
-- repository.rs: `sync`, which pulls from the last transaction that was pulled unless it is told otherwise.
use rustend.Prelude.{Option, none, some}
use rustend.Core.Protocol.{PullRequest, PullResponse, PushRequest, PushResponse}
use rustend.Core.Outcome.{Result}
use rustend.Client.Error.{ClientError}
use rustend.Client.Store.{Local}
use rustend.Client.Sync.{SyncResult}
use rustend.Client.Sync

module _ {V : Type 0} where
  abbrev pub with_since : PullRequest V → Local V → PullRequest V
  with_since pull_params l = elim pull_params.since [
    | none ↦ record pull_params { since = l.sync_state.last_server_txn_id }
    | some _ ↦ pull_params
  ]

  unfoldable pub sync :
      (PushRequest V → Option PushResponse)
      → (PullRequest V → Option (PullResponse V))
      → PullRequest V
      → Local V
      → Result ClientError SyncResult × Local V
  unfolding Sync.sync
  sync changes query pull_params l = Sync.sync changes query (with_since pull_params l) l
