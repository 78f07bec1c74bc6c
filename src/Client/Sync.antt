-- ===== src/Client/Sync.antt =====
-- rustend-client/src/sync.rs: a push of what is pending and a pull of what others changed. The server
-- is a function from requests to responses, `none` for a failed exchange.
pub mod Pulled
pub mod Pushed
pub mod Arrived
pub mod Converged
pub mod Whole
use rustend.Prelude.{
  ℕ, ◌+◌, if◌then◌else◌, not, Bool, ◌&&◌, Option, none, some, List, [], ◌∷◌, ◌++◌, map, any,
  contains, length,
}
use rustend.Core.Ids.{RevisionId, TransactionId}
use rustend.Core.Lineage.{parents}
use rustend.Core.Revision.{Revision}
use rustend.Core.Protocol.{
  HeadAction, replace, conflict, ObjectUpdate, PullResponse, PullRequest, PushRequest, PushResponse,
  RejectedRevision,
}
use rustend.Core.Outcome.{Result, ok, err}
use rustend.Client.Store.{
  HeadRecord, RevisionRecord, Local, SyncState, synced, from_revision, revision_of, put_revision,
  get_pending_revisions, mark_revision_synced, mark_revision_error, get_heads, replace_heads,
  add_heads, write_sync_state,
}
use rustend.Client.Error.{ClientError, network}

pub record SyncResult : Type 0 where
  pub pushed : ℕ
  pub pulled : ℕ
  pub conflicted : ℕ
  pub rejected : List RejectedRevision

module _ {V : Type 0} where
  abbrev mark_accepted : List RevisionId → Local V → Local V
  mark_accepted [] l = l
  mark_accepted (id ∷ ids) l = mark_accepted ids (mark_revision_synced id l)

  abbrev mark_rejected : List RejectedRevision → Local V → Local V
  mark_rejected [] l = l
  mark_rejected (r ∷ rs) l = mark_rejected rs (mark_revision_error r.revision_id r.reason l)

  abbrev after_push :
      Option PushResponse → Local V → Result ClientError (ℕ × List RejectedRevision) × Local V
  after_push none l = (err network, l)
  after_push (some resp) l = (
    ok (length resp.accepted, resp.rejected),
    mark_rejected resp.rejected (mark_accepted resp.accepted l),
  )

  abbrev push_these :
      (PushRequest V → Option PushResponse)
      → List (RevisionRecord V)
      → Local V
      → Result ClientError (ℕ × List RejectedRevision) × Local V
  push_these server [] l = (ok (0, []), l)
  push_these server (r ∷ pending) l =
      after_push (server (record { revisions = map revision_of (r ∷ pending) })) l

  unfoldable pub push_pending :
      (PushRequest V → Option PushResponse)
      → Local V
      → Result ClientError (ℕ × List RejectedRevision) × Local V
  push_pending server l = push_these server (get_pending_revisions l) l

  -- The loop that stores an update's heads.
  abbrev put_synced : List (Revision V) → Local V → Local V
  put_synced [] l = l
  put_synced (rev ∷ heads) l = put_synced heads (put_revision (from_revision rev synced) l)

  abbrev pub revision_ids : List (Revision V) → List RevisionId
  revision_ids = map (λ (rev : Revision V). rev.id)

  -- The `flat_map` of the parents.
  pub superseded_ids : List (Revision V) → List RevisionId
  unfolding parents
  superseded_ids [] = []
  superseded_ids (rev ∷ heads) = parents rev.lineage ++ superseded_ids heads

  pub has_diverged : List (Revision V) → List (HeadRecord V) → Bool
  unfolding superseded_ids
  has_diverged heads = any λ (h : HeadRecord V).
      not (contains h.revision_id (revision_ids heads))
      && not (contains h.revision_id (superseded_ids heads))

  -- The `match` on an update's action: the store, and what it adds to `conflicted`.
  abbrev act : HeadAction → ObjectUpdate V → Local V → Local V × ℕ
  act replace update l =
      if has_diverged update.heads (get_heads update.object_id l)
      then (add_heads update.heads l, 1)
      else (replace_heads update.object_id update.heads l, 0)
  act conflict update l = (add_heads update.heads l, 1)

  -- The body of the loop over the updates.
  unfoldable pub apply_update : ObjectUpdate V → Local V → Local V × ℕ
  unfolding has_diverged
  apply_update update l = act update.action update (put_synced update.heads l)

  -- That loop: the store, `pulled` and `conflicted`.
  unfoldable pub apply_updates : List (ObjectUpdate V) → Local V → Local V × (ℕ × ℕ)
  apply_updates [] l = (l, (0, 0))
  apply_updates (update ∷ updates) l =
      let one = apply_update update l in
      let rest = apply_updates updates one.0 in
      (rest.0, (length update.heads + rest.1.0, one.1 + rest.1.1))

  abbrev note_transaction : SyncState → TransactionId → Local V → Local V
  note_transaction state up_to l = elim state.client_id [
    | none ↦ l
    | some cid ↦ elim state.user_id [
      | none ↦ l
      | some uid ↦ write_sync_state cid uid (some up_to) l
    ]
  ]

  abbrev after_pull : Option (PullResponse V) → Local V → Result ClientError (ℕ × ℕ) × Local V
  after_pull none l = (err network, l)
  after_pull (some resp) l =
      let done = apply_updates resp.object_updates l in
      (ok done.1, note_transaction done.0.sync_state resp.up_to_transaction done.0)

  unfoldable pub pull_updates :
      (PullRequest V → Option (PullResponse V))
      → PullRequest V
      → Local V
      → Result ClientError (ℕ × ℕ) × Local V
  pull_updates server pull_params l = after_pull (server pull_params) l

  -- The rest of `sync` after the pull, and after the push.
  abbrev conclude_sync :
      ℕ
      → List RejectedRevision
      → Result ClientError (ℕ × ℕ) × Local V
      → Result ClientError SyncResult × Local V
  conclude_sync pushed rejected (err e, l) = (err e, l)
  conclude_sync pushed rejected (ok (pulled, conflicted), l) = (
    ok (record { pushed = pushed; pulled = pulled; conflicted = conflicted; rejected = rejected }),
    l,
  )

  abbrev then_pull :
      (PullRequest V → Option (PullResponse V))
      → PullRequest V
      → Result ClientError (ℕ × List RejectedRevision) × Local V
      → Result ClientError SyncResult × Local V
  then_pull query pull_params (err e, l) = (err e, l)
  then_pull query pull_params (ok (pushed, rejected), l) =
      conclude_sync pushed rejected (pull_updates query pull_params l)

  unfoldable pub sync :
      (PushRequest V → Option PushResponse)
      → (PullRequest V → Option (PullResponse V))
      → PullRequest V
      → Local V
      → Result ClientError SyncResult × Local V
  unfolding push_pending pull_updates
  sync changes query pull_params l = then_pull query pull_params (push_pending changes l)
