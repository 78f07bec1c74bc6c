-- ===== src/Client/Sync/Converged.antt =====
-- sync.rs and the server's pull together: what the local store holds after a synchronisation.
use rustend.Prelude.{
  ℕ, ◌+◌, ◌≤◌, ◌==◌, true, ◌&&◌, Option, none, some, inl, inr, List, [], ◌∷◌, any, contains, ◌≡◌,
  refl, ap, ◌∙◌, arith,
}
use rustend.Core.Ids.{ObjectId, ClientId, UserId}
use rustend.Core.Json.{Json}
use rustend.Core.Revision.{Revision}
use rustend.Core.Outcome.{Result, ok, err}
use rustend.Core.Protocol.{HeadAction, replace, conflict, PullRequest, PullResponse, ObjectUpdate}
use rustend.Server.Error.{ServerError}
use rustend.Server.Tables.{Tables}
use rustend.Server.Tables.Valid.{IsValid, is_leaf}
use rustend.Server.Sql.{idle, run}
use rustend.Server.Auth.{AuthInfo}
use rustend.Server.Handlers.{pull_changes}
use rustend.Server.Handlers.Pull.{since_of, pull_changes-Answers}
use rustend.Server.Db.Transactions.{i64_max, max_id}
use rustend.Server.Db.Pull.{Planner, changed_objects}
use rustend.Server.Db.Pull.Heads.{IsFaithful}
use rustend.Server.Db.Pull.Collected.{Somewhere, Carries, ids_of}
use rustend.Server.Db.Pull.Complete.{Wanted, is_leaf-find_row}
use rustend.Client.Store.{Local, SyncState, add_heads, replace_heads}
use rustend.Client.Store.Heads.{is_head}
use rustend.Client.Sync.{
  put_synced, act, apply_update, apply_updates, note_transaction, pull_updates,
}
use rustend.Client.Sync.Arrived.{apply_updates-arrives}

module _ {V : Type 0} where
  abbrev response_of : Result ServerError (PullResponse V) → Option (PullResponse V)
  response_of (ok resp) = some resp
  response_of (err e) = none

  -- The server's answers to pulls, on these tables.
  abbrev pub queried :
      Json V → Planner → AuthInfo → Tables V → PullRequest V → Option (PullResponse V)
  queried json planner auth t req =
      response_of (run (pull_changes json planner auth req) (idle t)).0

  -- A request without filters.
  abbrev pub unfiltered : PullRequest V
  unfiltered = record { since = none; object_types = none; created_at = none; filter = none }

  -- The store knows who it belongs to.
  abbrev pub Known : ClientId → UserId → Local V → Type 0
  Known c u l = (l.sync_state.client_id ≡ some c) × (l.sync_state.user_id ≡ some u)

  put_synced-sync_state :
      (revs : List (Revision V)) (l : Local V) → (put_synced revs l).sync_state ≡ l.sync_state
  put_synced-sync_state [] l = refl
  put_synced-sync_state (rev ∷ revs) l = put_synced-sync_state revs _

  act-sync_state :
      (action : HeadAction) (u : ObjectUpdate V) (l : Local V)
      → (act action u l).0.sync_state ≡ l.sync_state
  unfolding add_heads replace_heads
  act-sync_state conflict u l = refl
  act-sync_state replace u l = ground arith

  apply_updates-sync_state :
      (us : List (ObjectUpdate V)) (l : Local V) → (apply_updates us l).0.sync_state ≡ l.sync_state
  unfolding apply_updates apply_update
  apply_updates-sync_state [] l = refl
  apply_updates-sync_state (u ∷ us) l =
      apply_updates-sync_state us (act u.action u (put_synced u.heads l)).0
      ∙ act-sync_state u.action u (put_synced u.heads l)
      ∙ put_synced-sync_state u.heads l

  carried :
      (o r : ObjectId) (t : Tables V) (us : List (ObjectUpdate V))
      → is_leaf o r t ≡ true
      → Somewhere (Carries o (λ x. is_leaf o x t)) us
      → any (λ (u : ObjectUpdate V). o == u.object_id && contains r (ids_of u.heads)) us ≡ true
  carried o r t [] leaf s = absurd s
  carried o r t (u ∷ us) leaf (inl here) =
      let mine : u.object_id ≡ o = here.0 in
      let there : contains r (ids_of u.heads) ≡ true = here.1 r leaf in ground (arith, mine, there)
  carried o r t (u ∷ us) leaf (inr later) =
      let rest = carried o r t us leaf later in ground (arith, rest)

  note_transaction-Known :
      (c : ClientId) (u : UserId) (up_to : ℕ) (l : Local V)
      → Known c u l
      → (note_transaction l.sync_state up_to l).sync_state.last_server_txn_id ≡ some up_to
  note_transaction-Known c u up_to l (ec, eu) = rw (ec, eu) refl

  note_transaction-object_heads :
      (state : SyncState) (up_to : ℕ) (l : Local V)
      → (note_transaction state up_to l).object_heads ≡ l.object_heads
  note_transaction-object_heads state up_to l = ground arith

module _ {V : Type 0} (json : Json V) (planner : Planner) (auth : AuthInfo) (t : Tables V) where
  -- What the store holds after a pull since this transaction: each leaf of each object that another
  -- client changed since is a head of it, and the next pull starts where this one ended.
  abbrev pub Holds : Option ℕ → Local V → Type 0
  Holds since l =
      ((o r : ObjectId)
        → contains o (changed_objects auth.client_id (since_of since) (max_id t.transactions) t)
          ≡ true
        → is_leaf o r t ≡ true
        → is_head o r l.object_heads ≡ true)
      × (l.sync_state.last_server_txn_id ≡ some (max_id t.transactions))

  pub pull_updates-Holds :
      (c : ClientId) (u : UserId) (since : Option ℕ) (l : Local V)
      → IsFaithful planner
      → IsValid t
      → t.transactions_id_seq ≤ i64_max + 1
      → Known c u l
      → since_of since ≤ i64_max
      → let req : PullRequest V = record unfiltered { since = since } in
        let pulled = pull_updates (queried json planner auth t) req l in
        (counts : ℕ × ℕ) × (pulled.0 ≡ ok counts) × Holds since pulled.1
  unfolding pull_updates pull_changes
  pull_updates-Holds c u since l f v room known since_small =
      let req : PullRequest V = record unfiltered { since = since } in
      let (updates, ran, answers) =
        pull_changes-Answers json planner auth req t f v room since_small in
      let answered : queried json planner auth t req
          ≡ some (record { up_to_transaction = max_id t.transactions; object_updates = updates }) =
        ap (λ x. response_of x.0) ran in
      let done = apply_updates updates l in
      let same : done.0.sync_state ≡ l.sync_state = apply_updates-sync_state updates l in
      rw answered (
        (
          _,
          refl,
          (
            λ o r changed leaf.
                ap (is_head o r) (note_transaction-object_heads done.0.sync_state _ done.0)
                ∙ apply_updates-arrives t o r updates l answers.1 leaf
                    (carried o r t updates leaf (answers.2 o changed (wanted o r leaf))),
            note_transaction-Known c u (max_id t.transactions) done.0
                (ap (λ x. x.client_id) same ∙ known.0, ap (λ x. x.user_id) same ∙ known.1),
          ),
        ))
    where
      wanted : (o r : ObjectId) → is_leaf o r t ≡ true → Wanted json none none none o t
      wanted o r leaf =
          let (row, found) = is_leaf-find_row json none none none o r t leaf in
          (r, row, leaf, found, refl)
