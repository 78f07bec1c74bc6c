-- ===== src/Client/Store.antt =====
-- rustend-client/src/idb: the object stores of the browser's database. Each is a list in the order
-- of its keys, in which `put` replaces the record with the same key.
pub mod Heads
pub mod Written
pub mod Files
pub mod Open
use rustend.Prelude.{
  ℕ, ◌==◌, ltb, if◌then◌else◌, not, Bool, true, false, ◌&&◌, Option, none, some, List, [], ◌∷◌, map,
  keep,
}
use rustend.Core.Ids.{ObjectId, RevisionId, ClientId, UserId, TransactionId, Instant, Text}
use rustend.Core.Lineage.{Lineage}
use rustend.Core.Content.{Content, active, deleted}
use rustend.Core.Revision.{Revision}
use rustend.Core.Protocol.{RejectionReason}

pub data SyncStatus : Type 0 where
  pending synced : SyncStatus
  sync_error : RejectionReason → SyncStatus

pub record RevisionRecord (V : Type 0) : Type 0 where
  pub id : RevisionId
  pub object_id : ObjectId
  pub object_type : Text
  pub lineage : Lineage
  pub created_at : Instant
  pub created_by : ClientId
  pub content : Content V
  pub sync_status : SyncStatus

pub record HeadRecord (V : Type 0) : Type 0 where
  pub object_id : ObjectId
  pub revision_id : RevisionId
  pub object_type : Text
  pub content : Content V
  pub lineage : Lineage
  pub payload : Option V

pub record SyncState : Type 0 where
  pub client_id : Option ClientId
  pub user_id : Option UserId
  pub last_server_txn_id : Option TransactionId

pub record FileRecord : Type 0 where
  pub object_id : ObjectId
  pub bytes : List ℕ

pub record Local (V : Type 0) : Type 0 where
  pub revisions : List (RevisionRecord V)
  pub object_heads : List (HeadRecord V)
  pub files : List FileRecord
  pub sync_state : SyncState

abbrev pub is_pending : SyncStatus → Bool
is_pending pending = true
is_pending _ = false

module _ {V : Type 0} where
  abbrev pub from_revision : Revision V → SyncStatus → RevisionRecord V
  from_revision rev sync_status = record {
    id = rev.id;
    object_id = rev.object_id;
    object_type = rev.object_type;
    lineage = rev.lineage;
    created_at = rev.created_at;
    created_by = rev.created_by;
    content = rev.content;
    sync_status = sync_status;
  }

  abbrev pub revision_of : RevisionRecord V → Revision V
  revision_of r = record {
    id = r.id;
    object_id = r.object_id;
    object_type = r.object_type;
    lineage = r.lineage;
    created_at = r.created_at;
    created_by = r.created_by;
    content = r.content;
  }

  -- `put` in the store of revisions.
  abbrev pub put_record : RevisionRecord V → List (RevisionRecord V) → List (RevisionRecord V)
  put_record new [] = new ∷ []
  put_record new (r ∷ rs) =
      let rest = put_record new rs in
      if new.id == r.id then new ∷ rs else if ltb new.id r.id then new ∷ r ∷ rs else r ∷ rest

  abbrev pub put_revision : RevisionRecord V → Local V → Local V
  put_revision new l = record l { revisions = put_record new l.revisions }

  -- The index `by_sync_status`, whose entries of one status are in the order of the ids.
  abbrev pub get_pending_revisions : Local V → List (RevisionRecord V)
  get_pending_revisions l = keep (λ (r : RevisionRecord V). is_pending r.sync_status) l.revisions

  -- The record found is put back with the new status.
  abbrev pub set_status :
      SyncStatus → RevisionId → List (RevisionRecord V) → List (RevisionRecord V)
  set_status status id [] = []
  set_status status id (r ∷ rs) =
      let rest = set_status status id rs in
      if id == r.id then record r { sync_status = status } ∷ rs else r ∷ rest

  abbrev pub mark_revision_synced : RevisionId → Local V → Local V
  mark_revision_synced id l = record l { revisions = set_status synced id l.revisions }

  abbrev pub mark_revision_error : RevisionId → RejectionReason → Local V → Local V
  mark_revision_error id reason l = record l {
    revisions = set_status (sync_error reason) id l.revisions;
  }

  -- The key of a head is the pair of its object and its revision.
  abbrev pub same_key : ObjectId → RevisionId → HeadRecord V → Bool
  same_key o r h = o == h.object_id && r == h.revision_id

  abbrev key_before : ObjectId → RevisionId → HeadRecord V → Bool
  key_before o r h = if o == h.object_id then ltb r h.revision_id else ltb o h.object_id

  pub put_head : HeadRecord V → List (HeadRecord V) → List (HeadRecord V)
  put_head new [] = new ∷ []
  put_head new (h ∷ hs) =
      let rest = put_head new hs in
      if same_key new.object_id new.revision_id h
      then new ∷ hs
      else if key_before new.object_id new.revision_id h
      then new ∷ h ∷ hs
      else h ∷ rest

  pub delete_head : ObjectId → RevisionId → List (HeadRecord V) → List (HeadRecord V)
  delete_head o r = keep (λ h. not (same_key o r h))

  abbrev pub data_of : Content V → Option V
  data_of (active v) = some v
  data_of deleted = none

  abbrev pub head_record_from_revision : ObjectId → Revision V → HeadRecord V
  head_record_from_revision object_id rev = record {
    object_id = object_id;
    revision_id = rev.id;
    object_type = rev.object_type;
    content = rev.content;
    lineage = rev.lineage;
    payload = data_of rev.content;
  }

  -- The range of keys of an object, from the least to the greatest revision id.
  abbrev pub get_heads_in_store : ObjectId → List (HeadRecord V) → List (HeadRecord V)
  get_heads_in_store object_id = keep (λ (h : HeadRecord V). object_id == h.object_id)

  abbrev pub get_heads : ObjectId → Local V → List (HeadRecord V)
  get_heads object_id l = get_heads_in_store object_id l.object_heads

  pub delete_heads : ObjectId → List (HeadRecord V) → List (HeadRecord V) → List (HeadRecord V)
  unfolding delete_head
  delete_heads object_id [] store = store
  delete_heads object_id (head ∷ existing) store =
      delete_heads object_id existing (delete_head object_id head.revision_id store)

  pub put_heads : ObjectId → List (Revision V) → List (HeadRecord V) → List (HeadRecord V)
  unfolding put_head
  put_heads object_id [] store = store
  put_heads object_id (rev ∷ heads) store =
      put_heads object_id heads (put_head (head_record_from_revision object_id rev) store)

  unfoldable pub replace_heads : ObjectId → List (Revision V) → Local V → Local V
  unfolding delete_heads put_heads
  replace_heads object_id heads l = record l {
    object_heads =
        put_heads object_id heads
          (delete_heads object_id (get_heads_in_store object_id l.object_heads) l.object_heads);
  }

  -- The loop of `add_heads`: each head is put under its own object.
  pub add_each : List (Revision V) → List (HeadRecord V) → List (HeadRecord V)
  unfolding put_head
  add_each [] store = store
  add_each (rev ∷ heads) store =
      add_each heads (put_head (head_record_from_revision rev.object_id rev) store)

  unfoldable pub add_heads : List (Revision V) → Local V → Local V
  unfolding add_each
  add_heads heads l = record l { object_heads = add_each heads l.object_heads }

  abbrev pub write_sync_state : ClientId → UserId → Option TransactionId → Local V → Local V
  write_sync_state client_id user_id last_txn l = record l {
    sync_state = record {
      client_id = some client_id;
      user_id = some user_id;
      last_server_txn_id = last_txn;
    };
  }
