-- ===== src/Server/Handlers.antt =====
-- rustend-server/src/handlers: what each route does for an authenticated client.
pub mod Push
pub mod Files
pub mod Pull
pub mod Delivery
pub mod Finished
pub mod Mixed
pub mod Objects
use rustend.Prelude.{ℕ, ◌==◌, ltb, if◌then◌else◌, Option, none, some, List, [], ◌∷◌, map, length}
use rustend.Core.Ids.{Uuid, ObjectId, ClientId, UserId, TransactionId, Instant, Text}
use rustend.Core.Json.{Json}
use rustend.Core.Revision.{Revision}
use rustend.Core.Protocol.{
  PushRequest, PushResponse, PullRequest, PullResponse, ObjectUpdate, WhoAmIResponse,
}
use rustend.Server.Auth.{AuthInfo, Response, reply, failure}
use rustend.Server.Error.{ServerError, database, connection, status, malformed_data, not_found}
use rustend.Server.Tables.{RevisionRow, HeadRow}
use rustend.Server.Sql.{
  Result, ok, err, Session, Fate, run_under, Db, ret, throw, begin, commit, ◌>>=◌, ◌>>◌, from_sql,
}
use rustend.Server.Db.Transactions.{i64_max, latest_transaction_id}
use rustend.Server.Db.Revisions.{read_revisions}
use rustend.Server.Db.ObjectHeads.{get_heads}
use rustend.Server.Db.Files.{get_file, upsert_file, delete_file}
use rustend.Server.Db.Push.{push_revisions}
use rustend.Server.Db.Pull.{Planner, fetch_object_updates, action_for}

-- "since transaction ID out of range"
abbrev pub since_message : Text
since_message =
    115 ∷ 105 ∷ 110 ∷ 99 ∷ 101 ∷ 32 ∷ 116 ∷ 114 ∷ 97 ∷ 110 ∷ 115 ∷ 97 ∷ 99 ∷ 116 ∷ 105 ∷ 111 ∷ 110
    ∷ 32 ∷ 73 ∷ 68 ∷ 32 ∷ 111 ∷ 117 ∷ 116 ∷ 32 ∷ 111 ∷ 102 ∷ 32 ∷ 114 ∷ 97 ∷ 110 ∷ 103 ∷ 101 ∷ []

-- A file's response: its status, and its bytes.
abbrev pub file_response : Option (List ℕ) → ℕ × List ℕ
file_response (some data') = (200, data')
file_response none = (404, [])

abbrev whoami : AuthInfo → WhoAmIResponse
whoami auth = record { client_id = auth.client_id; user_id = auth.user_id; roles = auth.roles }

-- `into_response` of a handler's result.
abbrev pub response_of : {B : Type 0} → Result ServerError B → Response B
response_of (ok b) = reply b
response_of (err e) = failure (status e)

-- A handler as the middleware calls it.
abbrev pub handle :
    {V B : Type 0}
    → (AuthInfo → Db V ServerError B)
    → AuthInfo
    → List Fate
    → Session V
    → Response B × Session V
handle handler info fates s =
    let done = run_under (database connection) (handler info) fates s in
    (response_of done.0, done.1)

module _ {V : Type 0} where
  unfoldable pub push_changes : Instant → AuthInfo → PushRequest V → Db V ServerError PushResponse
  push_changes now auth req = push_revisions now auth.client_id req.revisions

  unfoldable pub handle_get_file : Uuid → Db V ServerError (ℕ × List ℕ)
  handle_get_file id = do found ← from_sql (get_file id); ret (file_response found)

  unfoldable pub handle_upload_file : Uuid → List ℕ → Db V ServerError ℕ
  handle_upload_file id body = do from_sql (upsert_file id body); ret 204

  unfoldable pub handle_delete_file : Uuid → Db V ServerError ℕ
  handle_delete_file id = do from_sql (delete_file id); ret 204

  abbrev since_in_range : Option TransactionId → Db V ServerError (Unit {0})
  since_in_range none = ret tt
  since_in_range (some since) =
      if ltb i64_max since then throw (malformed_data since_message) else ret tt

module _ {V : Type 0} (json : Json V) where
  unfoldable pub pull_changes :
      Planner → AuthInfo → PullRequest V → Db V ServerError (PullResponse V)
  pull_changes planner auth req = do
    since_in_range req.since
    up_to ← from_sql latest_transaction_id
    object_updates ← from_sql (
        fetch_object_updates json req.object_types req.created_at req.filter planner auth.client_id
          req.since up_to)
    ret (record { up_to_transaction = up_to; object_updates = object_updates })

  -- The part of `get_object` after the test for no head; `order` is that of the rows read.
  abbrev object_of_heads :
      (List (RevisionRow V) → List (RevisionRow V))
      → ObjectId
      → List Uuid
      → Db V ServerError (ObjectUpdate V)
  object_of_heads order object_id [] = throw not_found
  object_of_heads order object_id (h ∷ head_ids) = do
    heads ← from_sql (read_revisions order json.null_value (h ∷ head_ids))
    ret (record { object_id = object_id; action = action_for (length heads); heads = heads })

  unfoldable pub get_object :
      Planner
      → (List (RevisionRow V) → List (RevisionRow V))
      → ObjectId
      → Db V ServerError (ObjectUpdate V)
  get_object planner order id = begin (do
    head_ids ← from_sql (get_heads planner.heads id)
    commit (object_of_heads order id head_ids))
