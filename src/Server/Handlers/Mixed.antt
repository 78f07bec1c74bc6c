-- ===== src/Server/Handlers/Mixed.antt =====
-- handlers behind the middleware of auth.rs: requests of every kind that run at once.
use native.Mathlib.Nat.{le_refl}
use rustend.Prelude.{
  ℕ, ltb, keep, map, contains, true, Option, none, some, List, [], ◌∷◌, ◌≡◌, refl,
}
use rustend.Core.Ids.{Uuid, ObjectId, Instant, TransactionId}
use rustend.Core.Json.{Json}
use rustend.Core.Protocol.{PushResponse, PullRequest, PullResponse, ObjectUpdate}
use rustend.Server.Error.{ServerError}
use rustend.Server.Tables.{Tables, RevisionRow, has_client}
use rustend.Server.Tables.Valid.{IsValid}
use rustend.Server.Sql.{Db, ret, ◌>>=◌, ◌>>◌, from_sql, Fate}
use rustend.Server.Sql.Shape.{ReadOnly, >>=-ReadOnly, from_sql-ReadOnly, if-ReadOnly}
use rustend.Server.Sql.Reaches.{run_under-CommitsTo}
use rustend.Server.Sql.Interleave.{interleave, Safe, Kept, Grown-refl, interleave-IsValid}
use rustend.Server.Sql.Safe.{Safe-map, ReadOnly-Safe}
use rustend.Server.Db.Clients.{upsert_client}
use rustend.Server.Db.Clients.Statements.{has_client-with_client, with_client-Kept}
use rustend.Server.Db.Files.{get_file, upsert_file, delete_file}
use rustend.Server.Db.ObjectHeads.{get_heads}
use rustend.Server.Db.Transactions.{i64_max, latest_transaction_id}
use rustend.Server.Db.Revisions.{read_revisions, get_revision_rows_by_ids, get_parents_batch}
use rustend.Server.Db.Push.Concurrent.{push_revisions-Safe, rolled_back-Kept}
use rustend.Server.Db.Pull.{Planner, fetch_object_updates}
use rustend.Server.Db.Pull.Reads.{fetch_object_updates-ReadOnly, get_parents_batch-ReadOnly}
use rustend.Server.Auth.{AuthInfo}
use rustend.Server.Handlers.{
  push_changes, handle_get_file, handle_upload_file, handle_delete_file, since_in_range,
  pull_changes, get_object, object_of_heads,
}
use rustend.Core.Protocol.{PushRequest}

-- What an authenticated client asks for. The last argument of `get_object` is the order of rows.
pub data Asked (V : Type 0) : Type 0 where
  pushes : Instant → PushRequest V → Asked V
  pulls : Planner → PullRequest V → Asked V
  gets_object : Planner → (List (RevisionRow V) → List (RevisionRow V)) → ObjectId → Asked V
  gets_file deletes_file : Uuid → Asked V
  uploads_file : Uuid → List ℕ → Asked V

pub data Answered (V : Type 0) : Type 0 where
  pushed : PushResponse → Answered V
  pulled : PullResponse V → Answered V
  object : ObjectUpdate V → Answered V
  file : ℕ × List ℕ → Answered V
  done : ℕ → Answered V

module _ {V : Type 0} (json : Json V) where
  -- The handler's statements.
  abbrev handled : AuthInfo → Asked V → Db V ServerError (Answered V)
  handled info (pushes now body) = push_changes now info body >>= λ r. ret (pushed r)
  handled info (pulls planner req) = pull_changes json planner info req >>= λ r. ret (pulled r)
  handled info (gets_object planner order id) =
      get_object json planner order id >>= λ r. ret (object r)
  handled info (gets_file id) = handle_get_file id >>= λ r. ret (file r)
  handled info (deletes_file id) = handle_delete_file id >>= λ r. ret (done r)
  handled info (uploads_file id body) = handle_upload_file id body >>= λ r. ret (done r)

  -- The middleware registers the client first.
  abbrev pub request : AuthInfo × (Instant × Asked V) → Db V ServerError (Answered V)
  request (info, (now, asked)) =
      from_sql (upsert_client now info.client_id info.user_id) >> handled info asked

  since_in_range-ReadOnly : (since : Option TransactionId) → ReadOnly (since_in_range {V = V} since)
  since_in_range-ReadOnly none = tt
  since_in_range-ReadOnly (some x) = if-ReadOnly (ltb i64_max x) _ _ tt tt

  pull_changes-ReadOnly :
      (planner : Planner) (info : AuthInfo) (req : PullRequest V)
      → ReadOnly (pull_changes json planner info req)
  unfolding pull_changes latest_transaction_id
  pull_changes-ReadOnly planner info req =
      >>=-ReadOnly (since_in_range req.since) _ (since_in_range-ReadOnly req.since) λ _. (
        λ t. refl,
        λ t.
            >>=-ReadOnly
              (from_sql (
                fetch_object_updates json req.object_types req.created_at req.filter planner
                  info.client_id req.since _))
              _
              (from_sql-ReadOnly _ (
                fetch_object_updates-ReadOnly json req.object_types req.created_at req.filter
                  planner info.client_id req.since _))
              (λ updates. tt),
      )

  object_of_heads-ReadOnly :
      (order : List (RevisionRow V) → List (RevisionRow V)) (id : ObjectId) (ids : List Uuid)
      → ReadOnly (object_of_heads json order id ids)
  unfolding read_revisions get_revision_rows_by_ids
  object_of_heads-ReadOnly order id [] = tt
  object_of_heads-ReadOnly order id (h ∷ ids) =
      >>=-ReadOnly (from_sql (read_revisions order json.null_value (h ∷ ids))) _
        (from_sql-ReadOnly (read_revisions order json.null_value (h ∷ ids)) (
          λ t. refl,
          λ t.
              let rows =
                order (keep (λ (row : RevisionRow V). contains row.id (h ∷ ids)) t.revisions) in
              let row_ids : List Uuid = map (λ (row : RevisionRow V). row.id) rows in
              >>=-ReadOnly (get_parents_batch {V = V} row_ids) _
                (get_parents_batch-ReadOnly V row_ids) (λ m. tt),
        ))
        (λ heads. tt)

  get_object-Safe :
      (down : ServerError) (planner : Planner) (order : List (RevisionRow V) → List (RevisionRow V))
      (id : ObjectId) (t : Tables V)
      → Safe down (get_object json planner order id) t
  unfolding get_object get_heads
  get_object-Safe down planner order id t = λ t' g v fs. rolled_back-Kept t' _ v (
      run_under-CommitsTo down (Kept t') _ fs t' t' (le_refl _)
        (λ passes. (le_refl _, ((v, Grown-refl t'), object_of_heads-ReadOnly order id _))))

  -- A change of the files alone.
  with_files-Kept : (t : Tables V) (rows : List _) → IsValid t → Kept t (record t { files = rows })
  with_files-Kept t rows v = (
    record {
      parents_stored = v.parents_stored;
      heads_are_leaves = v.heads_are_leaves;
      ids_given = v.ids_given;
      seq_started = v.seq_started;
      transactions_stored = v.transactions_stored;
    },
    record { objects = λ r o h. h; clients = λ c h. h },
  )

  handled-Safe :
      (down : ServerError) (info : AuthInfo) (asked : Asked V) (t : Tables V)
      → has_client info.client_id t.clients ≡ true
      → Safe down (handled info asked) t
  unfolding push_changes handle_get_file handle_upload_file handle_delete_file get_file upsert_file
      delete_file
  handled-Safe down info (pushes now body) t registered =
      Safe-map down pushed (push_changes now info body) t
        (push_revisions-Safe down now info.client_id body.revisions t registered)
  handled-Safe down info (pulls planner req) t registered =
      Safe-map down pulled (pull_changes json planner info req) t
        (ReadOnly-Safe down _ t (pull_changes-ReadOnly planner info req))
  handled-Safe down info (gets_object planner order id) t registered =
      Safe-map down object (get_object json planner order id) t
        (get_object-Safe down planner order id t)
  handled-Safe down info (gets_file id) t registered = λ t' g v passes. ((v, Grown-refl t'), tt)
  handled-Safe down info (deletes_file id) t registered =
      λ t' g v passes. (with_files-Kept t' _ v, tt)
  handled-Safe down info (uploads_file id body) t registered =
      λ t' g v passes. (with_files-Kept t' _ v, tt)

  request-Safe :
      (down : ServerError) (r : AuthInfo × (Instant × Asked V)) (t : Tables V)
      → Safe down (request r) t
  unfolding upsert_client
  request-Safe down (info, (now, asked)) t = λ t' g v passes. (
    with_client-Kept now info.client_id info.user_id t' v,
    handled-Safe down info asked _ (has_client-with_client now info.client_id info.user_id t'),
  )

  -- Requests of authenticated clients, of every kind and in any number, leave valid tables valid at every moment, in
  -- whatever order they make their statements and whatever becomes of their messages, where a
  -- transaction, with what follows it, is isolated from the other requests.
  pub requests-IsValid :
      (down : ServerError) (schedule : List (ℕ × List Fate))
      (asked : ℕ → AuthInfo × (Instant × Asked V)) (t : Tables V)
      → IsValid t
      → IsValid
          (interleave down schedule
            (record { tables = t; requests = λ i. request (asked i) })).tables
  requests-IsValid down schedule asked t v =
      interleave-IsValid down schedule (record { tables = t; requests = λ i. request (asked i) }) v
        (λ i. request-Safe down (asked i) t)
