-- ===== src/Server/Handlers/Pull.antt =====
-- handlers/pull.rs: what a pull answers.
use rustend.Prelude.{
  ℕ, ◌≤◌, ◌<◌, ◌+◌, ltb, Bool-cases, inl, inr, true, false, Option, none, some, List, [], ◌∷◌, All,
  contains, ◌≡◌, refl, ◌∙◌, ◌⊎◌, arith,
}
use rustend.Core.Ids.{Uuid, TransactionId}
use rustend.Core.Json.{Json}
use rustend.Core.Protocol.{PullRequest, ObjectUpdate}
use rustend.Server.Error.{ServerError, malformed_data}
use rustend.Server.Tables.{Tables, TransactionRow, has_transaction}
use rustend.Server.Tables.Valid.{IsValid, is_leaf}
use rustend.Server.Sql.{ok, err, Db, idle, run, from_sql, ◌>>◌}
use rustend.Server.Sql.Laws.{run->>=, run-from_sql}
use rustend.Server.Auth.{AuthInfo}
use rustend.Server.Db.Transactions.{i64_max, max_id, latest_transaction_id}
use rustend.Server.Db.Pull.{Planner, changed_objects, fetch_object_updates}
use rustend.Server.Db.Pull.Heads.{IsFaithful, Sound, fetch_object_updates-leaves}
use rustend.Server.Db.Pull.Collected.{Somewhere, Carries}
use rustend.Server.Db.Pull.Complete.{Wanted, fetch_object_updates_complete}
use rustend.Server.Db.Pull.Stored.{Stored, fetch_object_updates-Stored}
use rustend.Server.Handlers.{pull_changes, since_in_range, since_message}

max_id-cases :
    (rows : List TransactionRow) → (max_id rows ≡ 0) ⊎ (has_transaction (max_id rows) rows ≡ true)
max_id-cases [] = inl refl
max_id-cases (row ∷ rows) = elim (Bool-cases (ltb (max_id rows) row.id)) [
  | inl more ↦ inr (ground (arith, more))
  | inr less ↦ elim (max_id-cases rows) [
    | inl zero_id ↦ inl (ground (arith, less, zero_id))
    | inr found ↦ inr (ground (arith, less, found))
  ]
]

-- The greatest id of a transaction has been given out.
pub max_id-lt :
    {V : Type 0} (t : Tables V) → IsValid t → max_id t.transactions < t.transactions_id_seq
max_id-lt t v = elim (max_id-cases t.transactions) [
  | inl zero_id ↦ omega (arith, v.seq_started)
  | inr found ↦ (v.ids_given (max_id t.transactions) found).1
]

abbrev pub since_of : Option TransactionId → ℕ
since_of since = elim since [ none ↦ 0 | some s ↦ s ]

module _ {V B : Type 0} where
  since_passes :
      (since : Option TransactionId) (k : Db V ServerError B) (t : Tables V)
      → since_of since ≤ i64_max
      → run (since_in_range since >> k) (idle t) ≡ run k (idle t)
  unfolding run
  since_passes none k t h = refl
  since_passes (some x) k t h =
      let small : ltb i64_max x ≡ false = ground arith in rw (small, run) refl

  since_refused :
      (x : TransactionId) (k : Db V ServerError B) (t : Tables V)
      → i64_max < x
      → run (since_in_range (some x) >> k) (idle t) ≡ (err (malformed_data since_message), idle t)
  unfolding run
  since_refused x k t h = let large : ltb i64_max x ≡ true = ground arith in rw (large, run) refl

module _ {V : Type 0} (json : Json V) (planner : Planner) (auth : AuthInfo) (req : PullRequest V)
    (t : Tables V) where
  -- Each update is for an object that another client changed in the range, with some of the object's
  -- leaves, as they are stored, and each such object of which a head passes the filters has an update with all of them.
  abbrev pub Answers : TransactionId → List (ObjectUpdate V) → Type 0
  Answers up_to updates =
      let changed = changed_objects auth.client_id (since_of req.since) up_to t in
      All (Sound json req.object_types req.created_at req.filter changed (λ o r. is_leaf o r t))
        updates
      × All (λ (u : ObjectUpdate V). All (Stored t) u.heads) updates
      × ((o : Uuid)
          → contains o changed ≡ true
          → Wanted json req.object_types req.created_at req.filter o t
          → Somewhere (Carries o (λ r. is_leaf o r t)) updates)

  pub pull_changes-Answers :
      IsFaithful planner
      → IsValid t
      → t.transactions_id_seq ≤ i64_max + 1
      → since_of req.since ≤ i64_max
      → (updates : List (ObjectUpdate V)) × (run (pull_changes json planner auth req) (idle t) ≡ (
        ok (record { up_to_transaction = max_id t.transactions; object_updates = updates }),
        idle t,
      ))
        × Answers (max_id t.transactions) updates
  unfolding pull_changes run latest_transaction_id
  pull_changes-Answers f v room since_small =
      let up_to = max_id t.transactions in
      let small : up_to ≤ i64_max = omega (arith, max_id-lt t v) in
      let (updates, ran, sound) =
        fetch_object_updates-leaves json req.object_types req.created_at req.filter planner
          auth.client_id req.since up_to t f v small in
      let fetch =
        fetch_object_updates json req.object_types req.created_at req.filter planner auth.client_id
          req.since up_to in
      (
        updates,
        since_passes req.since _ t since_small
            ∙ rw (run->>= (from_sql fetch), run-from_sql fetch (idle t), ran) refl,
        (
          sound,
          fetch_object_updates-Stored json req.object_types req.created_at req.filter t planner
              auth.client_id req.since up_to small updates ran,
          λ o m w.
              fetch_object_updates_complete json req.object_types req.created_at req.filter planner
                auth.client_id req.since up_to t o f v small m w updates ran,
        ),
      )

  -- A pull since a number beyond those of a BIGINT is refused as malformed, which is status 400, and reads nothing.
  pub pull_changes-refused :
      (x : TransactionId)
      → req.since ≡ some x
      → i64_max < x
      → run (pull_changes json planner auth req) (idle t)
        ≡ (err (malformed_data since_message), idle t)
  unfolding pull_changes
  pull_changes-refused x e h = rw e (since_refused x _ t h)

  -- What a pull does: it is refused, or it is answered, and the tables stay.
  abbrev pub Pulls : Type 0
  Pulls =
      ((i64_max < since_of req.since)
        × (run (pull_changes json planner auth req) (idle t)
            ≡ (err (malformed_data since_message), idle t)))
      ⊎ ((since_of req.since ≤ i64_max)
          × ((updates : List (ObjectUpdate V)) × (run (pull_changes json planner auth req) (idle t)
                ≡ (
                  ok (record {
                    up_to_transaction = max_id t.transactions;
                    object_updates = updates;
                  }),
                  idle t,
                ))
              × Answers (max_id t.transactions) updates))
