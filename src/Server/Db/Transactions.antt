-- ===== src/Server/Db/Transactions.antt =====
-- rustend-server/src/db/transactions.rs
pub mod Statements
use rustend.Prelude.{ℕ, ◌+◌, ◌-◌, ◌^◌, ltb, if◌then◌else◌, Option, none, some, List, [], ◌∷◌, ◌++◌}
use rustend.Core.Ids.{ClientId, RevisionId, TransactionId, Instant}
use rustend.Server.Error.{SqlError, foreign_key_violation, unique_violation, sequence_limit}
use rustend.Server.Tables.{
  Tables, TransactionRow, has_client, has_transaction, has_transaction_revision, object_of,
}
use rustend.Server.Sql.{Db, statement, ◌>>=◌, ◌>>◌, ret, query, execute}

-- The greatest `BIGINT`.
abbrev pub i64_max : ℕ
i64_max = 2 ^ 63 - 1

-- `SELECT COALESCE(MAX(id), 0)`
abbrev pub max_id : List TransactionRow → ℕ
max_id [] = 0
max_id (row ∷ rows) = let m = max_id rows in if ltb m row.id then row.id else m

module _ {V : Type 0} where
  abbrev transaction_broken : ClientId → Tables V → Option SqlError
  transaction_broken client_id t =
      if ltb i64_max t.transactions_id_seq
      then some sequence_limit
      else if has_transaction t.transactions_id_seq t.transactions
      then some unique_violation
      else if has_client client_id t.clients
      then none
      else some foreign_key_violation

  abbrev with_transaction : Instant → ClientId → Tables V → Tables V
  with_transaction now client_id t =
      let id = t.transactions_id_seq in
      record t {
        transactions =
            t.transactions ++ (record { id = id; client_id = client_id; created_at = now } ∷ []);
        transactions_id_seq = id + 1;
      }

  abbrev transaction_revision_broken : ℕ → RevisionId → Tables V → Option SqlError
  transaction_revision_broken txn_id rev_id t =
      if has_transaction_revision txn_id rev_id t.transaction_revisions
      then some unique_violation
      else if has_transaction txn_id t.transactions
      then elim (object_of rev_id t.revisions) [ none ↦ some foreign_key_violation | some _ ↦ none ]
      else some foreign_key_violation

  insert_transaction_revisions : ℕ → List RevisionId → Db V SqlError (Unit {0})
  insert_transaction_revisions txn_id [] = ret tt
  insert_transaction_revisions txn_id (rev_id ∷ revision_ids) =
      execute (transaction_revision_broken txn_id rev_id) (λ t. record t {
        transaction_revisions =
            t.transaction_revisions
            ++ (record { transaction_id = txn_id; revision_id = rev_id } ∷ []);
      })
      >> insert_transaction_revisions txn_id revision_ids

  -- `now` is `Utc::now()`.
  unfoldable pub create_transaction :
      Instant → ClientId → List RevisionId → Db V SqlError TransactionId
  unfolding insert_transaction_revisions
  create_transaction now client_id revision_ids = do
    txn_id ←
        statement (transaction_broken client_id) (with_transaction now client_id)
          λ t. ret t.transactions_id_seq
    insert_transaction_revisions txn_id revision_ids
    ret txn_id

  unfoldable pub latest_transaction_id : Db V SqlError ℕ
  latest_transaction_id = query λ t. max_id t.transactions
