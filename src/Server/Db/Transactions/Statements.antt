-- ===== src/Server/Db/Transactions/Statements.antt =====
-- transactions.rs: the statements that record a transaction.
use mathlib.Core.List.{append-nil, append_assoc}
use native.Mathlib.Nat.{le_refl, le-add_right}
use rustend.Prelude.{
  ℕ, ◌≤◌, ◌==◌, ◌&&◌, true, false, none, List, [], ◌∷◌, ◌++◌, map, contains, Distinct, ◌≡◌, ◌≢◌,
  ◌∙◌, refl, arith,
}
use rustend.Core.Ids.{ClientId, RevisionId, Instant}
use rustend.Server.Tables.{
  Tables, TransactionRow, TransactionRevisionRow, object_of, has_client, has_transaction,
  has_transaction_revision,
}
use rustend.Server.Tables.Laws.{has_transaction-append, has_transaction_revision-append}
use rustend.Server.Tables.Valid.{IsValid}
use rustend.Server.Sql.{ok, Session, run}
use rustend.Server.Sql.Laws.{run->>=}
use rustend.Server.Sql.Shape.{Plain, >>=-Plain}
use rustend.Server.Sql.Reaches.{Reaches, Reaches-mono, >>=-Reaches}
use rustend.Server.Db.Transactions.{
  insert_transaction_revisions, create_transaction, transaction_broken, with_transaction,
  transaction_revision_broken, i64_max,
}

module _ (V : Type 0) where
  insert_transaction_revisions-Plain :
      (txn_id : ℕ) (ids : List RevisionId) → Plain (insert_transaction_revisions {V = V} txn_id ids)
  unfolding insert_transaction_revisions
  insert_transaction_revisions-Plain txn_id [] = tt
  insert_transaction_revisions-Plain txn_id (r ∷ ids) =
      λ _. (le_refl _, insert_transaction_revisions-Plain txn_id ids)

  pub create_transaction-Plain :
      (now : Instant) (c : ClientId) (ids : List RevisionId)
      → Plain (create_transaction {V = V} now c ids)
  unfolding create_transaction
  create_transaction-Plain now c ids = λ t. (
    le-add_right t.transactions_id_seq 1,
    >>=-Plain (insert_transaction_revisions t.transactions_id_seq ids) _
        (insert_transaction_revisions-Plain t.transactions_id_seq ids) (λ _. tt),
  )

abbrev pub transaction_rows : ℕ → List RevisionId → List TransactionRevisionRow
transaction_rows i ids = map (λ r. record { transaction_id = i; revision_id = r }) ids

abbrev with_rows : {V : Type 0} → Tables V → List TransactionRevisionRow → Tables V
with_rows t rows = record t { transaction_revisions = t.transaction_revisions ++ rows }

module _ {V : Type 0} where
  transaction_revision_broken-eq-none :
      (i : ℕ) (r : RevisionId) (t : Tables V)
      → has_transaction i t.transactions ≡ true
      → (object_of r t.revisions ≢ none)
        × (has_transaction_revision i r t.transaction_revisions ≡ false)
      → transaction_revision_broken i r t ≡ none
  transaction_revision_broken-eq-none i r t given stored = ground arith

  run-insert_transaction_revisions :
      (i : ℕ) (ids : List RevisionId) (s : Session V)
      → has_transaction i s.tables.transactions ≡ true
      → ((r : RevisionId)
          → contains r ids ≡ true
          → (object_of r s.tables.revisions ≢ none)
            × (has_transaction_revision i r s.tables.transaction_revisions ≡ false))
      → Distinct ids
      → run (insert_transaction_revisions i ids) s
        ≡ (ok tt, record s { tables = with_rows s.tables (transaction_rows i ids) })
  unfolding insert_transaction_revisions run
  run-insert_transaction_revisions i [] s given stored h = rw append-nil
  run-insert_transaction_revisions i (r ∷ ids) s given stored h =
      let one : List TransactionRevisionRow = record { transaction_id = i; revision_id = r } ∷ [] in
      rw (transaction_revision_broken-eq-none i r s.tables given (stored r (ground arith)), run)
        (run-insert_transaction_revisions i ids (record s { tables = with_rows s.tables one }) given
            (λ q m. (
              (stored q (ground arith)).0,
              ground (
                arith,
                has_transaction_revision-append i q s.tables.transaction_revisions one,
                stored q,
              ),
            ))
            h.1
          ∙ rw append_assoc)

  -- The tables after `create_transaction`.
  abbrev pub with_batch : Instant → ClientId → List RevisionId → Tables V → Tables V
  with_batch now c ids t =
      with_rows (with_transaction now c t) (transaction_rows t.transactions_id_seq ids)

  transaction_broken-eq-none :
      (c : ClientId) (t : Tables V)
      → IsValid t
      → has_client c t.clients ≡ true
      → t.transactions_id_seq ≤ i64_max
      → transaction_broken c t ≡ none
  transaction_broken-eq-none c t v registered room =
      ground (arith, v.ids_given t.transactions_id_seq)

  pub run-create_transaction :
      (now : Instant) (c : ClientId) (ids : List RevisionId) (s : Session V)
      → IsValid s.tables
      → has_client c s.tables.clients ≡ true
      → s.tables.transactions_id_seq ≤ i64_max
      → ((r : RevisionId) → contains r ids ≡ true → object_of r s.tables.revisions ≢ none)
      → Distinct ids
      → run (create_transaction now c ids) s
        ≡ (ok s.tables.transactions_id_seq, record s { tables = with_batch now c ids s.tables })
  unfolding create_transaction run
  run-create_transaction now c ids s v registered room stored h =
      let i = s.tables.transactions_id_seq in
      let one : List TransactionRow = record { id = i; client_id = c; created_at = now } ∷ [] in
      rw
        (
          transaction_broken-eq-none c s.tables v registered room,
          run,
          run->>= (insert_transaction_revisions i ids),
          run-insert_transaction_revisions i ids
              (record s { tables = with_transaction now c s.tables })
              (ground (arith, has_transaction-append i s.tables.transactions one))
              (λ r m. (stored r m, ground (arith, v.transactions_stored i r, v.ids_given i))) h,
        )
        refl

has_transaction_revision-transaction_rows :
    (i : ℕ) (r : RevisionId) (j : ℕ) (ids : List RevisionId)
    → has_transaction_revision i r (transaction_rows j ids) ≡ (i == j && contains r ids)
has_transaction_revision-transaction_rows i r j [] = ground arith
has_transaction_revision-transaction_rows i r j (x ∷ ids) =
    ground (arith, has_transaction_revision-transaction_rows i r j ids)

module _ {V : Type 0} where
  pub with_batch-IsValid :
      (now : Instant) (c : ClientId) (ids : List RevisionId) (t : Tables V)
      → IsValid t
      → IsValid (with_batch now c ids t)
  with_batch-IsValid now c ids t v =
      let one : List TransactionRow =
        record { id = t.transactions_id_seq; client_id = c; created_at = now } ∷ [] in
      let rows : List TransactionRevisionRow = transaction_rows t.transactions_id_seq ids in
      record {
        parents_stored = v.parents_stored;
        heads_are_leaves = v.heads_are_leaves;
        ids_given = λ i h.
            ground
              (arith, has_transaction-append i t.transactions one, v.ids_given i, v.seq_started);
        seq_started = omega arith;
        transactions_stored = λ i r h. ground (
          arith,
          has_transaction_revision-append i r t.transaction_revisions rows,
          has_transaction_revision-transaction_rows i r t.transactions_id_seq ids,
          has_transaction-append i t.transactions one,
          v.transactions_stored i r,
        );
      }

  insert_transaction_revisions-Reaches :
      (i : ℕ) (ids : List RevisionId) (t : Tables V)
      → Reaches
          (λ _ t'. t' ≡ with_rows t (transaction_rows i ids))
          (insert_transaction_revisions i ids)
          t
  unfolding insert_transaction_revisions
  insert_transaction_revisions-Reaches i [] t = rw append-nil refl
  insert_transaction_revisions-Reaches i (r ∷ ids) t = λ passes.
      let one : List TransactionRevisionRow = record { transaction_id = i; revision_id = r } ∷ [] in
      (
        le_refl _,
        Reaches-mono (insert_transaction_revisions i ids) _ _ (with_rows t one)
            (λ _ t' e. e ∙ rw append_assoc)
            (insert_transaction_revisions-Reaches i ids (with_rows t one)),
      )

  pub create_transaction-Reaches :
      (now : Instant) (c : ClientId) (ids : List RevisionId) (t : Tables V)
      → Reaches (λ _ t'. t' ≡ with_batch now c ids t) (create_transaction now c ids) t
  unfolding create_transaction
  create_transaction-Reaches now c ids t = λ passes. (
    le-add_right t.transactions_id_seq 1,
    >>=-Reaches (insert_transaction_revisions t.transactions_id_seq ids) _ _
        (with_transaction now c t)
        (insert_transaction_revisions-Reaches t.transactions_id_seq ids (with_transaction now c t)),
  )
