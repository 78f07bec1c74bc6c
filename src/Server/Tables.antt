-- ===== src/Server/Tables.antt =====
-- rustend-server/migrations: the tables, and what their constraints say of one more row.
use rustend.Prelude.{
  ℕ, ◌==◌, if◌then◌else◌, Bool, true, false, ◌&&◌, ◌||◌, Option, none, some, List, [], ◌∷◌,
}
pub mod Valid
pub mod Laws
use rustend.Core.Ids.{Uuid, Text, Instant}

pub record ClientRow : Type 0 where
  pub id : Uuid
  pub registered_at : Instant
  pub user_id : Uuid

pub record RevisionRow (V : Type 0) : Type 0 where
  pub id : Uuid
  pub object_id : Uuid
  pub object_type : Text
  pub deleted : Bool
  pub payload : Option V
  pub created_at : Instant
  pub created_by : Uuid

-- `position` is an `i16`, kept as its value plus 32768.
pub record ParentRow : Type 0 where
  pub revision_id : Uuid
  pub parent_id : Uuid
  pub position : ℕ

pub record TransactionRow : Type 0 where
  pub id : ℕ
  pub client_id : Uuid
  pub created_at : Instant

pub record TransactionRevisionRow : Type 0 where
  pub transaction_id : ℕ
  pub revision_id : Uuid

pub record HeadRow : Type 0 where
  pub object_id : Uuid
  pub revision_id : Uuid

pub record FileRow : Type 0 where
  pub object_id : Uuid
  pub bytes : List ℕ

pub record Tables (V : Type 0) : Type 0 where
  pub clients : List ClientRow
  pub revisions : List (RevisionRow V)
  pub revision_parents : List ParentRow
  pub transactions : List TransactionRow
  pub transaction_revisions : List TransactionRevisionRow
  pub object_heads : List HeadRow
  pub files : List FileRow
  -- The sequence behind `transactions.id`, a `BIGSERIAL`: the id that it gives next.
  pub transactions_id_seq : ℕ

-- `REFERENCES clients(id)` and the primary key of `clients`.
abbrev pub has_client : Uuid → List ClientRow → Bool
has_client c [] = false
has_client c (row ∷ rows) = c == row.id || has_client c rows

-- The object of the revision with this id, `none` if there is no such row: the primary key of
-- `revisions`, and `REFERENCES revisions(id)`.
abbrev pub object_of : {V : Type 0} → Uuid → List (RevisionRow V) → Option Uuid
object_of r [] = none
object_of r (row ∷ rows) = if r == row.id then some row.object_id else object_of r rows

-- `CONSTRAINT active_has_data`.
abbrev pub active_has_data : {V : Type 0} → Bool → Option V → Bool
active_has_data false (some v) = true
active_has_data true none = true
active_has_data _ _ = false

abbrev pub has_parent_row : Uuid → Uuid → List ParentRow → Bool
has_parent_row r p [] = false
has_parent_row r p (row ∷ rows) =
    r == row.revision_id && p == row.parent_id || has_parent_row r p rows

abbrev pub has_transaction : ℕ → List TransactionRow → Bool
has_transaction t [] = false
has_transaction t (row ∷ rows) = t == row.id || has_transaction t rows

abbrev pub has_transaction_revision : ℕ → Uuid → List TransactionRevisionRow → Bool
has_transaction_revision t r [] = false
has_transaction_revision t r (row ∷ rows) =
    t == row.transaction_id && r == row.revision_id || has_transaction_revision t r rows

abbrev pub has_head : Uuid → Uuid → List HeadRow → Bool
has_head o r [] = false
has_head o r (row ∷ rows) = o == row.object_id && r == row.revision_id || has_head o r rows
