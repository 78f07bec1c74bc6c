-- ===== src/Server/Tables/Laws.antt =====
-- How the tests on a table answer after more rows.
use rustend.Prelude.{
  ℕ, ◌==◌, if◌then◌else◌, ◌||◌, none, some, List, [], ◌∷◌, ◌++◌, or_else, ◌≡◌, refl, arith,
}
use rustend.Core.Ids.{Uuid}
use rustend.Server.Tables.{
  RevisionRow, ParentRow, HeadRow, TransactionRow, TransactionRevisionRow, object_of,
  has_parent_row, has_head, has_transaction, has_transaction_revision,
}
use rustend.Server.Tables.Valid.{is_parent}

pub object_of-append :
    {V : Type 0} (r : Uuid) (rows : List (RevisionRow V)) (row : RevisionRow V)
    → object_of r (rows ++ (row ∷ []))
      ≡ or_else (object_of r rows) (if r == row.id then some row.object_id else none)
object_of-append r [] row = refl
object_of-append r (x ∷ rows) row = ground (arith, object_of-append r rows row)

pub has_parent_row-append :
    (r p : Uuid) (xs ys : List ParentRow)
    → has_parent_row r p (xs ++ ys) ≡ (has_parent_row r p xs || has_parent_row r p ys)
has_parent_row-append r p [] ys = refl
has_parent_row-append r p (x ∷ xs) ys = ground (arith, has_parent_row-append r p xs ys)

pub is_parent-append :
    (p : Uuid) (xs ys : List ParentRow)
    → is_parent p (xs ++ ys) ≡ (is_parent p xs || is_parent p ys)
is_parent-append p [] ys = refl
is_parent-append p (x ∷ xs) ys = ground (arith, is_parent-append p xs ys)

pub has_head-append :
    (o r : Uuid) (xs ys : List HeadRow)
    → has_head o r (xs ++ ys) ≡ (has_head o r xs || has_head o r ys)
has_head-append o r [] ys = refl
has_head-append o r (x ∷ xs) ys = ground (arith, has_head-append o r xs ys)

pub has_transaction-append :
    (i : ℕ) (xs ys : List TransactionRow)
    → has_transaction i (xs ++ ys) ≡ (has_transaction i xs || has_transaction i ys)
has_transaction-append i [] ys = refl
has_transaction-append i (x ∷ xs) ys = ground (arith, has_transaction-append i xs ys)

pub has_transaction_revision-append :
    (i : ℕ) (r : Uuid) (xs ys : List TransactionRevisionRow)
    → has_transaction_revision i r (xs ++ ys)
      ≡ (has_transaction_revision i r xs || has_transaction_revision i r ys)
has_transaction_revision-append i r [] ys = refl
has_transaction_revision-append i r (x ∷ xs) ys =
    ground (arith, has_transaction_revision-append i r xs ys)
