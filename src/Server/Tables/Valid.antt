-- ===== src/Server/Tables/Valid.antt =====
-- What the tables promise to each other, beyond their constraints.
use rustend.Prelude.{
  ℕ, ◌<◌, ◌==◌, Bool, true, ◌&&◌, ◌||◌, not, none, some, List, [], ◌∷◌, ◌≡◌, ◌≢◌, Bool-cases, inl,
  inr, arith,
}
use rustend.Core.Ids.{Uuid}
use rustend.Server.Tables.{
  Tables, RevisionRow, ParentRow, object_of, has_parent_row, has_transaction,
  has_transaction_revision, has_head,
}

-- The revision is stored and belongs to the object.
abbrev pub owns : {V : Type 0} → Uuid → Uuid → List (RevisionRow V) → Bool
owns o r rows = elim (object_of r rows) [ none ↦ Bool.false | some o' ↦ o == o' ]

-- Some stored revision has this one as a parent.
abbrev pub is_parent : Uuid → List ParentRow → Bool
is_parent p [] = Bool.false
is_parent p (row ∷ rows) = p == row.parent_id || is_parent p rows

-- A leaf of an object: a revision of it that no other revision follows.
abbrev pub is_leaf : {V : Type 0} → Uuid → Uuid → Tables V → Bool
is_leaf o r t = owns o r t.revisions && not (is_parent r t.revision_parents)

pub record IsValid {V : Type 0} (t : Tables V) : Type 0 where
  -- A parent stands in the table of revisions, and belongs to the same object as its child.
  pub parents_stored :
      (r p : Uuid)
      → has_parent_row r p t.revision_parents ≡ true
      → (object_of p t.revisions ≢ none) × (object_of r t.revisions ≡ object_of p t.revisions)
  -- The heads of an object are its leaves, no more and no less.
  pub heads_are_leaves : (o r : Uuid) → has_head o r t.object_heads ≡ is_leaf o r t
  pub ids_given :
      (i : ℕ) → has_transaction i t.transactions ≡ true → (0 < i) × (i < t.transactions_id_seq)
  pub seq_started : 0 < t.transactions_id_seq
  pub transactions_stored :
      (i : ℕ) (r : Uuid)
      → has_transaction_revision i r t.transaction_revisions ≡ true
      → has_transaction i t.transactions ≡ true

is_parent_of :
    (p : Uuid) (rows : List ParentRow)
    → is_parent p rows ≡ true
    → (r : Uuid) × (has_parent_row r p rows ≡ true)
is_parent_of p [] h = cc
is_parent_of p (row ∷ rows) h = elim (Bool-cases (p == row.parent_id)) [
  | inl same ↦ (row.revision_id, ground arith)
  | inr other ↦
      let found : (r : Uuid) × (has_parent_row r p rows ≡ true) =
        is_parent_of p rows (ground arith) in
      (found.0, ground (arith, found.1))
]

-- A revision that is some revision's parent is stored.
pub is_parent_stored :
    {V : Type 0} {t : Tables V}
    → IsValid t
    → (p : Uuid) → is_parent p t.revision_parents ≡ true
    → object_of p t.revisions ≢ none
is_parent_stored {t} v p h =
    let (r, found) = is_parent_of p t.revision_parents h in (v.parents_stored r p found).0
