-- ===== src/Server/Db/Pull/Maps.antt =====
-- pull.rs: what the maps of heads and of rows hold.
use rustend.Prelude.{
  ℕ, suc, false, map, ◌&&◌, refl, ◌==◌, true, ◌&&◌, ◌||◌, Bool-cases, none, some, inl, inr, List,
  [], ◌∷◌, keep, All, contains, contains-append, lookup, ◌≡◌, refl, arith,
}
use rustend.Core.Ids.{Uuid}
use rustend.Server.Tables.{RevisionRow, HeadRow, has_head}
use rustend.Server.Db.Revisions.{push_under}
use rustend.Server.Db.Pull.{heads_by_object, remove, rows_by_id}

pub suc-not_zero : (n : ℕ) → (suc n == 0) ≡ false
suc-not_zero n = ground arith

-- The ids found under an object.
abbrev pub under : Uuid → List (Uuid × List Uuid) → List Uuid
under o m = elim (lookup o m) [ none ↦ [] | some ids ↦ ids ]

pub contains-under-push_under :
    (o r o' r' : Uuid) (m : List (Uuid × List Uuid))
    → contains r (under o (push_under o' r' m)) ≡ (contains r (under o m) || (o == o' && r == r'))
contains-under-push_under o r o' r' [] = ground arith
contains-under-push_under o r o' r' ((k, ids) ∷ m) = elim (Bool-cases (o' == k)) [
  | inl same ↦ elim (Bool-cases (o == k)) [
    | inl found ↦ ground (arith, same, found, contains-append r ids (r' ∷ []))
    | inr other ↦ ground (arith, same, other)
  ]
  | inr apart ↦ elim (Bool-cases (o == k)) [
    | inl found ↦ ground (arith, apart, found)
    | inr other ↦ ground (arith, apart, other, contains-under-push_under o r o' r' m)
  ]
]

pub has_head-heads_by_object :
    (o r : Uuid) (rows : List HeadRow) (m : List (Uuid × List Uuid))
    → contains r (under o (heads_by_object rows m)) ≡ (contains r (under o m) || has_head o r rows)
has_head-heads_by_object o r [] m = ground arith
has_head-heads_by_object o r (row ∷ rows) m = ground (
  arith,
  has_head-heads_by_object o r rows (push_under row.object_id row.revision_id m),
  contains-under-push_under o r row.object_id row.revision_id m,
)

pub has_head-keep :
    (o r : Uuid) (os : List Uuid) (rows : List HeadRow)
    → has_head o r (keep (λ (row : HeadRow). contains row.object_id os) rows) ≡ true
    → has_head o r rows ≡ true
has_head-keep o r os [] h = h
has_head-keep o r os (row ∷ rows) h = ground (arith, h, has_head-keep o r os rows)

pub has_head-keep-eq :
    (o r : Uuid) (os : List Uuid) (rows : List HeadRow)
    → has_head o r (keep (λ (row : HeadRow). contains row.object_id os) rows)
      ≡ (has_head o r rows && contains o os)
has_head-keep-eq o r os [] = refl
has_head-keep-eq o r os (row ∷ rows) = ground (arith, has_head-keep-eq o r os rows)

pub has_head-contains :
    (o r : Uuid) (rows : List HeadRow)
    → has_head o r rows ≡ true
    → contains r (map (λ (row : HeadRow). row.revision_id) rows) ≡ true
has_head-contains o r [] h = cc
has_head-contains o r (row ∷ rows) h = ground (arith, h, has_head-contains o r rows)

module _ {V : Type 0} where
  -- Each row stands under its id.
  abbrev pub Keyed : List (Uuid × RevisionRow V) → Type 0
  Keyed m = All (λ e. e.0 ≡ e.1.id) m

  pub rows_by_id-Keyed : (rows : List (RevisionRow V)) → Keyed (rows_by_id rows)
  rows_by_id-Keyed [] = tt
  rows_by_id-Keyed (row ∷ rows) = (refl, rows_by_id-Keyed rows)

  pub remove-Keyed : (k : Uuid) (m : List (Uuid × RevisionRow V)) → Keyed m → Keyed (remove k m)
  remove-Keyed k [] h = tt
  remove-Keyed k (e ∷ m) h = elim (Bool-cases (k == e.0)) [
    | inl gone ↦ rw gone (remove-Keyed k m h.1)
    | inr stays ↦ rw stays (h.0, remove-Keyed k m h.1)
  ]

  pub lookup-Keyed :
      (k : Uuid) (row : RevisionRow V) (m : List (Uuid × RevisionRow V))
      → Keyed m
      → lookup k m ≡ some row
      → row.id ≡ k
  lookup-Keyed k row [] h e = cc
  lookup-Keyed k row ((j, x) ∷ m) h e = elim (Bool-cases (k == j)) [
    | inl found ↦ ground (arith, h.0, e, found)
    | inr other ↦ lookup-Keyed k row m h.1 (rw other at e)
  ]
