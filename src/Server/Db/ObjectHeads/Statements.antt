-- ===== src/Server/Db/ObjectHeads/Statements.antt =====
-- object_heads.rs: the statements that move an object's heads.
use native.Mathlib.Nat.{le_refl}
use rustend.Prelude.{
  ◌==◌, ◌&&◌, ◌||◌, not, List, [], ◌∷◌, contains, ◌≡◌, some, refl, arith, Bool-cases, Option-cases,
  inl, inr,
}
use rustend.Core.Ids.{Uuid}
use rustend.Server.Tables.{Tables, HeadRow, has_head, object_of}
use rustend.Server.Sql.{ok, Session, run}
use rustend.Server.Tables.Laws.{has_head-append}
use rustend.Server.Sql.Laws.{Then}
use rustend.Server.Sql.Shape.{Plain}
use rustend.Server.Sql.Reaches.{Reaches}
use rustend.Server.Db.ObjectHeads.{update_heads, without_heads, with_head}

module _ (V : Type 0) where
  pub update_heads-Plain :
      (o : Uuid) (ps : List Uuid) (r : Uuid) → Plain (update_heads {V = V} o ps r)
  unfolding update_heads
  update_heads-Plain o [] r = λ _. (le_refl _, tt)
  update_heads-Plain o (p ∷ ps) r = λ _. (le_refl _, λ _. (le_refl _, tt))

pub has_head-without_heads :
    (o r object_id : Uuid) (ids : List Uuid) (rows : List HeadRow)
    → has_head o r (without_heads object_id ids rows)
      ≡ (has_head o r rows && not (o == object_id && contains r ids))
has_head-without_heads o r object_id ids [] = refl
has_head-without_heads o r object_id ids (row ∷ rows) =
    ground (arith, has_head-without_heads o r object_id ids rows)

pub has_head-with_head :
    (o r object_id new : Uuid) (rows : List HeadRow)
    → has_head o r (with_head object_id new rows)
      ≡ (has_head o r rows || (o == object_id && r == new))
has_head-with_head o r object_id new rows = elim (Bool-cases (has_head object_id new rows)) [
  | inl present ↦ rw present (ground arith)
  | inr absent ↦ rw (absent, has_head-append) (ground arith)
]

without_heads-nil : (o : Uuid) (rows : List HeadRow) → without_heads o [] rows ≡ rows
without_heads-nil o [] = refl
without_heads-nil o (row ∷ rows) = ground (arith, without_heads-nil o rows)

module _ {V : Type 0} where
  -- The tables after `update_heads`.
  abbrev pub with_heads : Tables V → Uuid → List Uuid → Uuid → Tables V
  with_heads t o ps r = record t {
    object_heads = with_head o r (without_heads o ps t.object_heads);
  }

  pub run-update_heads :
      (o : Uuid) (ps : List Uuid) (r : Uuid) {o' : Uuid} (s : Session V)
      → object_of r s.tables.revisions ≡ some o'
      → run (update_heads o ps r) s ≡ (ok tt, record s { tables = with_heads s.tables o ps r })
  unfolding update_heads run
  run-update_heads o [] r s stored = rw (without_heads-nil, stored, run)
  run-update_heads o (p ∷ ps) r s stored = rw (stored, run)

  pub update_heads-Then :
      (o : Uuid) (ps : List Uuid) (r : Uuid) (s : Session V)
      → Then (run (update_heads o ps r) s) (λ s'. s'.tables.revisions ≡ s.tables.revisions)
  unfolding update_heads run
  update_heads-Then o [] r s = elim (Option-cases (object_of r s.tables.revisions)) [
    | inl absent ↦ rw (absent, run) tt
    | inr (o', stored) ↦ rw (stored, run) refl
  ]
  update_heads-Then o (p ∷ ps) r s = elim (Option-cases (object_of r s.tables.revisions)) [
    | inl absent ↦ rw (absent, run) tt
    | inr (o', stored) ↦ rw (stored, run) refl
  ]

  pub update_heads-Reaches :
      (o : Uuid) (ps : List Uuid) (r : Uuid) (t : Tables V)
      → Reaches (λ _ t'. t' ≡ with_heads t o ps r) (update_heads o ps r) t
  unfolding update_heads
  update_heads-Reaches o [] r t = λ passes. (le_refl _, rw without_heads-nil refl)
  update_heads-Reaches o (p ∷ ps) r t = λ _. (le_refl _, λ passes. (le_refl _, refl))
