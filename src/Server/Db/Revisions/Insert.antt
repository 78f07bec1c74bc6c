-- ===== src/Server/Db/Revisions/Insert.antt =====
-- revisions.rs: inserting a revision that breaks no constraint.
use native.Mathlib.Nat.{le_refl}
use mathlib.Core.List.{append-nil, append_assoc}
use rustend.Prelude.{
  ℕ, suc, ◌==◌, true, false, none, some, List, [], ◌∷◌, ◌++◌, contains, Distinct, or_else, ◌≡◌,
  refl, ◌∙◌, arith, inl, inr, Option-cases, if◌then◌else◌,
}
use rustend.Core.Ids.{Uuid, RevisionId}
use rustend.Core.Lineage.{parents}
use rustend.Core.Content.{Content-cases}
use rustend.Core.Revision.{Revision}
use rustend.Server.Tables.{Tables, RevisionRow, ParentRow, object_of, has_parent_row, has_client}
use rustend.Server.Tables.Laws.{has_parent_row-append, object_of-append}
use rustend.Server.Tables.Valid.{IsValid}
use rustend.Server.Sql.{ok, Session, run}
use rustend.Server.Sql.Laws.{Then, Then-mono}
use rustend.Server.Sql.Reaches.{Reaches, Reaches-mono}
use rustend.Server.Db.Revisions.{
  insert_parents, insert_revision, as_i16, parent_broken, revision_broken, row_of,
}
use rustend.Server.Db.Revisions.Statements.{parent_rows}

abbrev pub with_tables : {V : Type 0} → Session V → Tables V → Session V
with_tables s t = record s { tables = t }

abbrev pub with_parents : {V : Type 0} → Tables V → List ParentRow → Tables V
with_parents t rows = record t { revision_parents = t.revision_parents ++ rows }

module _ {V : Type 0} where
  parent_broken-eq-none :
      (r p : RevisionId) (o : Uuid) (t : Tables V)
      → object_of r t.revisions ≡ some o
      → object_of p t.revisions ≡ some o
      → has_parent_row r p t.revision_parents ≡ false
      → parent_broken r p t ≡ none
  parent_broken-eq-none r p o t stored known absent = rw (absent, stored, known)

  run-insert_parents :
      (r : RevisionId) (o : Uuid) (pos : ℕ) (ps : List RevisionId) (s : Session V)
      → object_of r s.tables.revisions ≡ some o
      → ((p : RevisionId) → contains p ps ≡ true → object_of p s.tables.revisions ≡ some o)
      → ((p : RevisionId)
          → contains p ps ≡ true
          → has_parent_row r p s.tables.revision_parents ≡ false)
      → Distinct ps
      → run (insert_parents r pos ps) s
        ≡ (ok tt, with_tables s (with_parents s.tables (parent_rows r pos ps)))
  unfolding insert_parents run
  run-insert_parents r o pos [] s stored known absent h = rw append-nil
  run-insert_parents r o pos (p ∷ ps) s stored known absent h =
      let one : List ParentRow =
        record { revision_id = r; parent_id = p; position = as_i16 pos } ∷ [] in
      rw
        (
          parent_broken-eq-none r p o s.tables stored (known p (ground arith))
              (absent p (ground arith)),
          run,
        )
        (run-insert_parents r o (suc pos) ps (with_tables s (with_parents s.tables one)) stored
            (λ q m. known q (ground arith))
            (λ q m.
              ground (arith, has_parent_row-append r q s.tables.revision_parents one, absent q))
            h.1
          ∙ rw append_assoc)

-- The revision breaks no constraint, and its parents belong to its object.
pub record Fits {V : Type 0} (t : Tables V) (rev : Revision V) : Type 0 where
  pub fresh : object_of rev.id t.revisions ≡ none
  pub distinct : Distinct (parents rev.lineage)
  pub known :
      (p : RevisionId)
      → contains p (parents rev.lineage) ≡ true
      → object_of p t.revisions ≡ some rev.object_id
  pub author : has_client rev.created_by t.clients ≡ true

module _ {V : Type 0} where
  abbrev pub with_row : Tables V → RevisionRow V → Tables V
  with_row t row = record t { revisions = t.revisions ++ (row ∷ []) }

  -- The tables after `insert_revision`.
  abbrev pub with_revision : Tables V → Revision V → Tables V
  with_revision t rev =
      with_parents (with_row t (row_of rev)) (parent_rows rev.id 0 (parents rev.lineage))

  revision_broken-eq-none :
      (rev : Revision V) (t : Tables V) → Fits t rev → revision_broken (row_of rev) t ≡ none
  unfolding row_of
  revision_broken-eq-none rev t f = elim (Content-cases rev.content) [
    | inl (v, e) ↦ rw (e, f.fresh, f.author)
    | inr e ↦ rw (e, f.fresh, f.author)
  ]

  pub object_of-with_row :
      (rev : Revision V) (t : Tables V) (r : RevisionId)
      → object_of r (with_row t (row_of rev)).revisions
        ≡ or_else (object_of r t.revisions) (if r == rev.id then some rev.object_id else none)
  unfolding row_of
  object_of-with_row rev t r = object_of-append r t.revisions (row_of rev)

  pub run-insert_revision :
      (rev : Revision V) (s : Session V)
      → IsValid s.tables
      → Fits s.tables rev
      → run (insert_revision rev) s ≡ (ok tt, with_tables s (with_revision s.tables rev))
  unfolding insert_revision run
  run-insert_revision rev s v f =
      rw (revision_broken-eq-none rev s.tables f, run)
        (run-insert_parents rev.id rev.object_id 0 (parents rev.lineage)
          (with_tables s (with_row s.tables (row_of rev)))
          (ground (arith, object_of-with_row rev s.tables rev.id, f.fresh))
          (λ p m. ground (arith, object_of-with_row rev s.tables p, f.known p m))
          (λ p m. ground (arith, v.parents_stored rev.id p, f.fresh)) f.distinct)

  insert_parents-Then :
      (r : RevisionId) (pos : ℕ) (ps : List RevisionId) (s : Session V)
      → Then (run (insert_parents r pos ps) s) (λ s'. s'.tables.revisions ≡ s.tables.revisions)
  unfolding insert_parents run
  insert_parents-Then r pos [] s = refl
  insert_parents-Then r pos (p ∷ ps) s = elim (Option-cases (parent_broken r p s.tables)) [
    | inl passes ↦ rw (passes, run) (insert_parents-Then r (suc pos) ps _)
    | inr (e, broken) ↦ rw (broken, run) tt
  ]

  revision_broken-fresh :
      (rev : Revision V) (t : Tables V)
      → revision_broken (row_of rev) t ≡ none
      → object_of rev.id t.revisions ≡ none
  unfolding row_of
  revision_broken-fresh rev t h = elim (Content-cases rev.content) [
    | inl (v, e) ↦ ground (arith, h, e)
    | inr e ↦ ground (arith, h, e)
  ]

  -- An insert that succeeds has met a new id, and adds its row.
  pub insert_revision-Then :
      (rev : Revision V) (s : Session V)
      → Then (run (insert_revision rev) s) (λ s'.
        (object_of rev.id s.tables.revisions ≡ none)
        × (s'.tables.revisions ≡ (with_row s.tables (row_of rev)).revisions))
  unfolding insert_revision run
  insert_revision-Then rev s = elim (Option-cases (revision_broken (row_of rev) s.tables)) [
    | inl passes ↦
        let s₁ : Session V = with_tables s (with_row s.tables (row_of rev)) in
        rw (passes, run)
          (Then-mono (run (insert_parents rev.id 0 (parents rev.lineage)) s₁)
            (λ s'. s'.tables.revisions ≡ s₁.tables.revisions)
            (λ s'.
              (object_of rev.id s.tables.revisions ≡ none)
              × (s'.tables.revisions ≡ s₁.tables.revisions))
            (λ s' e. (revision_broken-fresh rev s.tables passes, e))
            (insert_parents-Then rev.id 0 (parents rev.lineage) s₁))
    | inr (e, broken) ↦ rw (broken, run) tt
  ]

  insert_parents-Reaches :
      (r : RevisionId) (pos : ℕ) (ps : List RevisionId) (t : Tables V)
      → Reaches (λ _ t'. t' ≡ with_parents t (parent_rows r pos ps)) (insert_parents r pos ps) t
  unfolding insert_parents
  insert_parents-Reaches r pos [] t = rw append-nil refl
  insert_parents-Reaches r pos (p ∷ ps) t = λ passes.
      let one : List ParentRow =
        record { revision_id = r; parent_id = p; position = as_i16 pos } ∷ [] in
      (
        le_refl _,
        Reaches-mono (insert_parents r (suc pos) ps) _ _ (with_parents t one)
            (λ _ t' e. e ∙ rw append_assoc)
            (insert_parents-Reaches r (suc pos) ps (with_parents t one)),
      )

  -- An insert passes its constraints on a new id alone, and adds the revision.
  pub insert_revision-Reaches :
      (rev : Revision V) (t : Tables V)
      → Reaches
          (λ _ t'. (object_of rev.id t.revisions ≡ none) × (t' ≡ with_revision t rev))
          (insert_revision rev)
          t
  unfolding insert_revision
  insert_revision-Reaches rev t = λ passes.
      let fresh = revision_broken-fresh rev t passes in
      (
        le_refl _,
        Reaches-mono (insert_parents rev.id 0 (parents rev.lineage)) _ _ (with_row t (row_of rev))
            (λ _ t' e. (fresh, e))
            (insert_parents-Reaches rev.id 0 (parents rev.lineage) (with_row t (row_of rev))),
      )
