-- ===== src/Server/Db/Push/Duplicates.antt =====
-- push.rs: a batch that would write one id twice is refused by the database, as a whole.
use rustend.Prelude.{true, none, List, [], ◌∷◌, contains, Distinct, ◌≡◌, arith, ap, ◌∙◌}
use rustend.Core.Ids.{RevisionId}
use rustend.Core.Lineage.{parents}
use rustend.Core.Revision.{Revision}
use rustend.Server.Tables.{Tables, object_of}
use rustend.Server.Sql.{Session, run}
use rustend.Server.Sql.Laws.{Then, Then-mono, Then->>=}
use rustend.Server.Db.Revisions.{insert_revision, row_of}
use rustend.Server.Db.Revisions.Insert.{with_row, object_of-with_row, insert_revision-Then}
use rustend.Server.Db.ObjectHeads.{update_heads}
use rustend.Server.Db.ObjectHeads.Statements.{update_heads-Then}
use rustend.Server.Db.Push.{write_all}
use rustend.Server.Db.Push.Accepted.{ids}

module _ {V : Type 0} where
  abbrev pub AllNew : List (Revision V) → Tables V → Type 0
  AllNew revisions t =
      Distinct (ids revisions)
      × ((x : RevisionId) → contains x (ids revisions) ≡ true → object_of x t.revisions ≡ none)

  pub AllNew-cons :
      (rev : Revision V) (revisions : List (Revision V)) (t t' : Tables V)
      → object_of rev.id t.revisions ≡ none
      → t'.revisions ≡ (with_row t (row_of rev)).revisions
      → AllNew revisions t'
      → AllNew (rev ∷ revisions) t
  AllNew-cons rev revisions t t' fresh same (distinct, new) =
      let seen = λ (x : RevisionId). ap (object_of x) same ∙ object_of-with_row rev t x in
      ((ground (arith, seen rev.id, new rev.id), distinct), λ x m. ground (arith, seen x, new x))

  -- A write that succeeds has met distinct, new ids.
  pub write_all-Then :
      (revisions : List (Revision V)) (s : Session V)
      → Then (run (write_all revisions) s) (λ _. AllNew revisions s.tables)
  unfolding write_all run
  write_all-Then [] s = (tt, λ x m. cc)
  write_all-Then (rev ∷ revisions) s =
      Then->>= (insert_revision rev) _ s _ _ (insert_revision-Then rev s) λ _ s₁ h₁.
        Then->>= (update_heads rev.object_id (parents rev.lineage) rev.id) _ s₁ _ _
          (update_heads-Then rev.object_id (parents rev.lineage) rev.id s₁)
          λ _ s₂ h₂.
            Then-mono (run (write_all revisions) s₂) _ _
              (λ _ h. AllNew-cons rev revisions s.tables s₂.tables h₁.0 (h₂ ∙ h₁.1) h)
              (write_all-Then revisions s₂)
