-- ===== src/Server/Db/Push/Concurrent.antt =====
-- push.rs: a push is safe between the steps of other requests.
use native.Mathlib.Nat.{le_refl}
use mathlib.Core.Path.{subst}
use rustend.Prelude.{◌≤◌, true, List, [], ◌∷◌, Distinct, inl, inr, ◌⊎◌, ◌≡◌, sym}
use rustend.Core.Ids.{ClientId, Instant}
use rustend.Core.Revision.{Revision}
use rustend.Server.Error.{ServerError}
use rustend.Server.Tables.{Tables, has_client}
use rustend.Server.Tables.Valid.{IsValid}
use rustend.Server.Sql.{from_sql, rolled_back}
use rustend.Server.Sql.Reaches.{
  CommitsTo, >>=-CommitsTo_then, from_sql-CommitsTo, run_under-CommitsTo,
}
use rustend.Server.Sql.Interleave.{Kept, Safe}
use rustend.Server.Sql.Leads.{Leads-Safe}
use rustend.Server.Db.Push.{
  Verdicts, no_verdicts, judge_all, write_body, store, respond, push_revisions,
}
use rustend.Server.Db.Push.Accepted.{ids, kept}
use rustend.Server.Db.Push.Validity.{rolled_back-IsValid}
use rustend.Server.Db.Push.Judged.{Decisions, judge_all-Leads}
use rustend.Server.Db.Push.Ready.{Ready, Decisions-Ready}
use rustend.Server.Db.Push.Written.{write_body-Kept}

module _ {V : Type 0} where
  pub rolled_back-Kept :
      (t left : Tables V)
      → IsValid t
      → ((left ≡ rolled_back t left) × (t.transactions_id_seq ≤ left.transactions_id_seq))
        ⊎ Kept t left
      → Kept t left
  rolled_back-Kept t left v (inl (undone, q)) =
      subst (Kept t) (sym undone)
        (rolled_back-IsValid t left v q, record { objects = λ r o h. h; clients = λ c h. h })
  rolled_back-Kept t left v (inr kept) = kept

  respond-Safe :
      (down : ServerError) (now : Instant) (c : ClientId) (s : Verdicts)
      (revisions : List (Revision V)) (t : Tables V)
      → has_client c t.clients ≡ true
      → (Distinct (ids revisions) → Ready c t [] revisions)
      → Safe down (from_sql (respond now c s revisions)) t
  unfolding respond store
  respond-Safe down now c s [] t registered ready = tt
  respond-Safe down now c s (rev ∷ revisions) t registered ready = λ t' g v fs.
      let body = write_body now c (rev ∷ revisions) s.accepted in
      let commits : CommitsTo (Kept t') body t' =
        write_body-Kept c t now (rev ∷ revisions) s.accepted t' v (g.clients c registered) g
          ready in
      rolled_back-Kept t' _ v (
        run_under-CommitsTo down (Kept t') _ fs t' t' (le_refl _) (
          from_sql-CommitsTo _ (Kept t') t'
            (>>=-CommitsTo_then body _ (Kept t') t' commits (λ _. tt))))

  -- A push by a client that is registered is safe.
  pub push_revisions-Safe :
      (down : ServerError) (now : Instant) (c : ClientId) (revisions : List (Revision V))
      (t : Tables V)
      → has_client c t.clients ≡ true
      → Safe down (push_revisions now c revisions) t
  unfolding push_revisions
  push_revisions-Safe down now c revisions t registered =
      Leads-Safe down (judge_all c revisions no_verdicts) _
        (λ t' S. (has_client c t'.clients ≡ true) × Decisions c revisions no_verdicts t' S) t
        (judge_all-Leads c revisions no_verdicts (λ t'. has_client c t'.clients ≡ true) t
          (λ a b g h. g.clients c h) registered)
        λ S t' g (known, decisions).
          respond-Safe down now c S (kept S revisions) t' known
            (λ d. Decisions-Ready c t' revisions no_verdicts S decisions d (λ x m. cc))
