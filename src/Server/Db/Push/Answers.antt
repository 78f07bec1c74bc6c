-- ===== src/Server/Db/Push/Answers.antt =====
-- push.rs: a response answers for each revision of its request once.
use mathlib.Core.Path.{subst}
use rustend.Prelude.{
  ℕ, ◌+◌, none, some, Option, List, [], ◌∷◌, ◌++◌, map, count, count-append, ◌≡◌, refl, sym, ◌∙◌,
  ap, arith,
}
use rustend.Core.Ids.{ClientId, Instant, TransactionId}
use rustend.Core.Revision.{Revision}
use rustend.Core.Protocol.{RejectedRevision, RejectionReason, PushResponse}
use rustend.Server.Error.{database, connection, ServerError, SqlError}
use rustend.Server.Tables.{Tables}
use rustend.Server.Sql.{Result, Session, ok, err, ret, idle, run, run_under, Fate}
use rustend.Server.Sql.Laws.{chain, wrap, run->>=}
use rustend.Server.Sql.Shape.{run_under-eq-run}
use rustend.Server.Db.Push.{Verdicts, no_verdicts, conclude, respond, store, push_revisions}
use rustend.Server.Db.Push.Judge.{verdict, verdicts}
use rustend.Server.Db.Push.Accepted.{ids}
use rustend.Server.Db.Push.Correct.{decided, written, run-push_revisions}

abbrev pub rejected_ids : List RejectedRevision → List ℕ
rejected_ids = map (λ (r : RejectedRevision). r.revision_id)

-- How often an id is answered for.
abbrev pub answers : ℕ → List ℕ → List RejectedRevision → ℕ
answers x accepted rejected = count x accepted + count x (rejected_ids rejected)

rejected_ids-append :
    (xs ys : List RejectedRevision) → rejected_ids (xs ++ ys) ≡ rejected_ids xs ++ rejected_ids ys
rejected_ids-append [] ys = refl
rejected_ids-append (x ∷ xs) ys = ap (λ l. x.revision_id ∷ l) (rejected_ids-append xs ys)

-- What a response takes from the decisions.
abbrev Carries : Verdicts → Result ServerError PushResponse → Type 0
Carries s (ok r) = (r.accepted ≡ s.accepted) × (r.rejected ≡ s.rejected)
Carries s (err e) = Unit

Carries-eq :
    (s : Verdicts) (r : Result ServerError PushResponse) (p : PushResponse)
    → Carries s r
    → r ≡ ok p
    → (p.accepted ≡ s.accepted) × (p.rejected ≡ s.rejected)
Carries-eq s r p h e = subst (Carries s) e h

module _ {V : Type 0} where
  conclude-answers :
      (x : ℕ) (rev : Revision V) (v : Option RejectionReason) (s : Verdicts)
      → let s' = conclude rev v s in
        answers x s'.accepted s'.rejected ≡ answers x s.accepted s.rejected + count x (rev.id ∷ [])
  conclude-answers x rev none s = omega (arith, count-append x s.accepted (rev.id ∷ []))
  conclude-answers x rev (some reason) s =
      let one : List RejectedRevision = record { revision_id = rev.id; reason = reason } ∷ [] in
      rw rejected_ids-append
        (omega (arith, count-append x (rejected_ids s.rejected) (rejected_ids one)))

  verdicts-answers :
      (x : ℕ) (t : Tables V) (c : ClientId) (revisions : List (Revision V)) (s : Verdicts)
      → let s' = verdicts t c revisions s in
        answers x s'.accepted s'.rejected
        ≡ answers x s.accepted s.rejected + count x (ids revisions)
  unfolding verdicts
  verdicts-answers x t c [] s = omega arith
  verdicts-answers x t c (rev ∷ revisions) s =
      let v = verdict t c s.accepted_objects rev in
      verdicts-answers x t c revisions (conclude rev v s)
      ∙ omega (arith, conclude-answers x rev v s)

  respond-Carries :
      (now : Instant) (c : ClientId) (s : Verdicts) (revisions : List (Revision V)) (t : Tables V)
      → Carries s (wrap (run (respond now c s revisions) (idle t))).0
  unfolding respond run
  respond-Carries now c s [] t = (refl, refl)
  respond-Carries now c s (rev ∷ revisions) t =
      rw run->>= (go (run (store now c (rev ∷ revisions) s.accepted) (idle t)))
    where
      go :
          (r : Result SqlError TransactionId × Session V)
          → Carries s
              (wrap (
                chain r (λ a s'.
                  run {V = V} {E = SqlError}
                    (ret
                      (record { transaction_id = a; accepted = s.accepted; rejected = s.rejected }))
                    s'))).0
      go (ok a, s') = (refl, refl)
      go (err e, s') = tt

  -- A response, whatever became of the messages, answers for each id as often as the request names
  -- it, by accepting or by rejecting it.
  pub answers-push_revisions :
      (now : Instant) (c : ClientId) (revisions : List (Revision V)) (fates : List Fate)
      (t : Tables V) (p : PushResponse)
      → (run_under (database connection) (push_revisions now c revisions) fates (idle t)).0 ≡ ok p
      → (x : ℕ) → answers x p.accepted p.rejected ≡ count x (ids revisions)
  answers-push_revisions now c revisions fates t p h x =
      let program = push_revisions now c revisions in
      let s : Verdicts = decided t c revisions in
      let clean : (run program (idle t)).0 ≡ ok p =
        ap (λ r. r.0) (sym (run_under-eq-run (database connection) program fates (idle t) p h))
        ∙ h in
      let same =
        Carries-eq s _ p (respond-Carries now c s (written t c revisions) t)
          (ap (λ r. r.0) (sym (run-push_revisions now c revisions t)) ∙ clean) in
      rw (same.0, same.1) (verdicts-answers x t c revisions no_verdicts ∙ omega arith)
