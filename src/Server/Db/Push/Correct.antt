-- ===== src/Server/Db/Push/Correct.antt =====
-- push.rs as a whole: what a push answers and what it leaves.
use native.Mathlib.Nat.{le_refl}
use mathlib.Core.Path.{subst}
use rustend.Prelude.{◌≤◌, true, List, [], ◌∷◌, Distinct, ◌≡◌, inl, refl}
use rustend.Core.Ids.{RevisionId, ClientId, Instant}
use rustend.Core.Revision.{Revision}
use rustend.Core.Protocol.{PushResponse}
use rustend.Server.Error.{SqlError, ServerError, database}
use rustend.Server.Tables.{Tables, has_client}
use rustend.Server.Tables.Valid.{IsValid}
use rustend.Server.Sql.{ok, err, idle, run, Session, Result}
use rustend.Server.Sql.Laws.{run->>=, run-from_sql, wrap, Then}
use rustend.Server.Sql.Shape.{opened, RolledBack, run-Plain_refused}
use rustend.Server.Db.Transactions.{create_transaction, i64_max}
use rustend.Server.Db.Transactions.Statements.{with_batch, run-create_transaction}
use rustend.Server.Db.Push.{
  Verdicts, no_verdicts, judge_all, write_all, write_body, store, respond, push_revisions,
}
use rustend.Server.Db.Push.Judge.{verdicts, run-judge_all}
use rustend.Server.Db.Push.Write.{
  Chain, all_added, all_added-IsValid, all_added_rest, all_added-stored, run-write_all,
}
use rustend.Server.Db.Push.Accepted.{Agrees, ids, kept, verdicts-IsSound}
use rustend.Server.Db.Push.Duplicates.{AllNew, write_all-Then}
use rustend.Server.Db.Push.Atomicity.{write_all-Plain}

module _ {V : Type 0} where
  -- The decisions on a request, and the revisions that are written.
  abbrev pub decided : Tables V → ClientId → List (Revision V) → Verdicts
  decided t c revisions = verdicts t c revisions no_verdicts

  abbrev pub written : Tables V → ClientId → List (Revision V) → List (Revision V)
  written t c revisions = kept (decided t c revisions) revisions

  abbrev pub reply_of : Tables V → Verdicts → List (Revision V) → PushResponse
  reply_of t s [] = record { transaction_id = 0; accepted = s.accepted; rejected = s.rejected }
  reply_of t s (rev ∷ revisions) = record {
    transaction_id = t.transactions_id_seq;
    accepted = s.accepted;
    rejected = s.rejected;
  }

  abbrev pub outcome : Instant → ClientId → Tables V → Verdicts → List (Revision V) → Tables V
  outcome now c t s [] = t
  outcome now c t s (rev ∷ revisions) = with_batch now c s.accepted (all_added t (rev ∷ revisions))

  initial-Agrees :
      (c : ClientId) (t : Tables V) → has_client c t.clients ≡ true → Agrees t c no_verdicts t
  initial-Agrees c t registered = record {
    objects = λ p. refl;
    keys = λ p h. absurd (h refl);
    registered = registered;
  }

  -- What the decisions give: each revision to write fits, and those are the accepted ones.
  pub decided_facts :
      (t : Tables V) (c : ClientId) (revisions : List (Revision V))
      → has_client c t.clients ≡ true
      → Distinct (ids (written t c revisions))
      → Chain t (written t c revisions)
        × ((decided t c revisions).accepted ≡ ids (written t c revisions))
  decided_facts t c revisions registered d =
      verdicts-IsSound t c revisions no_verdicts t (initial-Agrees c t registered) d (λ x m. cc)

  run-write_body :
      (now : Instant) (c : ClientId) (before t : Tables V) (revisions : List (Revision V))
      (accepted : List RevisionId)
      → IsValid t
      → has_client c t.clients ≡ true
      → t.transactions_id_seq ≤ i64_max
      → Chain t revisions
      → accepted ≡ ids revisions
      → Distinct (ids revisions)
      → run (write_body now c revisions accepted) (opened before t)
        ≡ (ok t.transactions_id_seq, idle (with_batch now c accepted (all_added t revisions)))
  unfolding write_body run
  run-write_body now c before t revisions accepted v registered room chain same d =
      let rest = all_added_rest revisions t in
      rw
        (
          run->>= (write_all revisions),
          run-write_all revisions (opened before t) v chain,
          run->>= (create_transaction now c accepted),
          run-create_transaction now c accepted (opened before (all_added t revisions))
              (all_added-IsValid revisions t v chain) (rw rest.0 registered) (rw rest.1 room)
              (λ r m. all_added-stored revisions t r (inl (rw same at m))) (rw same d),
        )
        (rw rest.1)

  run-respond :
      (now : Instant) (c : ClientId) (t : Tables V) (s : Verdicts) (revisions : List (Revision V))
      → IsValid t
      → has_client c t.clients ≡ true
      → t.transactions_id_seq ≤ i64_max
      → Chain t revisions
      → s.accepted ≡ ids revisions
      → Distinct (ids revisions)
      → run (respond now c s revisions) (idle t)
        ≡ (ok (reply_of t s revisions), idle (outcome now c t s revisions))
  unfolding respond store run
  run-respond now c t s [] v registered room chain same d = refl
  run-respond now c t s (rev ∷ revisions) v registered room chain same d =
      rw
        (
          run->>= (write_body now c (rev ∷ revisions) s.accepted),
          run-write_body now c t t (rev ∷ revisions) s.accepted v registered room chain same d,
        )
        refl

  pub run-push_revisions :
      (now : Instant) (c : ClientId) (revisions : List (Revision V)) (t : Tables V)
      → run (push_revisions now c revisions) (idle t)
        ≡ wrap (run (respond now c (decided t c revisions) (written t c revisions)) (idle t))
  unfolding push_revisions
  run-push_revisions now c revisions t =
      rw
        (
          run-from_sql,
          run->>= (judge_all c revisions no_verdicts),
          run-judge_all t c revisions no_verdicts,
        )
        refl

  -- On valid tables that know the pusher, a request of which no two revisions to be written have one id is answered
  -- with the decisions on its revisions, and the accepted ones are written.
  pub push_revisions_total :
      (now : Instant) (c : ClientId) (revisions : List (Revision V)) (t : Tables V)
      → IsValid t
      → has_client c t.clients ≡ true
      → t.transactions_id_seq ≤ i64_max
      → Distinct (ids (written t c revisions))
      → run (push_revisions now c revisions) (idle t) ≡ (
        ok (reply_of t (decided t c revisions) (written t c revisions)),
        idle (outcome now c t (decided t c revisions) (written t c revisions)),
      )
  push_revisions_total now c revisions t v registered room d =
      let facts = decided_facts t c revisions registered d in
      rw
        (
          run-push_revisions,
          run-respond now c t (decided t c revisions) (written t c revisions) v registered room
              facts.0 facts.1 d,
        )
        refl

  -- An error of a run, with what it leaves.
  abbrev pub Fails : Result ServerError PushResponse × Session V → Tables V → Type 0
  Fails r t = (e : SqlError) × (r.0 ≡ err (database e)) × RolledBack t r.1

  write_body_refused :
      (now : Instant) (c : ClientId) (revisions : List (Revision V)) (accepted : List RevisionId)
      (s : Session V) {e : SqlError} {s' : Session V}
      → run (write_all revisions) s ≡ (err e, s')
      → run (write_body now c revisions accepted) s ≡ (err e, s')
  unfolding write_body
  write_body_refused now c revisions accepted s refused =
      rw (run->>= (write_all revisions), refused)

  respond-Fails :
      (now : Instant) (c : ClientId) (t : Tables V) (s : Verdicts) (revisions : List (Revision V))
      → ¬ Distinct (ids revisions)
      → Fails (wrap (run (respond now c s revisions) (idle t))) t
  unfolding respond store run
  respond-Fails now c t s [] h = absurd (h tt)
  respond-Fails now c t s (rev ∷ revisions) h =
      go (run (write_all (rev ∷ revisions)) (opened t t)) refl
    where
      go :
          (r : Result SqlError (Unit {0}) × Session V)
          → run (write_all (rev ∷ revisions)) (opened t t) ≡ r
          → Fails (wrap (run (respond now c s (rev ∷ revisions)) (idle t))) t
      go (ok a, s') e =
          let new : AllNew (rev ∷ revisions) t =
            subst (λ r. Then r (λ _. AllNew (rev ∷ revisions) t)) e
              (write_all-Then (rev ∷ revisions) (opened t t)) in
          absurd (h new.0)
      go (err e', s') e =
          rw
            (
              run->>= (write_body now c (rev ∷ revisions) s.accepted),
              write_body_refused now c (rev ∷ revisions) s.accepted (opened t t) e,
            )
            (e', refl, run-Plain_refused _ t t (write_all-Plain (rev ∷ revisions)) (le_refl _) e)

  -- A request with two accepted revisions of one id, or with an accepted and a rejected one, is
  -- answered with a database error, and nothing of it is written.
  pub push_revisions_duplicate :
      (now : Instant) (c : ClientId) (revisions : List (Revision V)) (t : Tables V)
      → ¬ Distinct (ids (written t c revisions))
      → Fails (run (push_revisions now c revisions) (idle t)) t
  push_revisions_duplicate now c revisions t h =
      rw run-push_revisions
        (respond-Fails now c t (decided t c revisions) (written t c revisions) h)
