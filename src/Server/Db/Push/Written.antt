-- ===== src/Server/Db/Push/Written.antt =====
-- push.rs, the transaction: what it commits on tables that have grown since the revisions were judged.
use mathlib.Core.Path.{subst}
use rustend.Prelude.{
  ◌==◌, ==_iff, Bool-cases, true, none, some, inl, inr, List, [], ◌∷◌, Distinct, Distinct-cases,
  put, ◌≡◌, refl, sym, ◌∙◌, arith,
}
use rustend.Core.Ids.{ObjectId, RevisionId, ClientId, Instant}
use rustend.Core.Lineage.{parents}
use rustend.Core.Revision.{Revision}
use rustend.Server.Tables.{Tables, object_of, has_client}
use rustend.Server.Tables.Valid.{IsValid}
use rustend.Server.Sql.{◌>>=◌}
use rustend.Server.Sql.Reaches.{Reaches, Reaches-mono, >>=-Reaches, CommitsTo, >>=-CommitsTo}
use rustend.Server.Sql.Interleave.{Grown, Grown-refl, Grown-trans, Kept}
use rustend.Server.Db.Revisions.{insert_revision}
use rustend.Server.Db.Revisions.Insert.{Fits, with_revision, insert_revision-Reaches}
use rustend.Server.Db.ObjectHeads.{update_heads}
use rustend.Server.Db.ObjectHeads.Statements.{update_heads-Reaches}
use rustend.Server.Db.Transactions.{create_transaction}
use rustend.Server.Db.Transactions.Statements.{
  with_batch, with_batch-IsValid, create_transaction-Reaches,
}
use rustend.Server.Db.Push.{write_all, write_body}
use rustend.Server.Db.Push.Judge.{known_object}
use rustend.Server.Db.Push.Accepted.{ids}
use rustend.Server.Db.Push.Duplicates.{AllNew, AllNew-cons}
use rustend.Server.Db.Push.Write.{added, added-IsValid, object_of-added}
use rustend.Server.Db.Push.Ready.{Ready}

module _ {V : Type 0} where
  -- The program for one revision and those after it reaches what it reaches from the tables with that revision.
  write_all-step :
      (rev : Revision V) (revisions : List (Revision V)) (Q : Unit {0} → Tables V → Type 0)
      (t : Tables V)
      → (object_of rev.id t.revisions ≡ none → Reaches Q (write_all revisions) (added t rev))
      → Reaches Q (write_all (rev ∷ revisions)) t
  unfolding write_all
  write_all-step rev revisions Q t next = >>=-Reaches (insert_revision rev) _ Q t (
      Reaches-mono (insert_revision rev) _ _ t
        (λ _ t' (fresh, e).
          subst
            (Reaches Q (
              update_heads rev.object_id (parents rev.lineage) rev.id >>= λ _. write_all revisions))
            (sym e)
            (>>=-Reaches (update_heads rev.object_id (parents rev.lineage) rev.id) _ Q
              (with_revision t rev)
              (Reaches-mono (update_heads rev.object_id (parents rev.lineage) rev.id) _ _
                (with_revision t rev)
                (λ _ t'' e'. subst (Reaches Q (write_all revisions)) (sym e') (next fresh))
                (update_heads-Reaches rev.object_id (parents rev.lineage) rev.id
                  (with_revision t rev)))))
        (insert_revision-Reaches rev t))

  -- A write that reaches its end has met distinct, new ids.
  write_all-AllNew :
      (revisions : List (Revision V)) (t : Tables V)
      → Reaches (λ _ _. AllNew revisions t) (write_all revisions) t
  unfolding write_all
  write_all-AllNew [] t = (tt, λ x m. cc)
  write_all-AllNew (rev ∷ revisions) t =
      write_all-step rev revisions (λ _ _. AllNew (rev ∷ revisions) t) t
        λ fresh.
          Reaches-mono (write_all revisions) _ _ (added t rev)
            (λ _ _ new. AllNew-cons rev revisions t (added t rev) fresh refl new)
            (write_all-AllNew revisions (added t rev))

  added-Grown : (rev : Revision V) (t : Tables V) → Grown t (added t rev)
  added-Grown rev t = record {
    objects = λ r o h. object_of-added rev t r ∙ rw h refl;
    clients = λ x h. h;
  }

module _ {V : Type 0} (c : ClientId) (judged : Tables V) where
  -- What was known of an object where the revisions were judged is stored.
  abbrev InTables : List (RevisionId × ObjectId) → Tables V → Type 0
  InTables objects t =
      (p : RevisionId) (o : ObjectId)
      → known_object judged objects p ≡ some o
      → object_of p t.revisions ≡ some o

  InTables-added :
      (rev : Revision V) (objects : List (RevisionId × ObjectId)) (t : Tables V)
      → object_of rev.id t.revisions ≡ none
      → InTables objects t
      → InTables (put rev.id rev.object_id objects) (added t rev)
  InTables-added rev objects t fresh h p o k = elim (Bool-cases (p == rev.id)) [
    | inl same ↦
        let e : p ≡ rev.id = (==_iff p rev.id).0 same in
        ground (arith, object_of-added rev t p, e, fresh, k, same)
    | inr other ↦
        let stored : object_of p t.revisions ≡ some o = h p o (rw other at k) in
        object_of-added rev t p ∙ rw stored refl
  ]

  write_all-Kept :
      (revisions : List (Revision V)) (objects : List (RevisionId × ObjectId)) (t : Tables V)
      → IsValid t
      → has_client c t.clients ≡ true
      → InTables objects t
      → Ready c judged objects revisions
      → Reaches (λ _ t'. Kept t t') (write_all revisions) t
  unfolding write_all
  write_all-Kept [] objects t v registered stored ready = (v, Grown-refl t)
  write_all-Kept (rev ∷ revisions) objects t v registered stored ready =
      write_all-step rev revisions (λ _ t'. Kept t t') t
        λ fresh.
          let facts = ready.0 in
          let fits : Fits t rev = record {
            fresh = fresh;
            distinct = facts.1.0;
            known = λ p m. stored p rev.object_id (facts.1.1 p m);
            author = rw (facts.0) registered;
          } in
          Reaches-mono (write_all revisions) _ _ (added t rev)
            (λ _ t' kept. (kept.0, Grown-trans t (added t rev) t' (added-Grown rev t) kept.1))
            (write_all-Kept revisions (put rev.id rev.object_id objects) (added t rev)
              (added-IsValid rev t v fits) registered (InTables-added rev objects t fresh stored)
              ready.1)

  -- The transaction commits valid tables, whatever was written since the revisions were judged.
  pub write_body-Kept :
      (now : Instant) (revisions : List (Revision V)) (accepted : List RevisionId) (t : Tables V)
      → IsValid t
      → has_client c t.clients ≡ true
      → Grown judged t
      → (Distinct (ids revisions) → Ready c judged [] revisions)
      → CommitsTo (Kept t) (write_body now c revisions accepted) t
  unfolding write_body
  write_body-Kept now revisions accepted t v registered grown ready =
      >>=-CommitsTo (write_all revisions) _ (Kept t) t (elim (Distinct-cases (ids revisions)) [
        | inl d ↦
            Reaches-mono (write_all revisions) _ _ t
              (λ _ t' kept. >>=-CommitsTo (create_transaction now c accepted) _ (Kept t) t' (
                Reaches-mono (create_transaction now c accepted) _ _ t'
                  (λ id t'' e. (
                    subst (Kept t) (sym e) (
                      with_batch-IsValid now c accepted t' kept.0,
                      Grown-trans t t' (with_batch now c accepted t') kept.1
                          (record { objects = λ r o h. h; clients = λ x h. h }),
                    ),
                    tt,
                  ))
                  (create_transaction-Reaches now c accepted t')))
              (write_all-Kept revisions [] t v registered (λ p o k. grown.objects p o k) (ready d))
        | inr again ↦
            Reaches-mono (write_all revisions) _ _ t (λ _ t' new. absurd (again new.0))
              (write_all-AllNew revisions t)
      ])
