-- ===== src/Client/Sync/Pushed.antt =====
-- sync.rs, the push: nothing is pending after a push that the server answers in full.
use rustend.Prelude.{
  ℕ, ◌+◌, ◌<◌, ◌==◌, ==_refl, not, Bool, true, false, ◌&&◌, Bool-cases, Option-cases, Option, none,
  some, inl, inr, ◌⊎◌, List, [], ◌∷◌, map, any, keep, count, contains, Distinct, ◌≡◌, refl, sym, ap,
  ◌∙◌, arith,
}
use rustend.Core.Ids.{RevisionId, ClientId, Instant}
use rustend.Core.Revision.{Revision}
use rustend.Core.Protocol.{PushRequest, PushResponse, RejectedRevision}
use rustend.Server.Error.{ServerError, database, connection}
use rustend.Server.Tables.{Tables}
use rustend.Server.Sql.{Result, ok, err, Fate, idle, run_under}
use rustend.Server.Db.Push.{push_revisions}
use rustend.Server.Db.Push.Answers.{answers-push_revisions}
use rustend.Client.Error.{network}
use rustend.Client.Store.{
  RevisionRecord, SyncStatus, synced, sync_error, Local, is_pending, set_status,
  get_pending_revisions, revision_of, mark_revision_synced, mark_revision_error,
}
use rustend.Client.Sync.{mark_accepted, mark_rejected, push_these, push_pending}

abbrev pub rejected_ids : List RejectedRevision → List RevisionId
rejected_ids = map (λ (r : RejectedRevision). r.revision_id)

-- A response that answers for each revision of its request.
abbrev InFull : List RevisionId → PushResponse → Type 0
InFull ids p =
    (x : RevisionId) → count x p.accepted + count x (rejected_ids p.rejected) ≡ count x ids

contains-of_count : (x : ℕ) (xs : List ℕ) → contains x xs ≡ false → count x xs ≡ 0
contains-of_count x [] h = refl
contains-of_count x (y ∷ xs) h = ground (arith, h, contains-of_count x xs)

module _ {V : Type 0} where
  abbrev pub record_ids : List (RevisionRecord V) → List RevisionId
  record_ids = map (λ (r : RevisionRecord V). r.id)

  -- The revision with this id is pending.
  abbrev waits : RevisionId → List (RevisionRecord V) → Bool
  waits x = any (λ (r : RevisionRecord V). x == r.id && is_pending r.sync_status)

  record_ids-set_status :
      (status : SyncStatus) (id : RevisionId) (rs : List (RevisionRecord V))
      → record_ids (set_status status id rs) ≡ record_ids rs
  record_ids-set_status status id [] = refl
  record_ids-set_status status id (r ∷ rs) = ground (arith, record_ids-set_status status id rs)

  waits-absent :
      (x : RevisionId) (rs : List (RevisionRecord V))
      → contains x (record_ids rs) ≡ false
      → waits x rs ≡ false
  waits-absent x [] h = refl
  waits-absent x (r ∷ rs) h = ground (arith, h, waits-absent x rs)

  waits-set_status :
      (status : SyncStatus) (id x : RevisionId) (rs : List (RevisionRecord V))
      → is_pending status ≡ false
      → Distinct (record_ids rs)
      → waits x (set_status status id rs) ≡ (waits x rs && not (x == id))
  waits-set_status status id x [] h d = refl
  waits-set_status status id x (r ∷ rs) h d =
      ground (arith, h, d.0, waits-absent x rs, waits-set_status status id x rs h d.1)

  waits-mark_accepted :
      (x : RevisionId) (ids : List RevisionId) (l : Local V)
      → Distinct (record_ids l.revisions)
      → (waits x (mark_accepted ids l).revisions ≡ (waits x l.revisions && not (contains x ids)))
        × (record_ids (mark_accepted ids l).revisions ≡ record_ids l.revisions)
  waits-mark_accepted x [] l d = (ground arith, refl)
  waits-mark_accepted x (id ∷ ids) l d =
      let same = record_ids-set_status synced id l.revisions in
      let rest = waits-mark_accepted x ids (mark_revision_synced id l) (rw same d) in
      (ground (arith, rest.0, waits-set_status synced id x l.revisions refl d), rest.1 ∙ same)

  waits-mark_rejected :
      (x : RevisionId) (rejected : List RejectedRevision) (l : Local V)
      → Distinct (record_ids l.revisions)
      → waits x (mark_rejected rejected l).revisions
        ≡ (waits x l.revisions && not (contains x (rejected_ids rejected)))
  waits-mark_rejected x [] l d = ground arith
  waits-mark_rejected x (r ∷ rejected) l d =
      let same = record_ids-set_status (sync_error r.reason) r.revision_id l.revisions in
      ground (
        arith,
        waits-mark_rejected x rejected (mark_revision_error r.revision_id r.reason l) (rw same d),
        waits-set_status (sync_error r.reason) r.revision_id x l.revisions refl d,
      )

  keep-none :
      (rs : List (RevisionRecord V))
      → ((x : RevisionId) → waits x rs ≡ false)
      → keep (λ (r : RevisionRecord V). is_pending r.sync_status) rs ≡ []
  keep-none [] h = refl
  keep-none (r ∷ rs) h =
      ground (arith, h r.id, ==_refl r.id, keep-none rs (λ x. ground (arith, h x)))

  waits-count :
      (x : RevisionId) (rs : List (RevisionRecord V))
      → waits x rs ≡ true
      → 0
        < count x (
            map
              (λ (r : RevisionRecord V). r.id)
              (keep (λ (r : RevisionRecord V). is_pending r.sync_status) rs))
  waits-count x [] h = cc
  waits-count x (r ∷ rs) h = ground (arith, h, waits-count x rs)

  pub map-revision_of :
      (rs : List (RevisionRecord V))
      → map (λ (rev : Revision V). rev.id) (map revision_of rs) ≡ record_ids rs
  map-revision_of [] = refl
  map-revision_of (r ∷ rs) = ap (λ ids. r.id ∷ ids) (map-revision_of rs)

  answered-settles :
      (l : Local V) (p : PushResponse)
      → Distinct (record_ids l.revisions)
      → InFull (record_ids (get_pending_revisions l)) p
      → get_pending_revisions (mark_rejected p.rejected (mark_accepted p.accepted l)) ≡ []
  answered-settles l p d full =
      keep-none (mark_rejected p.rejected (mark_accepted p.accepted l)).revisions λ x.
        elim (Bool-cases (waits x l.revisions)) [
          | inr idle_one ↦ ground (arith, idle_one, accepted_part x, rejected_part x)
          | inl waiting ↦ ground (
            arith,
            waiting,
            accepted_part x,
            rejected_part x,
            full x,
            waits-count x l.revisions waiting,
            contains-of_count x p.accepted,
            contains-of_count x (rejected_ids p.rejected),
          )
        ]
    where
      accepted_part :
          (x : RevisionId)
          → waits x (mark_accepted p.accepted l).revisions
            ≡ (waits x l.revisions && not (contains x p.accepted))
      accepted_part x = (waits-mark_accepted x p.accepted l d).0

      rejected_part :
          (x : RevisionId)
          → waits x (mark_rejected p.rejected (mark_accepted p.accepted l)).revisions ≡ (
              waits x (mark_accepted p.accepted l).revisions
              && not (contains x (rejected_ids p.rejected)))
      rejected_part x =
          waits-mark_rejected x p.rejected (mark_accepted p.accepted l)
            (rw ((waits-mark_accepted x p.accepted l d).1) d)

  -- The server as the client meets it: `none` for an error.
  abbrev pub served :
      Instant → ClientId → List Fate → Tables V → PushRequest V → Option PushResponse
  served now c fates t req =
      elim (run_under (database connection) (push_revisions now c req.revisions) fates (idle t)).0 [
        | ok p ↦ some p
        | err e ↦ none
      ]

  served-InFull :
      (now : Instant) (c : ClientId) (fates : List Fate) (t : Tables V) (req : PushRequest V)
      (p : PushResponse)
      → served now c fates t req ≡ some p
      → InFull (map (λ (rev : Revision V). rev.id) req.revisions) p
  served-InFull now c fates t req p h x =
      go (run_under (database connection) (push_revisions now c req.revisions) fates (idle t)).0
        refl h
    where
      go :
          (r : Result ServerError PushResponse)
          → (run_under (database connection) (push_revisions now c req.revisions) fates (idle t)).0
            ≡ r
          → elim r [ ok q ↦ some q | err e ↦ none ] ≡ some p
          → count x p.accepted + count x (rejected_ids p.rejected)
            ≡ count x (map (λ (rev : Revision V). rev.id) req.revisions)
      go (ok q) e g = answers-push_revisions now c req.revisions fates t p (e ∙ cc) x
      go (err e') e g = cc

  push_these-settles :
      (now : Instant) (c : ClientId) (fates : List Fate) (t : Tables V) (l : Local V)
      (rs : List (RevisionRecord V))
      → get_pending_revisions l ≡ rs
      → Distinct (record_ids l.revisions)
      → (push_these (served now c fates t) rs l ≡ (err network, l))
        ⊎ (get_pending_revisions (push_these (served now c fates t) rs l).1 ≡ [])
  push_these-settles now c fates t l [] e d = inr e
  push_these-settles now c fates t l (r ∷ rs) e d =
      let req : PushRequest V = record { revisions = map revision_of (r ∷ rs) } in
      elim (Option-cases (served now c fates t req)) [
        | inl failed ↦ inl (rw failed refl)
        | inr (p, done) ↦ inr (
            rw done (
              answered-settles l p d λ x.
                served-InFull now c fates t req p done x
                ∙ ap (count x) (map-revision_of (r ∷ rs) ∙ ap record_ids (sym e))))
      ]

  -- A push of what is pending either fails and leaves the local store as it was, or leaves nothing
  -- pending in it, whatever the server's tables hold and whatever becomes of its messages to the database, if
  -- no two records of the store have one id.
  pub push_pending-settles :
      (now : Instant) (c : ClientId) (fates : List Fate) (t : Tables V) (l : Local V)
      → Distinct (record_ids l.revisions)
      → (push_pending (served now c fates t) l ≡ (err network, l))
        ⊎ (get_pending_revisions (push_pending (served now c fates t) l).1 ≡ [])
  unfolding push_pending
  push_pending-settles now c fates t l =
      push_these-settles now c fates t l (get_pending_revisions l) refl
