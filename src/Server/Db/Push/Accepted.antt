-- ===== src/Server/Db/Push/Accepted.antt =====
-- push.rs: the revisions that are written are those that were accepted, and each fits the tables
-- that the ones before it leave.
use mathlib.Core.List.{append-nil, append_assoc}
use rustend.Prelude.{
  ◌==◌, ◌&&◌, ◌||◌, true, false, none, some, List, [], ◌∷◌, ◌++◌, map, keep, contains, insert,
  Distinct, Distinct-of_length, lookup, Option, ◌≡◌, ◌≢◌, refl, sym, arith, Bool-cases, inl, inr,
  ◌∙◌,
}
use rustend.Core.Ids.{RevisionId, ObjectId, ClientId}
use rustend.Core.Lineage.{parents}
use rustend.Core.Revision.{Revision}
use rustend.Core.Protocol.{RejectionReason}
use rustend.Server.Tables.{Tables, object_of, has_client}
use rustend.Server.Db.Revisions.Insert.{Fits}
use rustend.Server.Db.Push.{Verdicts, is_accepted, accept, reject, conclude}
use rustend.Server.Db.Push.Judge.{known_object, parents_verdict, lineage_verdict, verdict, verdicts}
use rustend.Server.Db.Push.Write.{added, object_of-added, Chain}

contains-insert :
    (x k : RevisionId) (xs : List RevisionId) → contains x (insert k xs) ≡ (x == k || contains x xs)
contains-insert x k xs = ground arith

module _ {V : Type 0} where
  abbrev pub ids : List (Revision V) → List RevisionId
  ids = map (λ (rev : Revision V). rev.id)

  abbrev pub kept : Verdicts → List (Revision V) → List (Revision V)
  kept s = keep (is_accepted s)

  pub contains-kept :
      (s : Verdicts) (x : RevisionId) (revisions : List (Revision V))
      → contains x (ids (kept s revisions))
        ≡ (contains x s.accepted_ids && contains x (ids revisions))
  contains-kept s x [] = ground arith
  contains-kept s x (rev ∷ revisions) = ground (arith, contains-kept s x revisions)

  module _ (t : Tables V) (c : ClientId) where
    accepted_ids_mono :
        (x : RevisionId) (revisions : List (Revision V)) (s : Verdicts)
        → contains x s.accepted_ids ≡ true
        → contains x (verdicts t c revisions s).accepted_ids ≡ true
    unfolding verdicts
    accepted_ids_mono x [] s h = h
    accepted_ids_mono x (rev ∷ revisions) s h =
        accepted_ids_mono x revisions _ (ground (arith, contains-insert x rev.id s.accepted_ids))

    accepted_ids-from :
        (x : RevisionId) (revisions : List (Revision V)) (s : Verdicts)
        → contains x (verdicts t c revisions s).accepted_ids ≡ true
        → (contains x s.accepted_ids || contains x (ids revisions)) ≡ true
    unfolding verdicts
    accepted_ids-from x [] s h = ground arith
    accepted_ids-from x (rev ∷ revisions) s h = ground (
      arith,
      accepted_ids-from x revisions (conclude rev (verdict t c s.accepted_objects rev) s),
      contains-insert x rev.id s.accepted_ids,
    )

    parents_verdict-known :
        (objects : List (RevisionId × ObjectId)) (o : ObjectId) (ps : List RevisionId)
        (p : RevisionId)
        → parents_verdict t objects o ps ≡ none
        → contains p ps ≡ true
        → known_object t objects p ≡ some o
    unfolding parents_verdict
    parents_verdict-known objects o [] p h m = cc
    parents_verdict-known objects o (q ∷ ps) p h m =
        ground (arith, parents_verdict-known objects o ps p)

    -- An accepted revision is the pusher's, is new, and has distinct parents that are known to
    -- belong to its object.
    verdict-facts :
        (objects : List (RevisionId × ObjectId)) (rev : Revision V)
        → verdict t c objects rev ≡ none
        → (rev.created_by ≡ c)
          × (object_of rev.id t.revisions ≡ none)
          × Distinct (parents rev.lineage)
          × ((p : RevisionId)
              → contains p (parents rev.lineage) ≡ true
              → known_object t objects p ≡ some rev.object_id)
    unfolding verdict lineage_verdict
    verdict-facts objects rev h = (
      ground arith,
      ground arith,
      Distinct-of_length (parents rev.lineage) (ground arith),
      λ p m. parents_verdict-known objects rev.object_id (parents rev.lineage) p (ground arith) m,
    )

    -- The local variables agree with the tables that the revisions accepted so far would leave.
    pub record Agrees (s : Verdicts) (now : Tables V) : Type 0 where
      pub objects :
          (p : RevisionId) → known_object t s.accepted_objects p ≡ object_of p now.revisions
      pub keys :
          (p : RevisionId) → lookup p s.accepted_objects ≢ none → contains p s.accepted_ids ≡ true
      pub registered : has_client c now.clients ≡ true

    accept-Fits :
        (rev : Revision V) (s : Verdicts) (now : Tables V)
        → Agrees s now
        → verdict t c s.accepted_objects rev ≡ none
        → contains rev.id s.accepted_ids ≡ false
        → Fits now rev
    accept-Fits rev s now a h new =
        let facts = verdict-facts s.accepted_objects rev h in
        record {
          fresh = ground (arith, a.objects rev.id, a.keys rev.id, facts.1);
          distinct = facts.2;
          known = λ p m. sym (a.objects p) ∙ facts.3 p m;
          author = rw facts.0 a.registered;
        }

    accept-Agrees :
        (rev : Revision V) (s : Verdicts) (now : Tables V)
        → Agrees s now
        → object_of rev.id now.revisions ≡ none
        → Agrees (accept rev s) (added now rev)
    accept-Agrees rev s now a fresh = record {
      objects = λ p. ground (arith, a.objects p, object_of-added rev now p);
      keys = λ p m. ground (arith, a.keys p, contains-insert p rev.id s.accepted_ids);
      registered = a.registered;
    }

    abbrev pub Fresh : Verdicts → List RevisionId → Type 0
    Fresh s xs = (x : RevisionId) → contains x s.accepted_ids ≡ true → contains x xs ≡ false

    -- No revision is kept that was rejected, unless an id stands twice among those kept.
    rejected-not_kept :
        (rev : Revision V) (revisions : List (Revision V)) (s : Verdicts)
        → let S = verdicts t c revisions s in
          Distinct (ids (kept S (rev ∷ revisions)))
          → Fresh s (ids (kept S (rev ∷ revisions)))
          → contains rev.id S.accepted_ids ≡ false
    rejected-not_kept rev revisions s d h =
        let S : Verdicts = verdicts t c revisions s in
        elim (Bool-cases (contains rev.id S.accepted_ids)) [
          | inl present ↦ ground (
            arith,
            h rev.id,
            contains-kept S rev.id revisions,
            accepted_ids-from rev.id revisions s,
          )
          | inr absent ↦ absent
        ]

    Fresh-accept :
        (rev : Revision V) (s : Verdicts) (xs : List RevisionId)
        → contains rev.id xs ≡ false
        → Fresh s (rev.id ∷ xs)
        → Fresh (accept rev s) xs
    Fresh-accept rev s xs d h x m = ground (arith, contains-insert x rev.id s.accepted_ids, h x)

    -- What is claimed of the rounds of the loop from the variables `s` on, where `S` is their end
    -- and `now` are the tables after writing what has been accepted so far.
    abbrev pub IsSound : List (Revision V) → Verdicts → Verdicts → Tables V → Type 0
    IsSound revisions s S now =
        Agrees s now
        → Distinct (ids (kept S revisions))
        → Fresh s (ids (kept S revisions))
        → Chain now (kept S revisions) × (S.accepted ≡ s.accepted ++ ids (kept S revisions))

    IsSound-accept :
        (rev : Revision V) (revisions : List (Revision V)) (s S : Verdicts) (now : Tables V)
        → verdict t c s.accepted_objects rev ≡ none
        → contains rev.id S.accepted_ids ≡ true
        → IsSound revisions (accept rev s) S (added now rev)
        → IsSound (rev ∷ revisions) s S now
    IsSound-accept rev revisions s S now valid present ih a = rw present λ d h.
        let h' : Fresh s (rev.id ∷ ids (kept S revisions)) = h in
        let new : contains rev.id s.accepted_ids ≡ false = ground (arith, h' rev.id) in
        let fits = accept-Fits rev s now a valid new in
        let rest =
          ih (accept-Agrees rev s now a fits.fresh) d.1
            (Fresh-accept rev s (ids (kept S revisions)) d.0 h') in
        ((fits, rest.0), rest.1 ∙ append_assoc s.accepted (rev.id ∷ []) _)

    IsSound-reject :
        (rev : Revision V) (revisions : List (Revision V)) (s S : Verdicts) (now : Tables V)
        (reason : RejectionReason)
        → contains rev.id S.accepted_ids ≡ false
        → IsSound revisions (reject rev reason s) S now
        → IsSound (rev ∷ revisions) s S now
    IsSound-reject rev revisions s S now reason absent ih a =
        rw absent
          λ d h. ih (record { objects = a.objects; keys = a.keys; registered = a.registered }) d h

    IsSound-step :
        (rev : Revision V) (revisions : List (Revision V)) (s : Verdicts) (now : Tables V)
        (v : Option RejectionReason)
        → verdict t c s.accepted_objects rev ≡ v
        → ((s' : Verdicts) (now' : Tables V)
            → IsSound revisions s' (verdicts t c revisions s') now')
        → IsSound (rev ∷ revisions) s (verdicts t c revisions (conclude rev v s)) now
    IsSound-step rev revisions s now none e ih a d h =
        IsSound-accept rev revisions s (verdicts t c revisions (accept rev s)) now e
          (accepted_ids_mono rev.id revisions (accept rev s)
            (ground (arith, contains-insert rev.id rev.id s.accepted_ids)))
          (ih (accept rev s) (added now rev)) a d h
    IsSound-step rev revisions s now (some reason) e ih a d h =
        IsSound-reject rev revisions s (verdicts t c revisions (reject rev reason s)) now reason
          (rejected-not_kept rev revisions (reject rev reason s) d h) (ih (reject rev reason s) now)
          a d h

    pub verdicts-IsSound :
        (revisions : List (Revision V)) (s : Verdicts) (now : Tables V)
        → IsSound revisions s (verdicts t c revisions s) now
    unfolding verdicts
    verdicts-IsSound [] s now a d h = (tt, sym (append-nil s.accepted))
    verdicts-IsSound (rev ∷ revisions) s now a d h =
        IsSound-step rev revisions s now (verdict t c s.accepted_objects rev) refl
          (verdicts-IsSound revisions) a d h
