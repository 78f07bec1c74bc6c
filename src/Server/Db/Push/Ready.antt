-- ===== src/Server/Db/Push/Ready.antt =====
-- push.rs: the revisions that were accepted are those that the transaction may write.
use mathlib.Core.Path.{subst}
use rustend.Prelude.{
  ◌==◌, ◌||◌, Bool-cases, true, false, Option, none, some, inl, inr, List, [], ◌∷◌, contains,
  Distinct, put, ◌≡◌, refl, sym, ap, arith,
}
use rustend.Core.Ids.{ObjectId, RevisionId, ClientId}
use rustend.Core.Revision.{Revision}
use rustend.Core.Protocol.{RejectionReason}
use rustend.Server.Tables.{Tables}
use rustend.Server.Db.Push.{Verdicts, conclude, accept, reject}
use rustend.Server.Db.Push.Accepted.{ids, kept, contains-kept}
use rustend.Server.Db.Push.Judged.{Facts, Decisions}

module _ {V : Type 0} (c : ClientId) (t : Tables V) where
  -- Each revision was accepted after the ones before it.
  abbrev pub Ready : List (RevisionId × ObjectId) → List (Revision V) → Type 0
  Ready objects [] = Unit
  Ready objects (rev ∷ revisions) =
      Facts c objects rev t × Ready (put rev.id rev.object_id objects) revisions

  conclude-accepted_ids :
      (rev : Revision V) (v : Option RejectionReason) (s : Verdicts) (x : RevisionId)
      → contains x s.accepted_ids ≡ true
      → contains x (conclude rev v s).accepted_ids ≡ true
  conclude-accepted_ids rev none s x h = ground (arith, h)
  conclude-accepted_ids rev (some reason) s x h = h

  accepted_ids_mono :
      (x : RevisionId) (revisions : List (Revision V)) (s S : Verdicts)
      → Decisions c revisions s t S
      → contains x s.accepted_ids ≡ true
      → contains x S.accepted_ids ≡ true
  accepted_ids_mono x [] s S e h = rw e h
  accepted_ids_mono x (rev ∷ revisions) s S (s', (v, same, facts), rest) h =
      accepted_ids_mono x revisions s' S rest (rw same (conclude-accepted_ids rev v s x h))

  conclude-from :
      (rev : Revision V) (v : Option RejectionReason) (s : Verdicts) (x : RevisionId)
      → contains x (conclude rev v s).accepted_ids ≡ true
      → (contains x s.accepted_ids || x == rev.id) ≡ true
  conclude-from rev none s x h = ground (arith, h)
  conclude-from rev (some reason) s x h = ground (arith, h)

  accepted_ids_from :
      (x : RevisionId) (revisions : List (Revision V)) (s S : Verdicts)
      → Decisions c revisions s t S
      → contains x S.accepted_ids ≡ true
      → (contains x s.accepted_ids || contains x (ids revisions)) ≡ true
  accepted_ids_from x [] s S e h =
      let before : contains x s.accepted_ids ≡ true = rw (sym e) h in ground (arith, before)
  accepted_ids_from x (rev ∷ revisions) s S (s', (v, same, facts), rest) h = ground (
    arith,
    accepted_ids_from x revisions s' S rest h,
    ap (λ (y : Verdicts). contains x y.accepted_ids) same,
    conclude-from rev v s x,
  )

  -- None of these ids was accepted so far.
  abbrev Unused : Verdicts → List RevisionId → Type 0
  Unused s xs = (x : RevisionId) → contains x s.accepted_ids ≡ true → contains x xs ≡ false

  -- A revision that was rejected is not kept, unless an id stands twice among those kept.
  rejected-not_kept :
      (rev : Revision V) (revisions : List (Revision V)) (s S : Verdicts)
      → Decisions c revisions s t S
      → Distinct (ids (kept S (rev ∷ revisions)))
      → Unused s (ids (kept S (rev ∷ revisions)))
      → contains rev.id S.accepted_ids ≡ false
  rejected-not_kept rev revisions s S rest d h =
      elim (Bool-cases (contains rev.id S.accepted_ids)) [
        | inr absent ↦ absent
        | inl present ↦ ground (
          arith,
          present,
          h rev.id,
          contains-kept S rev.id revisions,
          accepted_ids_from rev.id revisions s S rest present,
        )
      ]

  Unused-accept :
      (rev : Revision V) (s : Verdicts) (xs : List RevisionId)
      → contains rev.id xs ≡ false
      → Unused s (rev.id ∷ xs)
      → Unused (accept rev s) xs
  Unused-accept rev s xs fresh h x m = ground (arith, m, fresh, h x)

  Ready-step :
      (rev : Revision V) (revisions : List (Revision V)) (v : Option RejectionReason)
      (s S : Verdicts)
      → (v ≡ none → Facts c s.accepted_objects rev t)
      → Decisions c revisions (conclude rev v s) t S
      → (Distinct (ids (kept S revisions))
          → Unused (conclude rev v s) (ids (kept S revisions))
          → Ready (conclude rev v s).accepted_objects (kept S revisions))
      → Distinct (ids (kept S (rev ∷ revisions)))
      → Unused s (ids (kept S (rev ∷ revisions)))
      → Ready s.accepted_objects (kept S (rev ∷ revisions))
  Ready-step rev revisions none s S facts rest ready d h =
      let present : contains rev.id S.accepted_ids ≡ true =
        accepted_ids_mono rev.id revisions (accept rev s) S rest (ground arith) in
      let d' : Distinct (rev.id ∷ ids (kept S revisions)) = rw present at d in
      let h' : Unused s (rev.id ∷ ids (kept S revisions)) = rw present at h in
      rw present (facts refl, ready d'.1 (Unused-accept rev s (ids (kept S revisions)) d'.0 h'))
  Ready-step rev revisions (some reason) s S facts rest ready d h =
      let absent = rejected-not_kept rev revisions (reject rev reason s) S rest d h in
      rw absent (ready (rw absent at d) (rw absent at h))

  -- What the loop decided is what may be written, if no two revisions to be written have one id.
  pub Decisions-Ready :
      (revisions : List (Revision V)) (s S : Verdicts)
      → Decisions c revisions s t S
      → Distinct (ids (kept S revisions))
      → Unused s (ids (kept S revisions))
      → Ready s.accepted_objects (kept S revisions)
  Decisions-Ready [] s S e d h = tt
  Decisions-Ready (rev ∷ revisions) s S (s', (v, same, facts), rest) d h =
      let decided : Decisions c revisions (conclude rev v s) t S =
        subst (λ x. Decisions c revisions x t S) same rest in
      Ready-step rev revisions v s S facts decided
        (Decisions-Ready revisions (conclude rev v s) S decided) d h
