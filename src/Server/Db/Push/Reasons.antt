-- ===== src/Server/Db/Push/Reasons.antt =====
-- push.rs, the loop that judges: why a revision is accepted or rejected.
use rustend.Prelude.{
  ◌==◌, true, none, some, Option, Option-cases, Bool-cases, inl, inr, List, [], ◌∷◌, contains,
  Distinct, Distinct-of_length, length-to_set, to_set, length, ◌≡◌, ◌≢◌, ◌⊎◌, arith,
}
use rustend.Core.Ids.{RevisionId, ObjectId, ClientId}
use rustend.Core.Lineage.{parents}
use rustend.Core.Revision.{Revision}
use rustend.Core.Protocol.{RejectionReason, duplicate_revision_id, unknown_parent, malformed_data}
use rustend.Server.Tables.{Tables, object_of}
use rustend.Server.Sql.{ok, idle, run}
use rustend.Server.Db.Push.{Verdicts, conclude, judge}
use rustend.Server.Db.Push.Judge.{
  known_object, parents_verdict, lineage_verdict, verdict, is_stored, run-judge,
}

module _ {V : Type 0} (t : Tables V) (c : ClientId) (objects : List (RevisionId × ObjectId)) where
  -- What is true of a list of parents on which `parents_verdict` decides so.
  abbrev pub ExplainsParents : ObjectId → List RevisionId → Option RejectionReason → Type 0
  ExplainsParents o ps none =
      (p : RevisionId) → contains p ps ≡ true → known_object t objects p ≡ some o
  ExplainsParents o ps (some duplicate_revision_id) = ⊥
  ExplainsParents o ps (some unknown_parent) =
      (p : RevisionId) × (contains p ps ≡ true) × (known_object t objects p ≡ none)
  ExplainsParents o ps (some malformed_data) =
      (p : RevisionId) × (o' : ObjectId) × (contains p ps ≡ true)
      × (known_object t objects p ≡ some o')
      × (o' ≢ o)

  ExplainsParents-cons :
      (o : ObjectId) (p : RevisionId) (ps : List RevisionId) (v : Option RejectionReason)
      → known_object t objects p ≡ some o
      → ExplainsParents o ps v
      → ExplainsParents o (p ∷ ps) v
  ExplainsParents-cons o p ps none e h = λ q m. ground (arith, h q)
  ExplainsParents-cons o p ps (some duplicate_revision_id) e h = h
  ExplainsParents-cons o p ps (some unknown_parent) e (q, m, k) = (q, ground arith, k)
  ExplainsParents-cons o p ps (some malformed_data) e (q, o', m, k, ne) =
      (q, o', ground arith, k, ne)

  parents_verdict-Explains :
      (o : ObjectId) (ps : List RevisionId) → ExplainsParents o ps (parents_verdict t objects o ps)
  unfolding parents_verdict
  parents_verdict-Explains o [] = λ p m. cc
  parents_verdict-Explains o (p ∷ ps) = elim (Option-cases (known_object t objects p)) [
    | inl unknown ↦ rw (unknown, parents_verdict) (p, ground arith, unknown)
    | inr (o', known) ↦ elim (Bool-cases (o' == o)) [
      | inl same ↦
          rw (known, parents_verdict, same)
            (ExplainsParents-cons o p ps _ (rw known (ground arith))
              (parents_verdict-Explains o ps))
      | inr other ↦ rw (known, parents_verdict, other) (p, o', ground arith, known, ground arith)
    ]
  ]

  -- The reason for a decision, in terms of what is stored and what was accepted before.
  abbrev pub Explains : Revision V → Option RejectionReason → Type 0
  Explains rev none =
      (rev.created_by ≡ c)
      × (object_of rev.id t.revisions ≡ none)
      × Distinct (parents rev.lineage)
      × ((p : RevisionId)
          → contains p (parents rev.lineage) ≡ true
          → known_object t objects p ≡ some rev.object_id)
  Explains rev (some duplicate_revision_id) =
      (rev.created_by ≡ c) × (object_of rev.id t.revisions ≢ none)
  Explains rev (some unknown_parent) =
      (rev.created_by ≡ c)
      × (object_of rev.id t.revisions ≡ none)
      × ((p : RevisionId) × (contains p (parents rev.lineage) ≡ true)
          × (known_object t objects p ≡ none))
  Explains rev (some malformed_data) =
      (rev.created_by ≢ c)
      ⊎ ((¬ Distinct (parents rev.lineage))
          ⊎ ((p : RevisionId) × (o' : ObjectId) × (contains p (parents rev.lineage) ≡ true)
              × (known_object t objects p ≡ some o')
              × (o' ≢ rev.object_id)))

  Explains-of_parents :
      (rev : Revision V) (v : Option RejectionReason)
      → rev.created_by ≡ c
      → object_of rev.id t.revisions ≡ none
      → Distinct (parents rev.lineage)
      → ExplainsParents rev.object_id (parents rev.lineage) v
      → Explains rev v
  Explains-of_parents rev none a f d h = (a, f, d, h)
  Explains-of_parents rev (some duplicate_revision_id) a f d h = absurd h
  Explains-of_parents rev (some unknown_parent) a f d h = (a, f, h)
  Explains-of_parents rev (some malformed_data) a f d h = inr (inr h)

  verdict-Explains : (rev : Revision V) → Explains rev (verdict t c objects rev)
  unfolding verdict lineage_verdict
  verdict-Explains rev = elim (Bool-cases (rev.created_by == c)) [
    | inr other ↦ rw other (inl (ground arith))
    | inl mine ↦ elim (Option-cases (object_of rev.id t.revisions)) [
      | inr (o, stored) ↦ rw (mine, stored, is_stored) (ground arith, ground arith)
      | inl new ↦
          elim (Bool-cases
            (length (to_set (parents rev.lineage)) == length (parents rev.lineage))) [
              | inr repeated ↦
                  rw (mine, new, is_stored, repeated)
                    (inr (inl (λ d. ground (arith, length-to_set (parents rev.lineage) d))))
              | inl distinct ↦
                  rw (mine, new, is_stored, distinct)
                    (Explains-of_parents rev
                      (parents_verdict t objects rev.object_id (parents rev.lineage)) (ground arith)
                      new (Distinct-of_length (parents rev.lineage) (ground arith))
                      (parents_verdict-Explains rev.object_id (parents rev.lineage)))
            ]
    ]
  ]

-- The loop's body leaves the tables alone, and accepts or rejects a revision for the reason that it
-- gives: it accepts the pusher's new revisions whose parents are distinct and belong to its object,
-- in the tables or among the revisions accepted before.
pub judge_explained :
    {V : Type 0} (t : Tables V) (c : ClientId) (rev : Revision V) (s : Verdicts)
    → (v : Option RejectionReason) × (run (judge c rev s) (idle t)
        ≡ (ok (conclude rev v s), idle t))
      × Explains t c s.accepted_objects rev v
judge_explained t c rev s = (
  verdict t c s.accepted_objects rev,
  run-judge t c rev s,
  verdict-Explains t c s.accepted_objects rev,
)
