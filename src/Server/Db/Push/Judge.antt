-- ===== src/Server/Db/Push/Judge.antt =====
-- push.rs, the loop that judges: what it decides, as a function of the tables and of the revisions
-- accepted before.
use rustend.Prelude.{
  ◌==◌, if◌then◌else◌, not, Bool, true, false, Option, none, some, Bool-cases, inl, inr, List, [],
  ◌∷◌, length, to_set, lookup, or_else, ◌≡◌, refl, arith,
}
use rustend.Core.Ids.{ObjectId, RevisionId, ClientId}
use rustend.Core.Lineage.{parents}
use rustend.Core.Revision.{Revision}
use rustend.Core.Protocol.{RejectionReason, duplicate_revision_id, unknown_parent, malformed_data}
use rustend.Server.Tables.{Tables, object_of}
use rustend.Server.Sql.{ok, idle, run}
use rustend.Server.Sql.Laws.{run->>=}
use rustend.Server.Db.Revisions.{revision_exists, get_revision_object_id}
use rustend.Server.Db.Push.{
  Verdicts, conclude, parent_object_id, after_parent, check_parents, judge_lineage, judge,
  judge_all,
}

-- The object of a revision that was accepted before or that the tables hold.
abbrev pub known_object :
    {V : Type 0} → Tables V → List (RevisionId × ObjectId) → RevisionId → Option ObjectId
known_object t objects p = or_else (lookup p objects) (object_of p t.revisions)

module _ {V : Type 0} (t : Tables V) where
  -- The first parent that is unknown or of another object decides.
  unfoldable pub parents_verdict :
      List (RevisionId × ObjectId) → ObjectId → List RevisionId → Option RejectionReason
  parents_verdict objects object_id [] = none
  parents_verdict objects object_id (p ∷ ps) = elim (known_object t objects p) [
    | none ↦ some unknown_parent
    | some oid ↦
        if oid == object_id then parents_verdict objects object_id ps else some malformed_data
  ]

  abbrev pub is_stored : RevisionId → Bool
  is_stored r = elim (object_of r t.revisions) [ none ↦ false | some _ ↦ true ]

  unfoldable pub lineage_verdict :
      List (RevisionId × ObjectId) → Revision V → Option RejectionReason
  lineage_verdict objects rev =
      if not (length (to_set (parents rev.lineage)) == length (parents rev.lineage))
      then some malformed_data
      else parents_verdict objects rev.object_id (parents rev.lineage)

  unfoldable pub verdict :
      ClientId → List (RevisionId × ObjectId) → Revision V → Option RejectionReason
  verdict client_id objects rev =
      if not (rev.created_by == client_id)
      then some malformed_data
      else if is_stored rev.id
      then some duplicate_revision_id
      else lineage_verdict objects rev

  unfoldable pub verdicts : ClientId → List (Revision V) → Verdicts → Verdicts
  verdicts client_id [] s = s
  verdicts client_id (rev ∷ revisions) s =
      verdicts client_id revisions (conclude rev (verdict client_id s.accepted_objects rev) s)

  run-check_parents :
      (objects : List (RevisionId × ObjectId)) (object_id : ObjectId) (ps : List RevisionId)
      → run (check_parents {V = V} objects object_id ps) (idle t)
        ≡ (ok (parents_verdict objects object_id ps), idle t)
  unfolding run check_parents after_parent parent_object_id get_revision_object_id parents_verdict
  run-check_parents objects object_id [] = refl
  run-check_parents objects object_id (p ∷ ps) =
      ground (arith, run-check_parents objects object_id ps)

  run-judge_lineage :
      (rev : Revision V) (s : Verdicts)
      → run (judge_lineage rev s) (idle t)
        ≡ (ok (conclude rev (lineage_verdict s.accepted_objects rev) s), idle t)
  unfolding judge_lineage lineage_verdict run
  run-judge_lineage rev s =
      elim (Bool-cases (length (to_set (parents rev.lineage)) == length (parents rev.lineage))) [
        | inl distinct ↦
            rw (distinct, run->>=, run-check_parents s.accepted_objects rev.object_id) refl
        | inr repeated ↦ rw repeated refl
      ]

  pub run-judge :
      (client_id : ClientId) (rev : Revision V) (s : Verdicts)
      → run (judge client_id rev s) (idle t)
        ≡ (ok (conclude rev (verdict client_id s.accepted_objects rev) s), idle t)
  unfolding judge verdict revision_exists run
  run-judge client_id rev s = ground (arith, run-judge_lineage rev s)

  -- The loop decides on each revision as stated, and leaves the tables alone.
  pub run-judge_all :
      (client_id : ClientId) (revisions : List (Revision V)) (s : Verdicts)
      → run (judge_all client_id revisions s) (idle t)
        ≡ (ok (verdicts client_id revisions s), idle t)
  unfolding judge_all verdicts run
  run-judge_all client_id [] s = refl
  run-judge_all client_id (rev ∷ revisions) s =
      rw (run->>=, run-judge client_id rev s) (run-judge_all client_id revisions _)
