-- ===== src/Server/Db/Push/Steps.antt =====
-- push.rs: how many steps a push makes.
use rustend.Prelude.{
  ℕ, suc, ◌+◌, ◌==◌, Bool-cases, List, [], ◌∷◌, keep, Option, Option-cases, none, some, inl, inr,
  length, lookup, to_set, arith,
}
use rustend.Core.Ids.{ObjectId, RevisionId, ClientId, Instant}
use rustend.Core.Lineage.{parents}
use rustend.Core.Revision.{Revision}
use rustend.Core.Protocol.{RejectionReason}
use rustend.Server.Error.{SqlError}
use rustend.Server.Tables.{object_of}
use rustend.Server.Sql.{Db}
use rustend.Server.Sql.Finishes.{Finishes, Finishes-more, >>=-Finishes, from_sql-Finishes}
use rustend.Server.Db.Revisions.{revision_exists, get_revision_object_id}
use rustend.Server.Db.Push.{
  Verdicts, no_verdicts, is_accepted, parent_object_id, after_parent, check_parents, judge_lineage,
  judge, judge_all, store, respond, push_revisions,
}

module _ {V : Type 0} where
  -- One for each revision, and one for each parent of one.
  abbrev pub steps : List (Revision V) → ℕ
  steps [] = 0
  steps (rev ∷ revisions) = suc (length (parents rev.lineage)) + steps revisions

  after_parent-Finishes :
      (o : ObjectId) (others : Db V SqlError (Option RejectionReason)) (found : Option ObjectId)
      (n : ℕ)
      → Finishes others n
      → Finishes (after_parent o others found) n
  unfolding after_parent
  after_parent-Finishes o others none n h = tt
  after_parent-Finishes o others (some oid) n h = elim (Bool-cases (oid == o)) [
    | inl same ↦ rw (after_parent, same) h
    | inr other ↦ rw (after_parent, other) tt
  ]

module _ (V : Type 0) where
  parent_object_id-Finishes :
      (objects : List (RevisionId × ObjectId)) (p : RevisionId)
      → Finishes (parent_object_id {V = V} objects p) 1
  unfolding parent_object_id get_revision_object_id
  parent_object_id-Finishes objects p = elim (Option-cases (lookup p objects)) [
    | inl absent ↦ rw (parent_object_id, absent) (λ t. tt)
    | inr (o, found) ↦ rw (parent_object_id, found) tt
  ]

  check_parents-Finishes :
      (objects : List (RevisionId × ObjectId)) (o : ObjectId) (ps : List RevisionId)
      → Finishes (check_parents {V = V} objects o ps) (length ps)
  unfolding check_parents
  check_parents-Finishes objects o [] = tt
  check_parents-Finishes objects o (p ∷ ps) =
      Finishes-more (check_parents objects o (p ∷ ps)) (1 + length ps) _ (omega arith) (
        >>=-Finishes (parent_object_id objects p) _ 1 (length ps)
          (parent_object_id-Finishes objects p)
          λ found.
            after_parent-Finishes o (check_parents objects o ps) found (length ps)
              (check_parents-Finishes objects o ps))

module _ {V : Type 0} where
  judge_lineage-Finishes :
      (rev : Revision V) (s : Verdicts)
      → Finishes (judge_lineage rev s) (length (parents rev.lineage))
  unfolding judge_lineage
  judge_lineage-Finishes rev s =
      let ps : List RevisionId = parents rev.lineage in
      elim (Bool-cases (length (to_set ps) == length ps)) [
        | inr repeated ↦ rw (judge_lineage, repeated) tt
        | inl once ↦
            rw (judge_lineage, once)
              (Finishes-more _ (length ps + 0) (length ps) (omega arith) (
                >>=-Finishes (check_parents s.accepted_objects rev.object_id ps) _ (length ps) 0
                  (check_parents-Finishes V s.accepted_objects rev.object_id ps) (λ v. tt)))
      ]

  judge-Finishes :
      (c : ClientId) (rev : Revision V) (s : Verdicts)
      → Finishes (judge c rev s) (suc (length (parents rev.lineage)))
  unfolding judge revision_exists
  judge-Finishes c rev s = elim (Bool-cases (rev.created_by == c)) [
    | inr other ↦ rw (judge, other) tt
    | inl same ↦
        rw (judge, same)
          λ t. elim (Option-cases (object_of rev.id t.revisions)) [
            | inl absent ↦ rw absent (judge_lineage-Finishes rev s)
            | inr (o, stored) ↦ rw stored tt
          ]
  ]

  judge_all-Finishes :
      (c : ClientId) (revisions : List (Revision V)) (s : Verdicts)
      → Finishes (judge_all c revisions s) (steps revisions)
  unfolding judge_all
  judge_all-Finishes c [] s = tt
  judge_all-Finishes c (rev ∷ revisions) s =
      >>=-Finishes (judge c rev s) _ (suc (length (parents rev.lineage))) (steps revisions)
        (judge-Finishes c rev s) (λ s'. judge_all-Finishes c revisions s')

  respond-Finishes :
      (now : Instant) (c : ClientId) (s : Verdicts) (revisions : List (Revision V))
      → Finishes (respond now c s revisions) 1
  unfolding respond store
  respond-Finishes now c s [] = tt
  respond-Finishes now c s (rev ∷ revisions) = tt

  -- A push ends within its steps and the transaction.
  pub push_revisions-Finishes :
      (now : Instant) (c : ClientId) (revisions : List (Revision V))
      → Finishes (push_revisions now c revisions) (suc (steps revisions))
  unfolding push_revisions
  push_revisions-Finishes now c revisions = from_sql-Finishes _ (suc (steps revisions)) (
      Finishes-more _ (steps revisions + 1) (suc (steps revisions)) (omega arith) (
        >>=-Finishes (judge_all c revisions no_verdicts) _ (steps revisions) 1
          (judge_all-Finishes c revisions no_verdicts)
          (λ s. respond-Finishes now c s (keep (is_accepted s) revisions))))
