-- ===== src/Server/Db/Push/Judged.antt =====
-- push.rs, the loop that judges: what it decides while the tables grow between its statements.
use rustend.Prelude.{
  ◌==◌, ==_iff, Bool-cases, true, Option, none, some, Option-cases, inl, inr, List, [], ◌∷◌,
  contains, Distinct, Distinct-of_length, length, to_set, lookup, ◌≡◌, refl, ◌∙◌, arith,
}
use rustend.Core.Ids.{ObjectId, RevisionId, ClientId}
use rustend.Core.Lineage.{parents}
use rustend.Core.Revision.{Revision}
use rustend.Core.Protocol.{RejectionReason, malformed_data, duplicate_revision_id}
use rustend.Server.Error.{SqlError}
use rustend.Server.Tables.{Tables, object_of}
use rustend.Server.Sql.{Db}
use rustend.Server.Sql.Interleave.{Grown}
use rustend.Server.Sql.Leads.{Leads, Leads-mono, Stays, >>=-Leads}
use rustend.Server.Db.Revisions.{revision_exists, get_revision_object_id}
use rustend.Server.Db.Push.{
  Verdicts, conclude, reject, parent_object_id, after_parent, check_parents, judge_lineage, judge,
  judge_all,
}
use rustend.Server.Db.Push.Judge.{known_object}

module _ {V : Type 0} where
  -- The parents belong to this object, in the tables or among those accepted before.
  abbrev pub AllKnown :
      List (RevisionId × ObjectId) → ObjectId → List RevisionId → Tables V → Type 0
  AllKnown objects o ps t =
      (p : RevisionId) → contains p ps ≡ true → known_object t objects p ≡ some o

  known_object-Grown :
      (objects : List (RevisionId × ObjectId)) (p : RevisionId) (o : ObjectId) (t t' : Tables V)
      → Grown t t'
      → known_object t objects p ≡ some o
      → known_object t' objects p ≡ some o
  known_object-Grown objects p o t t' g h = elim (Option-cases (lookup p objects)) [
    | inl absent ↦ rw absent (g.objects p o (rw absent at h))
    | inr (x, found) ↦ rw found (rw found at h)
  ]

  pub AllKnown-Grown :
      (objects : List (RevisionId × ObjectId)) (o : ObjectId) (ps : List RevisionId)
      (t t' : Tables V)
      → Grown t t'
      → AllKnown objects o ps t
      → AllKnown objects o ps t'
  AllKnown-Grown objects o ps t t' g h = λ p m. known_object-Grown objects p o t t' g (h p m)

  parent_object_id-Leads :
      (objects : List (RevisionId × ObjectId)) (p : RevisionId) (t : Tables V)
      → Leads (λ t' found. known_object t' objects p ≡ found) (parent_object_id objects p) t
  unfolding parent_object_id get_revision_object_id
  parent_object_id-Leads objects p t = elim (Option-cases (lookup p objects)) [
    | inl absent ↦ rw (parent_object_id, absent) (λ t' g. (refl, refl))
    | inr (o, found) ↦ rw (parent_object_id, found) refl
  ]

  after_parent-Leads :
      (o : ObjectId) (others : Db V SqlError (Option RejectionReason)) (found : Option ObjectId)
      (t : Tables V) (Q : Tables V → Type 0)
      → (found ≡ some o → Leads (λ t' v. v ≡ none → Q t') others t)
      → Leads (λ t' v. v ≡ none → Q t') (after_parent o others found) t
  unfolding after_parent
  after_parent-Leads o others none t Q h = λ e. cc
  after_parent-Leads o others (some oid) t Q h = elim (Bool-cases (oid == o)) [
    | inl same ↦ rw (after_parent, same) (h (ground (arith, same)))
    | inr other ↦ rw (after_parent, other) (λ e. cc)
  ]

  -- Where no reason to reject is found, what stayed holds, and the parents are known.
  check_parents-Leads :
      (objects : List (RevisionId × ObjectId)) (o : ObjectId) (ps : List RevisionId)
      (P : Tables V → Type 0) (t : Tables V)
      → Stays P
      → P t
      → Leads (λ t' v. v ≡ none → P t' × AllKnown objects o ps t') (check_parents objects o ps) t
  unfolding check_parents
  check_parents-Leads objects o [] P t stays h = λ e. (h, λ p m. cc)
  check_parents-Leads objects o (p ∷ ps) P t stays h =
      let P' : Tables V → Type 0 = λ x. P x × (known_object x objects p ≡ some o) in
      let Q : Tables V → Type 0 = λ x. P x × AllKnown objects o (p ∷ ps) x in
      >>=-Leads (parent_object_id objects p) _ _ _ t (parent_object_id-Leads objects p t)
        λ found t' g e. after_parent-Leads o (check_parents objects o ps) found t' Q λ same.
          Leads-mono (check_parents objects o ps) (λ x v. v ≡ none → P' x × AllKnown objects o ps x)
            (λ x v. v ≡ none → Q x) t'
            (λ x v k none_found.
              let facts = k none_found in
              (
                facts.0.0,
                λ q m. elim (Bool-cases (q == p)) [
                  | inl here ↦ rw ((==_iff q p).0 here) facts.0.1
                  | inr there ↦ facts.1 q (ground (arith, m, there))
                ],
              ))
            (check_parents-Leads objects o ps P' t'
              (λ a b g' h'. (stays a b g' h'.0, known_object-Grown objects p o a b g' h'.1))
              (stays t t' g h, e ∙ same))

  -- What the loop found of a revision that it accepted.
  abbrev pub Facts : ClientId → List (RevisionId × ObjectId) → Revision V → Tables V → Type 0
  Facts c objects rev t =
      (rev.created_by ≡ c)
      × (Distinct (parents rev.lineage) × AllKnown objects rev.object_id (parents rev.lineage) t)

  -- A decision on a revision.
  abbrev pub Decision : ClientId → Revision V → Verdicts → Tables V → Verdicts → Type 0
  Decision c rev s t s' =
      (v : Option RejectionReason) × (s' ≡ conclude rev v s)
      × (v ≡ none → Facts c s.accepted_objects rev t)

  rejected-Decision :
      (c : ClientId) (rev : Revision V) (s : Verdicts) (t : Tables V) (reason : RejectionReason)
      → Decision c rev s t (reject rev reason s)
  rejected-Decision c rev s t reason = (some reason, refl, λ e. cc)

  judge_lineage-Leads :
      (c : ClientId) (rev : Revision V) (s : Verdicts) (t : Tables V)
      → rev.created_by ≡ c
      → Leads (Decision c rev s) (judge_lineage rev s) t
  unfolding judge_lineage
  judge_lineage-Leads c rev s t mine =
      let ps : List RevisionId = parents rev.lineage in
      elim (Bool-cases (length (to_set ps) == length ps)) [
        | inr repeated ↦ rw (judge_lineage, repeated) (rejected-Decision c rev s t malformed_data)
        | inl once ↦
            let distinct : Distinct ps = Distinct-of_length ps (ground (arith, once)) in
            rw (judge_lineage, once)
              (>>=-Leads (check_parents s.accepted_objects rev.object_id ps) _ _ _ t
                (check_parents-Leads s.accepted_objects rev.object_id ps (λ _. Unit) t
                  (λ _ _ _ _. tt) tt)
                λ v t' g k. (v, refl, λ e. (mine, (distinct, (k e).1))))
      ]

  judge-Leads :
      (c : ClientId) (rev : Revision V) (s : Verdicts) (t : Tables V)
      → Leads (Decision c rev s) (judge c rev s) t
  unfolding judge revision_exists
  judge-Leads c rev s t = elim (Bool-cases (rev.created_by == c)) [
    | inr other ↦ rw (judge, other) (rejected-Decision c rev s t malformed_data)
    | inl same ↦
        rw (judge, same)
          λ t' g. (
            refl,
            elim (Option-cases (object_of rev.id t'.revisions)) [
              | inl absent ↦ rw absent (judge_lineage-Leads c rev s t' (ground (arith, same)))
              | inr (o, stored) ↦ rw stored (rejected-Decision c rev s t' duplicate_revision_id)
            ],
          )
  ]

  -- The decisions on a request's revisions, one after the other.
  abbrev pub Decisions : ClientId → List (Revision V) → Verdicts → Tables V → Verdicts → Type 0
  Decisions c [] s t S = S ≡ s
  Decisions c (rev ∷ revisions) s t S =
      (s' : Verdicts) × Decision c rev s t s' × Decisions c revisions s' t S

  Decision-Grown :
      (c : ClientId) (rev : Revision V) (s s' : Verdicts) → Stays (λ t. Decision c rev s t s')
  Decision-Grown c rev s s' t t' g (v, e, k) = (
    v,
    e,
    λ none_found.
        let facts = k none_found in
        (
          facts.0,
          (
            facts.1.0,
            AllKnown-Grown s.accepted_objects rev.object_id (parents rev.lineage) t t' g facts.1.1,
          ),
        ),
  )

  -- The whole loop, from a state that some decisions led to.
  pub judge_all-Leads :
      (c : ClientId) (revisions : List (Revision V)) (s : Verdicts) (P : Tables V → Type 0)
      (t : Tables V)
      → Stays P
      → P t
      → Leads (λ t' S. P t' × Decisions c revisions s t' S) (judge_all c revisions s) t
  unfolding judge_all
  judge_all-Leads c [] s P t stays h = (h, refl)
  judge_all-Leads c (rev ∷ revisions) s P t stays h =
      >>=-Leads (judge c rev s) _ _ _ t (judge-Leads c rev s t) λ s' t' g decision.
        Leads-mono (judge_all c revisions s')
          (λ x S. (P x × Decision c rev s x s') × Decisions c revisions s' x S) _ t'
          (λ x S k. (k.0.0, (s', k.0.1, k.1)))
          (judge_all-Leads c revisions s' (λ x. P x × Decision c rev s x s') t'
            (λ a b g' k. (stays a b g' k.0, Decision-Grown c rev s s' a b g' k.1))
            (stays t t' g h, decision))
