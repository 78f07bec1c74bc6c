-- ===== src/Client/Repository/Edits.antt =====
-- repository.rs: when a change is made, and what it leaves.
use mathlib.Core.Path.{subst}
use rustend.Prelude.{
  ◌==◌, ltb, ◌<◌, if◌then◌else◌, true, false, Bool-cases, none, some, inl, inr, ◌⊎◌, List, [], ◌∷◌,
  length, contains, ◌≡◌, refl, sym, arith,
}
use rustend.Core.Ids.{ObjectId, RevisionId, ClientId, Instant, Text}
use rustend.Core.Lineage.{Lineage, merge}
use rustend.Core.Content.{Content}
use rustend.Core.Revision.{Revision}
use rustend.Core.Outcome.{Result, ok, err}
use rustend.Client.Store.{
  HeadRecord, Local, get_heads, get_heads_in_store, from_revision, pending, put_revision,
  put_record, replace_heads,
}
use rustend.Client.Store.Heads.{is_head, is_head-replace_heads}
use rustend.Client.Error.{ClientError, stale_parent, conflict_exists}
use rustend.Client.Repository.{
  head_ids, check_parents_are_heads, commit_revision, with_type_of, checked, new_revision, edit,
  resolve_conflict,
}

module _ {V : Type 0} where
  contains-head_ids :
      (o : ObjectId) (p : RevisionId) (hs : List (HeadRecord V))
      → contains p (head_ids (get_heads_in_store o hs)) ≡ is_head o p hs
  contains-head_ids o p [] = refl
  contains-head_ids o p (h ∷ hs) = ground (arith, contains-head_ids o p hs)

  -- Each parent is a head of the object.
  abbrev pub AllHeads : ObjectId → List RevisionId → Local V → Type 0
  AllHeads o ps l = (p : RevisionId) → contains p ps ≡ true → is_head o p l.object_heads ≡ true

  -- Some parent is none.
  abbrev pub SomeStale : ObjectId → List RevisionId → Local V → Type 0
  SomeStale o ps l =
      (p : RevisionId) × (contains p ps ≡ true) × (is_head o p l.object_heads ≡ false)

  check_parents_are_heads-decides :
      (o : ObjectId) (ps : List RevisionId) (l : Local V)
      → ((check_parents_are_heads (get_heads o l) ps ≡ none) × AllHeads o ps l)
        ⊎ ((check_parents_are_heads (get_heads o l) ps ≡ some stale_parent) × SomeStale o ps l)
  unfolding check_parents_are_heads
  check_parents_are_heads-decides o [] l = inl (refl, λ p m. cc)
  check_parents_are_heads-decides o (p ∷ ps) l = elim (Bool-cases (is_head o p l.object_heads)) [
    | inr stale ↦
        inr (rw (contains-head_ids o p l.object_heads, stale) refl, (p, ground arith, stale))
    | inl head ↦ elim (check_parents_are_heads-decides o ps l) [
      | inl (passes, all_heads) ↦ inl (
        rw (contains-head_ids o p l.object_heads, head) passes,
        λ q m. ground (arith, head, all_heads q),
      )
      | inr (fails, (q, m, stale)) ↦
          inr (rw (contains-head_ids o p l.object_heads, head) fails, (q, ground arith, stale))
    ]
  ]

  -- After the change the new revision is the object's one head, other objects' heads are as before, and
  -- the revision is stored as pending.
  abbrev pub Changed :
      ObjectId → Revision V → Local V → Result ClientError RevisionId × Local V → Type 0
  Changed o rev l r =
      (r.0 ≡ ok rev.id)
      × (r.1.revisions ≡ put_record (from_revision rev pending) l.revisions)
      × ((o' : ObjectId) (x : RevisionId)
          → is_head o' x r.1.object_heads
            ≡ (if o' == o then x == rev.id else is_head o' x l.object_heads))

  commit_revision-Changed :
      (rev : Revision V) (l : Local V)
      → Changed rev.object_id rev l (ok rev.id, commit_revision rev.object_id rev l)
  unfolding commit_revision replace_heads
  commit_revision-Changed rev l = (
    refl,
    refl,
    λ o' x. ground (
      arith,
      is_head-replace_heads o' x rev.object_id (rev ∷ [])
          (put_revision (from_revision rev pending) l),
    ),
  )

  with_type_of-found :
      (hs : List (HeadRecord V)) (p : RevisionId) (revision : Text → Revision V) (l : Local V)
      → contains p (head_ids hs) ≡ true
      → (type_name : Text) × (with_type_of hs revision l ≡ (
        ok (revision type_name).id,
        commit_revision (revision type_name).object_id (revision type_name) l,
      ))
  unfolding with_type_of
  with_type_of-found [] p revision l h = cc
  with_type_of-found (x ∷ hs) p revision l h = (x.object_type, refl)

  -- A change with these parents is refused and leaves the store as it was, as a parent is no head, or it is made.
  abbrev pub Decided :
      ObjectId
      → List RevisionId
      → (Text → Revision V)
      → Local V
      → Result ClientError RevisionId × Local V
      → Type 0
  Decided o ps revision l r =
      ((r ≡ (err stale_parent, l)) × SomeStale o ps l)
      ⊎ (AllHeads o ps l × ((type_name : Text) × Changed o (revision type_name) l r))

module _ {V : Type 0} (client_id : ClientId) (now : Instant) (fresh : RevisionId)
    (o : ObjectId) where
  checked-Decided :
      (p : RevisionId) (ps : List RevisionId) (lineage : Lineage) (content : Content V)
      (l : Local V)
      → let revision = new_revision client_id now fresh o lineage content in
        Decided o (p ∷ ps) revision l (checked (get_heads o l) (p ∷ ps) revision l)
  unfolding checked
  checked-Decided p ps lineage content l =
      let revision = new_revision client_id now fresh o lineage content in
      elim (check_parents_are_heads-decides o (p ∷ ps) l) [
        | inr (fails, stale) ↦ inl (rw (checked, fails) refl, stale)
        | inl (passes, all_heads) ↦
            let found =
              with_type_of-found (get_heads o l) p revision l
                (rw (contains-head_ids o p l.object_heads) (all_heads p (ground arith))) in
            let whole : checked (get_heads o l) (p ∷ ps) revision l
                ≡ (ok fresh, commit_revision o (revision found.0) l) =
              rw (checked, passes) found.1 in
            inr (
              all_heads,
              (
                found.0,
                subst (Changed o (revision found.0) l) (sym whole)
                    (commit_revision-Changed (revision found.0) l),
              ),
            )
      ]

  -- An update or a deletion of an object is refused if the object has several heads, or if the parent
  -- is none of its heads, and leaves the store as it was; otherwise it is made: the new
  -- revision is stored as pending, it is the one head of its object, and the other objects' heads stay.
  pub edit-Decided :
      (parent : RevisionId) (content : Content V) (l : Local V)
      → let r = edit client_id now fresh o parent content l in
        let revision = new_revision client_id now fresh o (Lineage.update parent) content in
        ((1 < length (get_heads o l)) × (r ≡ (err conflict_exists, l)))
        ⊎ ((length (get_heads o l) < 2) × Decided o (parent ∷ []) revision l r)
  unfolding edit
  edit-Decided parent content l = elim (Bool-cases (ltb 1 (length (get_heads o l)))) [
    | inl many ↦ inl (ground arith, rw many refl)
    | inr few ↦
        inr (ground arith, rw few (checked-Decided parent [] (Lineage.update parent) content l))
  ]

  -- A resolution with two parents or more is refused and leaves the store as it was if some parent is no head
  -- of the object; otherwise it is made, and the merge is the one head of its object, whether or not all
  -- heads were among its parents.
  pub resolve_conflict-Decided :
      (a b : RevisionId) (rest : List RevisionId) (resolved : Content V) (l : Local V)
      → Decided o
          (a ∷ b ∷ rest)
          (new_revision client_id now fresh o (merge a b rest) resolved)
          l
          (resolve_conflict client_id now fresh o (a ∷ b ∷ rest) resolved l)
  unfolding resolve_conflict
  resolve_conflict-Decided a b rest resolved l =
      checked-Decided a (b ∷ rest) (merge a b rest) resolved l
