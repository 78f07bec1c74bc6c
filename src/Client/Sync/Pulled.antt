-- ===== src/Client/Sync/Pulled.antt =====
-- sync.rs, the pull: which revisions are heads after the updates are applied.
use rustend.Prelude.{
  ◌==◌, ==_iff, Bool, true, false, ◌&&◌, ◌||◌, Bool-cases, inl, inr, ◌⊎◌, List, [], ◌∷◌, any,
  contains, ◌≡◌, refl, sym, arith,
}
use rustend.Core.Ids.{ObjectId, RevisionId}
use rustend.Core.Revision.{Revision}
use rustend.Core.Protocol.{HeadAction, replace, conflict, ObjectUpdate}
use rustend.Client.Store.{HeadRecord, Local, get_heads, get_heads_in_store}
use rustend.Client.Store.Heads.{is_head, is_head-replace_heads, is_head-add_heads}
use rustend.Client.Sync.{
  put_synced, revision_ids, superseded_ids, has_diverged, act, apply_update, apply_updates,
}

module _ {V : Type 0} where
  put_synced-object_heads :
      (revs : List (Revision V)) (l : Local V) → (put_synced revs l).object_heads ≡ l.object_heads
  put_synced-object_heads [] l = refl
  put_synced-object_heads (rev ∷ revs) l = put_synced-object_heads revs _

  -- Where nothing has diverged, each of the object's heads is among the incoming or their parents.
  not_diverged :
      (revs : List (Revision V)) (o : ObjectId) (r : RevisionId) (hs : List (HeadRecord V))
      → has_diverged revs (get_heads_in_store o hs) ≡ false
      → is_head o r hs ≡ true
      → (contains r (revision_ids revs) || contains r (superseded_ids revs)) ≡ true
  unfolding has_diverged
  not_diverged revs o r [] h m = cc
  not_diverged revs o r (x ∷ hs) h m = ground (arith, h, m, not_diverged revs o r hs)

  act-is_head :
      (action : HeadAction) (u : ObjectUpdate V) (o : ObjectId) (r : RevisionId) (l : Local V)
      → is_head o r l.object_heads ≡ true
      → (is_head o r (act action u l).0.object_heads ≡ true)
        ⊎ ((o ≡ u.object_id) × (contains r (superseded_ids u.heads) ≡ true))
  act-is_head conflict u o r l h = inl (ground (arith, is_head-add_heads o r u.heads l))
  act-is_head replace u o r l h =
      elim (Bool-cases (has_diverged u.heads (get_heads u.object_id l))) [
        | inl diverged ↦ inl (rw diverged (ground (arith, is_head-add_heads o r u.heads l)))
        | inr same ↦ elim (Bool-cases (o == u.object_id)) [
          | inl mine ↦ elim (Bool-cases (contains r (superseded_ids u.heads))) [
            | inl gone ↦ inr (ground arith, gone)
            | inr stays ↦ inl (
                rw (same, is_head-replace_heads o r u.object_id u.heads l, mine)
                  (ground (
                    arith,
                    stays,
                    not_diverged u.heads u.object_id r l.object_heads same
                        (rw (sym ((==_iff o u.object_id).0 mine)) h),
                  )))
          ]
          | inr other ↦
              inl (rw same (ground (arith, is_head-replace_heads o r u.object_id u.heads l)))
        ]
      ]

  -- The revision is a parent of a head that these updates bring for the object.
  abbrev pub superseded : ObjectId → RevisionId → List (ObjectUpdate V) → Bool
  superseded o r =
      any λ (u : ObjectUpdate V). o == u.object_id && contains r (superseded_ids u.heads)

  -- No head of the local store is lost by a pull, be it synchronised or pending: it stays a head of its object, unless a
  -- head that the pull brings for this object has it as a parent.
  pub apply_updates-keeps_heads :
      (updates : List (ObjectUpdate V)) (o : ObjectId) (r : RevisionId) (l : Local V)
      → is_head o r l.object_heads ≡ true
      → (is_head o r (apply_updates updates l).0.object_heads ≡ true)
        ⊎ (superseded o r updates ≡ true)
  unfolding apply_updates apply_update
  apply_updates-keeps_heads [] o r l h = inl h
  apply_updates-keeps_heads (u ∷ updates) o r l h =
      elim (act-is_head u.action u o r (put_synced u.heads l)
        (rw (put_synced-object_heads u.heads l) h)) [
          | inl stays ↦
              elim (apply_updates-keeps_heads updates o r (act u.action u (put_synced u.heads l)).0
                stays) [ inl still ↦ inl still | inr later ↦ inr (ground (arith, later)) ]
          | inr gone ↦ inr (ground (arith, gone.0, gone.1))
        ]
