-- ===== src/Client/Store/Heads.antt =====
-- rustend-client/src/idb/object_heads.rs: which revisions are heads after the changes to the store.
use rustend.Prelude.{
  ◌==◌, if◌then◌else◌, not, Bool, ◌&&◌, ◌||◌, List, [], ◌∷◌, map, any, contains, ◌≡◌, refl, arith,
}
use rustend.Core.Ids.{ObjectId, RevisionId}
use rustend.Core.Revision.{Revision}
use rustend.Client.Store.{
  HeadRecord, Local, same_key, put_head, delete_head, get_heads_in_store, delete_heads, put_heads,
  head_record_from_revision, replace_heads, add_each, add_heads,
}

module _ {V : Type 0} where
  -- The revision is a head of the object.
  abbrev pub is_head : ObjectId → RevisionId → List (HeadRecord V) → Bool
  is_head o r = any (same_key o r)

  abbrev pub revision_ids : List (Revision V) → List RevisionId
  revision_ids = map (λ (rev : Revision V). rev.id)

  is_head-put_head :
      (o : ObjectId) (r : RevisionId) (new : HeadRecord V) (hs : List (HeadRecord V))
      → is_head o r (put_head new hs) ≡ (same_key o r new || is_head o r hs)
  unfolding put_head
  is_head-put_head o r new [] = refl
  is_head-put_head o r new (h ∷ hs) = ground (arith, is_head-put_head o r new hs)

  is_head-delete_head :
      (o : ObjectId) (r : RevisionId) (o' : ObjectId) (r' : RevisionId) (hs : List (HeadRecord V))
      → is_head o r (delete_head o' r' hs) ≡ (is_head o r hs && not (o == o' && r == r'))
  unfolding delete_head
  is_head-delete_head o r o' r' [] = refl
  is_head-delete_head o r o' r' (h ∷ hs) = ground (arith, is_head-delete_head o r o' r' hs)

  abbrev pub among : RevisionId → List (HeadRecord V) → Bool
  among r = any (λ (h : HeadRecord V). r == h.revision_id)

  pub is_head-delete_heads :
      (o : ObjectId) (r : RevisionId) (o' : ObjectId) (existing hs : List (HeadRecord V))
      → is_head o r (delete_heads o' existing hs)
        ≡ (is_head o r hs && not (o == o' && among r existing))
  unfolding delete_heads
  is_head-delete_heads o r o' [] hs = ground arith
  is_head-delete_heads o r o' (h ∷ existing) hs = ground (
    arith,
    is_head-delete_heads o r o' existing (delete_head o' h.revision_id hs),
    is_head-delete_head o r o' h.revision_id hs,
  )

  pub among-get_heads_in_store :
      (o : ObjectId) (r : RevisionId) (hs : List (HeadRecord V))
      → among r (get_heads_in_store o hs) ≡ is_head o r hs
  among-get_heads_in_store o r [] = refl
  among-get_heads_in_store o r (h ∷ hs) = ground (arith, among-get_heads_in_store o r hs)

  is_head-put_heads :
      (o : ObjectId) (r : RevisionId) (o' : ObjectId) (revs : List (Revision V))
      (hs : List (HeadRecord V))
      → is_head o r (put_heads o' revs hs)
        ≡ (o == o' && contains r (revision_ids revs) || is_head o r hs)
  unfolding put_heads
  is_head-put_heads o r o' [] hs = ground arith
  is_head-put_heads o r o' (rev ∷ revs) hs = ground (
    arith,
    is_head-put_heads o r o' revs (put_head (head_record_from_revision o' rev) hs),
    is_head-put_head o r (head_record_from_revision o' rev) hs,
  )

  pub is_head-replace_heads :
      (o : ObjectId) (r : RevisionId) (o' : ObjectId) (revs : List (Revision V)) (l : Local V)
      → is_head o r (replace_heads o' revs l).object_heads
        ≡ (if o == o' then contains r (revision_ids revs) else is_head o r l.object_heads)
  unfolding replace_heads
  is_head-replace_heads o r o' revs l =
      let existing : List (HeadRecord V) = get_heads_in_store o' l.object_heads in
      ground (
        arith,
        is_head-put_heads o r o' revs (delete_heads o' existing l.object_heads),
        is_head-delete_heads o r o' existing l.object_heads,
        among-get_heads_in_store o' r l.object_heads,
      )

  -- The revision is one of these and belongs to the object.
  abbrev pub offered : ObjectId → RevisionId → List (Revision V) → Bool
  offered o r = any (λ (rev : Revision V). o == rev.object_id && r == rev.id)

  is_head-add_each :
      (o : ObjectId) (r : RevisionId) (revs : List (Revision V)) (hs : List (HeadRecord V))
      → is_head o r (add_each revs hs) ≡ (offered o r revs || is_head o r hs)
  unfolding add_each
  is_head-add_each o r [] hs = refl
  is_head-add_each o r (rev ∷ revs) hs = ground (
    arith,
    is_head-add_each o r revs (put_head (head_record_from_revision rev.object_id rev) hs),
    is_head-put_head o r (head_record_from_revision rev.object_id rev) hs,
  )

  pub is_head-add_heads :
      (o : ObjectId) (r : RevisionId) (revs : List (Revision V)) (l : Local V)
      → is_head o r (add_heads revs l).object_heads
        ≡ (offered o r revs || is_head o r l.object_heads)
  unfolding add_heads
  is_head-add_heads o r revs l = is_head-add_each o r revs l.object_heads
