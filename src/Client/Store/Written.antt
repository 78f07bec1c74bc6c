-- ===== src/Client/Store/Written.antt =====
-- rustend-client/src/idb/object_heads.rs: the heads that are read after one is put in the place of an object's heads.
use rustend.Prelude.{
  ◌==◌, ==_refl, ==_iff, if◌then◌else◌, false, Bool-cases, inl, inr, List, [], ◌∷◌, ◌≡◌, refl, ◌∙◌,
  arith,
}
use rustend.Core.Ids.{ObjectId, RevisionId}
use rustend.Core.Revision.{Revision}
use rustend.Client.Store.{
  HeadRecord, Local, put_head, delete_head, get_heads, get_heads_in_store, delete_heads, put_heads,
  head_record_from_revision, replace_heads,
}
use rustend.Client.Store.Heads.{is_head, is_head-delete_heads, among-get_heads_in_store}

module _ {V : Type 0} where
  get_heads_in_store-delete_head :
      (o' o : ObjectId) (r : RevisionId) (hs : List (HeadRecord V))
      → (o' == o) ≡ false
      → get_heads_in_store o' (delete_head o r hs) ≡ get_heads_in_store o' hs
  unfolding delete_head
  get_heads_in_store-delete_head o' o r [] h = refl
  get_heads_in_store-delete_head o' o r (x ∷ hs) h =
      ground (arith, h, get_heads_in_store-delete_head o' o r hs h)

  get_heads_in_store-delete_heads :
      (o' o : ObjectId) (existing hs : List (HeadRecord V))
      → (o' == o) ≡ false
      → get_heads_in_store o' (delete_heads o existing hs) ≡ get_heads_in_store o' hs
  unfolding delete_heads
  get_heads_in_store-delete_heads o' o [] hs h = refl
  get_heads_in_store-delete_heads o' o (x ∷ existing) hs h =
      get_heads_in_store-delete_heads o' o existing (delete_head o x.revision_id hs) h
      ∙ get_heads_in_store-delete_head o' o x.revision_id hs h

  get_heads_in_store-put_head :
      (o' : ObjectId) (new : HeadRecord V) (hs : List (HeadRecord V))
      → (o' == new.object_id) ≡ false
      → get_heads_in_store o' (put_head new hs) ≡ get_heads_in_store o' hs
  unfolding put_head
  get_heads_in_store-put_head o' new [] h = ground (arith, h)
  get_heads_in_store-put_head o' new (x ∷ hs) h =
      ground (arith, h, get_heads_in_store-put_head o' new hs h)

  put_head-alone :
      (new : HeadRecord V) (hs : List (HeadRecord V))
      → get_heads_in_store new.object_id hs ≡ []
      → get_heads_in_store new.object_id (put_head new hs) ≡ new ∷ []
  unfolding put_head
  put_head-alone new [] h = ground arith
  put_head-alone new (x ∷ hs) h = ground (arith, h, put_head-alone new hs)

  no_heads :
      (o : ObjectId) (hs : List (HeadRecord V))
      → ((r : RevisionId) → is_head o r hs ≡ false)
      → get_heads_in_store o hs ≡ []
  no_heads o [] h = refl
  no_heads o (x ∷ hs) h = ground (arith, h x.revision_id, no_heads o hs (λ r. ground (arith, h r)))

  all_deleted :
      (o : ObjectId) (hs : List (HeadRecord V))
      → get_heads_in_store o (delete_heads o (get_heads_in_store o hs) hs) ≡ []
  all_deleted o hs = no_heads o (delete_heads o (get_heads_in_store o hs) hs) λ r. ground (
    arith,
    is_head-delete_heads o r o (get_heads_in_store o hs) hs,
    among-get_heads_in_store o r hs,
  )

  -- One revision in the place of an object's heads is what is read of this object, and nothing else changes.
  pub get_heads-replace_heads :
      (o' o : ObjectId) (rev : Revision V) (l : Local V)
      → get_heads o' (replace_heads o (rev ∷ []) l)
        ≡ (if o' == o then head_record_from_revision o rev ∷ [] else get_heads o' l)
  unfolding replace_heads put_heads
  get_heads-replace_heads o' o rev l =
      let new : HeadRecord V = head_record_from_revision o rev in
      let cleared : List (HeadRecord V) =
        delete_heads o (get_heads_in_store o l.object_heads) l.object_heads in
      elim (Bool-cases (o' == o)) [
        | inl same ↦
            let e : o' ≡ o = (==_iff o' o).0 same in
            rw (e, ==_refl o) (put_head-alone new cleared (all_deleted o l.object_heads))
        | inr other ↦ rw other (
            get_heads_in_store-put_head o' new cleared other
            ∙ get_heads_in_store-delete_heads o' o (get_heads_in_store o l.object_heads)
                l.object_heads other)
      ]
