-- ===== src/Client/Sync/Arrived.antt =====
-- sync.rs, the pull: what it brings to the local store stays there.
use rustend.Prelude.{
  ◌==◌, ==_iff, ==_refl, true, ◌&&◌, Bool-cases, some, inl, inr, List, [], ◌∷◌, any, All, contains,
  contains-append, ◌≡◌, arith,
}
use rustend.Core.Ids.{ObjectId, RevisionId}
use rustend.Core.Lineage.{parents}
use rustend.Core.Revision.{Revision}
use rustend.Core.Protocol.{HeadAction, replace, conflict, ObjectUpdate}
use rustend.Server.Tables.{Tables, object_of}
use rustend.Server.Tables.Valid.{is_leaf, is_parent}
use rustend.Server.Db.Pull.Stored.{Stored}
use rustend.Server.Db.Pull.Collected.{ids_of}
use rustend.Client.Store.{Local, get_heads}
use rustend.Client.Store.Heads.{is_head, offered, is_head-replace_heads, is_head-add_heads}
use rustend.Client.Sync.{put_synced, superseded_ids, has_diverged, act, apply_update, apply_updates}
use rustend.Client.Sync.Pulled.{superseded, apply_updates-keeps_heads}

module _ {V : Type 0} (t : Tables V) (o : ObjectId) (r : RevisionId) where
  superseded_ids-is_parent :
      (revs : List (Revision V))
      → All (Stored t) revs
      → contains r (superseded_ids revs) ≡ true
      → is_parent r t.revision_parents ≡ true
  unfolding superseded_ids
  superseded_ids-is_parent [] h m = cc
  superseded_ids-is_parent (rev ∷ revs) h m = ground (
    arith,
    m,
    contains-append r (parents rev.lineage) (superseded_ids revs),
    h.0.1 r,
    superseded_ids-is_parent revs h.1,
  )

  superseded-is_parent :
      (us : List (ObjectUpdate V))
      → All (λ (u : ObjectUpdate V). All (Stored t) u.heads) us
      → superseded o r us ≡ true
      → is_parent r t.revision_parents ≡ true
  superseded-is_parent [] h m = cc
  superseded-is_parent (u ∷ us) h m =
      ground (arith, m, superseded_ids-is_parent u.heads h.0, superseded-is_parent us h.1)

  leaf-offered :
      (revs : List (Revision V))
      → All (Stored t) revs
      → is_leaf o r t ≡ true
      → contains r (ids_of revs) ≡ true
      → offered o r revs ≡ true
  leaf-offered [] h leaf m = cc
  leaf-offered (rev ∷ revs) h leaf m = elim (Bool-cases (r == rev.id)) [
    | inr other ↦ ground (arith, other, m, leaf-offered revs h.1 leaf)
    | inl same ↦
        let e : r ≡ rev.id = (==_iff r rev.id).0 same in
        let owned : object_of r t.revisions ≡ some rev.object_id = rw e h.0.0 in
        ground (arith, same, owned, leaf)
  ]

  -- An update that carries a leaf makes it a head.
  act-arrives :
      (action : HeadAction) (u : ObjectUpdate V) (l : Local V)
      → u.object_id ≡ o
      → All (Stored t) u.heads
      → is_leaf o r t ≡ true
      → contains r (ids_of u.heads) ≡ true
      → is_head o r (act action u l).0.object_heads ≡ true
  act-arrives conflict u l mine h leaf m =
      ground (arith, leaf-offered u.heads h leaf m, is_head-add_heads o r u.heads l)
  act-arrives replace u l mine h leaf m =
      elim (Bool-cases (has_diverged u.heads (get_heads u.object_id l))) [
        | inl diverged ↦
            rw diverged
              (ground (arith, leaf-offered u.heads h leaf m, is_head-add_heads o r u.heads l))
        | inr same ↦ rw (same, is_head-replace_heads o r u.object_id u.heads l, mine, ==_refl o) m
      ]

  -- A leaf of the server's that an update carries is a head after all are applied.
  pub apply_updates-arrives :
      (us : List (ObjectUpdate V)) (l : Local V)
      → All (λ (u : ObjectUpdate V). All (Stored t) u.heads) us
      → is_leaf o r t ≡ true
      → any (λ (u : ObjectUpdate V). o == u.object_id && contains r (ids_of u.heads)) us ≡ true
      → is_head o r (apply_updates us l).0.object_heads ≡ true
  unfolding apply_updates apply_update
  apply_updates-arrives [] l h leaf m = cc
  apply_updates-arrives (u ∷ us) l h leaf m =
      elim (Bool-cases (o == u.object_id && contains r (ids_of u.heads))) [
        | inr later ↦
            apply_updates-arrives us (act u.action u (put_synced u.heads l)).0 h.1 leaf
              (ground (arith, later, m))
        | inl here ↦
            let mine : u.object_id ≡ o = ground (arith, here) in
            let arrived : is_head o r (act u.action u (put_synced u.heads l)).0.object_heads
                ≡ true =
              act-arrives u.action u (put_synced u.heads l) mine h.0 leaf (ground (arith, here)) in
            elim (apply_updates-keeps_heads us o r (act u.action u (put_synced u.heads l)).0
              arrived) [
                | inl still ↦ still
                | inr gone ↦
                    let followed : is_parent r t.revision_parents ≡ true =
                      superseded-is_parent us h.1 gone in
                    absurd (ground (arith, leaf, followed))
              ]
      ]
