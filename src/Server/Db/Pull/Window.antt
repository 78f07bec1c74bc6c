-- ===== src/Server/Db/Pull/Window.antt =====
-- pull.rs, its first query: which objects a pull finds changed after a push.
use rustend.Prelude.{
  ℕ, ◌≤◌, ◌<◌, ◌==◌, ==_refl, leb, not, Bool, true, ◌&&◌, ◌||◌, Bool-cases, inl, inr, List, [], ◌∷◌,
  ◌++◌, map, keep, any, any-append, contains, contains-to_set, ◌≡◌, refl, ◌∙◌, arith,
}
use rustend.Core.Ids.{Uuid, ClientId, RevisionId, Instant}
use rustend.Core.Revision.{Revision}
use rustend.Server.Tables.{Tables, RevisionRow, TransactionRow, TransactionRevisionRow, has_head}
use rustend.Server.Db.Transactions.{i64_max, max_id}
use rustend.Server.Db.Transactions.Statements.{with_batch, transaction_rows}
use rustend.Server.Db.Revisions.{row_of}
use rustend.Server.Db.Push.Write.{all_added, added, all_added_rest, has_head-added}
use rustend.Server.Db.Push.Accepted.{ids}
use rustend.Server.Db.Pull.{after, in_window, changed_objects}

module _ {V : Type 0} where
  contains-map-keep :
      (o : Uuid) (p : RevisionRow V → Bool) (rows : List (RevisionRow V))
      → contains o (map (λ (r : RevisionRow V). r.object_id) (keep p rows))
        ≡ any (λ (r : RevisionRow V). p r && o == r.object_id) rows
  contains-map-keep o p [] = refl
  contains-map-keep o p (row ∷ rows) = ground (arith, contains-map-keep o p rows)

  -- A row by another client in the range makes its object one of the changed.
  contains-changed_objects :
      (o : Uuid) (c : ClientId) (since up_to : ℕ) (t : Tables V)
      → contains o (changed_objects c since up_to t)
        ≡ any
            (λ (r : RevisionRow V).
              (not (r.created_by == c)
                && in_window since up_to r.id t.transactions t.transaction_revisions)
              && o == r.object_id)
            t.revisions
  contains-changed_objects o c since up_to t =
      contains-to_set o _
      ∙ contains-map-keep o
          (λ (r : RevisionRow V).
            not (r.created_by == c)
            && in_window since up_to r.id t.transactions t.transaction_revisions)
          t.revisions

  any-all_added :
      (p : RevisionRow V → Bool) (revs : List (Revision V)) (t : Tables V)
      → any p (all_added t revs).revisions
        ≡ (any p t.revisions || any (λ (rev : Revision V). p (row_of rev)) revs)
  any-all_added p [] t = ground arith
  any-all_added p (rev ∷ revs) t =
      ground (arith, any-all_added p revs (added t rev), any-append p t.revisions (row_of rev ∷ []))

  -- After a revision of an object is written the object has a head.
  all_added-has_head :
      (o r : Uuid) (revs : List (Revision V)) (t : Tables V)
      → has_head o r t.object_heads ≡ true
      → (x : Uuid) × (has_head o x (all_added t revs).object_heads ≡ true)
  all_added-has_head o r [] t h = (r, h)
  all_added-has_head o r (rev ∷ revs) t h = elim (Bool-cases (o == rev.object_id)) [
    | inl same ↦
        all_added-has_head o rev.id revs (added t rev)
          (ground (arith, same, has_head-added rev t o rev.id))
    | inr other ↦
        all_added-has_head o r revs (added t rev)
          (ground (arith, other, h, has_head-added rev t o r))
  ]

  pub written-has_head :
      (o : Uuid) (revs : List (Revision V)) (t : Tables V)
      → any (λ (rev : Revision V). o == rev.object_id) revs ≡ true
      → (x : Uuid) × (has_head o x (all_added t revs).object_heads ≡ true)
  written-has_head o [] t h = cc
  written-has_head o (rev ∷ revs) t h = elim (Bool-cases (o == rev.object_id)) [
    | inl same ↦
        all_added-has_head o rev.id revs (added t rev)
          (ground (arith, same, has_head-added rev t o rev.id))
    | inr other ↦ written-has_head o revs (added t rev) (ground (arith, other, h))
  ]

any-transaction_rows :
    (p : ℕ → Bool) (r : Uuid) (i : ℕ) (xs : List RevisionId)
    → contains r xs ≡ true
    → p i ≡ true
    → any
        (λ (tr : TransactionRevisionRow). tr.revision_id == r && p tr.transaction_id)
        (transaction_rows i xs)
      ≡ true
any-transaction_rows p r i [] h g = cc
any-transaction_rows p r i (x ∷ xs) h g = ground (arith, h, g, any-transaction_rows p r i xs)

pub max_id-append :
    (rows : List TransactionRow) (row : TransactionRow) → row.id ≤ max_id (rows ++ (row ∷ []))
max_id-append [] row = ground arith
max_id-append (x ∷ rows) row = ground (arith, max_id-append rows row)

module _ {V : Type 0} where
  in_window-with_batch :
      (now : Instant) (c : ClientId) (accepted : List RevisionId) (u : Tables V) (since up_to : ℕ)
      (r : Uuid)
      → since < u.transactions_id_seq
      → u.transactions_id_seq ≤ i64_max
      → u.transactions_id_seq ≤ up_to
      → contains r accepted ≡ true
      → let t' = with_batch now c accepted u in
        in_window since up_to r t'.transactions t'.transaction_revisions ≡ true
  in_window-with_batch now c accepted u since up_to r h room q m =
      let t' = with_batch now c accepted u in
      let one : TransactionRow = record {
        id = u.transactions_id_seq;
        client_id = c;
        created_at = now;
      } in
      let p : ℕ → Bool = λ i.
        any (λ (t : TransactionRow). t.id == i && (after since t.id && leb t.id up_to))
          t'.transactions in
      let here : p u.transactions_id_seq ≡ true = ground (
        arith,
        any-append
            (λ (t : TransactionRow).
              t.id == u.transactions_id_seq && (after since t.id && leb t.id up_to))
            u.transactions (one ∷ []),
        ==_refl u.transactions_id_seq,
      ) in
      any-append (λ (tr : TransactionRevisionRow). tr.revision_id == r && p tr.transaction_id)
        u.transaction_revisions (transaction_rows u.transactions_id_seq accepted)
      ∙ ground (arith, any-transaction_rows p r u.transactions_id_seq accepted m here)

  -- One of these is a revision of the object by another client.
  abbrev pub writes : Uuid → ClientId → List (Revision V) → Bool
  writes o c = any (λ (rev : Revision V). not (rev.created_by == c) && o == rev.object_id)

  any-writes :
      (o : Uuid) (c : ClientId) (w : Uuid → Bool) (revs : List (Revision V))
      → ((r : Uuid) → contains r (ids revs) ≡ true → w r ≡ true)
      → writes o c revs ≡ true
      → any
          (λ (rev : Revision V). (not (rev.created_by == c) && w rev.id) && o == rev.object_id)
          revs
        ≡ true
  any-writes o c w [] h m = cc
  any-writes o c w (rev ∷ revs) h m = ground (
    arith,
    m,
    h rev.id (ground (arith, ==_refl rev.id)),
    any-writes o c w revs (λ r i. h r (ground (arith, i))),
  )

  -- The objects that a push wrote to are changed for every other client that has not pulled since.
  pub pushed-changed :
      (now : Instant) (c other : ClientId) (revs : List (Revision V)) (t : Tables V)
      (since up_to : ℕ) (o : Uuid)
      → since < t.transactions_id_seq
      → t.transactions_id_seq ≤ i64_max
      → t.transactions_id_seq ≤ up_to
      → writes o other revs ≡ true
      → contains o
          (changed_objects other since up_to (with_batch now c (ids revs) (all_added t revs)))
        ≡ true
  unfolding row_of
  pushed-changed now c other revs t since up_to o h room q m =
      let u = all_added t revs in
      let t' = with_batch now c (ids revs) u in
      let seq : u.transactions_id_seq ≡ t.transactions_id_seq = (all_added_rest revs t).1 in
      let w : Uuid → Bool = λ r. in_window since up_to r t'.transactions t'.transaction_revisions in
      contains-changed_objects o other since up_to t'
      ∙ any-all_added
          (λ (r : RevisionRow V). (not (r.created_by == other) && w r.id) && o == r.object_id) revs
          t
      ∙ ground (
        arith,
        any-writes o other w revs
            (λ r i.
              in_window-with_batch now c (ids revs) u since up_to r (omega (arith, seq, h))
                (omega (arith, seq, room)) (omega (arith, seq, q)) i)
            m,
      )
