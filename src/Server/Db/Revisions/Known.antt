-- ===== src/Server/Db/Revisions/Known.antt =====
-- revisions.rs: a parent that the batched query finds stands in the table of parents.
use rustend.Prelude.{◌==◌, Bool, true, ◌||◌, List, [], ◌∷◌, keep, contains, ◌≡◌, refl, arith}
use rustend.Core.Ids.{Uuid}
use rustend.Core.Lineage.{parents}
use rustend.Server.Tables.{Tables, ParentRow}
use rustend.Server.Tables.Valid.{is_parent}
use rustend.Server.Sql.{ok, idle, run, ret, ◌>>=◌}
use rustend.Server.Db.Revisions.{
  lineage_of, place, order_by_position, group, push_under, parents_in, get_parents_batch,
}
use rustend.Server.Db.Pull.Maps.{contains-under-push_under}

pub contains-parents-lineage_of :
    (p : Uuid) (ps : List Uuid) → contains p (parents (lineage_of ps)) ≡ contains p ps
unfolding lineage_of parents
contains-parents-lineage_of p [] = refl
contains-parents-lineage_of p (q ∷ []) = refl
contains-parents-lineage_of p (a ∷ b ∷ rest) = refl

is_parent-place :
    (p : Uuid) (row : ParentRow) (rows : List ParentRow)
    → is_parent p (place row rows) ≡ (p == row.parent_id || is_parent p rows)
is_parent-place p row [] = refl
is_parent-place p row (x ∷ rows) = ground (arith, is_parent-place p row rows)

is_parent-order_by_position :
    (p : Uuid) (rows : List ParentRow) → is_parent p (order_by_position rows) ≡ is_parent p rows
unfolding order_by_position
is_parent-order_by_position p [] = refl
is_parent-order_by_position p (row ∷ rows) =
    ground
      (arith, is_parent-order_by_position p rows, is_parent-place p row (order_by_position rows))

is_parent-keep :
    (p : Uuid) (q : ParentRow → Bool) (rows : List ParentRow)
    → is_parent p (keep q rows) ≡ true
    → is_parent p rows ≡ true
is_parent-keep p q [] h = h
is_parent-keep p q (row ∷ rows) h = ground (arith, h, is_parent-keep p q rows)

parents_in-group :
    (x p : Uuid) (rows : List ParentRow) (m : List (Uuid × List Uuid))
    → contains p (parents_in x (group rows m)) ≡ true
    → (contains p (parents_in x m) || is_parent p rows) ≡ true
unfolding group
parents_in-group x p [] m h = ground (arith, h)
parents_in-group x p (row ∷ rows) m h = ground (
  arith,
  parents_in-group x p rows (push_under row.revision_id row.parent_id m) h,
  contains-under-push_under x p row.revision_id row.parent_id m,
)

-- Each parent in the map is some revision's.
abbrev pub Known : {V : Type 0} → Tables V → List (Uuid × List Uuid) → Type 0
Known t m =
    (x p : Uuid) → contains p (parents_in x m) ≡ true → is_parent p t.revision_parents ≡ true

-- The program after the batched query goes on with a map of known parents.
pub get_parents_batch-Known :
    {V : Type 0} (B : Type 0) (F : List (Uuid × List Uuid) → B) (ids : List Uuid) (t : Tables V)
    → (m : List (Uuid × List Uuid)) × (run (get_parents_batch ids >>= λ m. ret (F m)) (idle t)
        ≡ (ok (F m), idle t))
      × Known t m
unfolding get_parents_batch run
get_parents_batch-Known B F [] t = ([], refl, λ x p h. cc)
get_parents_batch-Known B F (r ∷ ids) t = (
  _,
  refl,
  λ x p h.
      let kept =
        keep (λ (row : ParentRow). contains row.revision_id (r ∷ ids)) t.revision_parents in
      is_parent-keep p (λ (row : ParentRow). contains row.revision_id (r ∷ ids)) t.revision_parents
        (ground (
          arith,
          parents_in-group x p (order_by_position kept) [] h,
          is_parent-order_by_position p kept,
        )),
)
