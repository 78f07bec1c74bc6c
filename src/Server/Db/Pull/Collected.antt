-- ===== src/Server/Db/Pull/Collected.antt =====
-- pull.rs: what the loops over the changed objects and their heads collect.
use rustend.Prelude.{
  ◌==◌, ==_iff, if◌then◌else◌, Bool, true, false, Bool-cases, Option-cases, Option, none, some, inl,
  inr, ◌⊎◌, List, [], ◌∷◌, ◌++◌, map, keep, contains, lookup, length, ◌≡◌, refl, sym, ap, ◌∙◌,
  arith,
}
use rustend.Core.Ids.{Uuid, Text}
use rustend.Core.Json.{Json}
use rustend.Core.Revision.{Revision}
use rustend.Core.Filter.{CreatedAtFilter, FilterCondition}
use rustend.Core.Protocol.{ObjectUpdate}
use rustend.Server.Tables.{RevisionRow, object_of}
use rustend.Server.Sql.{Result, ok, err}
use rustend.Server.Db.Revisions.{row_to_revision_sync}
use rustend.Server.Db.Pull.{
  remove, rows_by_id, head_passes, collect_heads, update_of, collect_updates,
}
use rustend.Server.Db.Pull.Maps.{under, Keyed, remove-Keyed, lookup-Keyed, suc-not_zero}
use rustend.Server.Db.Pull.Heads.{collect_heads-From}

module _ {V : Type 0} where
  -- The row with this id.
  abbrev pub find_row : Uuid → List (RevisionRow V) → Option (RevisionRow V)
  find_row r [] = none
  find_row r (row ∷ rows) = if r == row.id then some row else find_row r rows

  pub object_of-eq-find_row :
      (r : Uuid) (rows : List (RevisionRow V))
      → object_of r rows ≡ elim (find_row r rows) [ none ↦ none | some row ↦ some row.object_id ]
  object_of-eq-find_row r [] = refl
  object_of-eq-find_row r (row ∷ rows) = ground (arith, object_of-eq-find_row r rows)

  pub lookup-rows_by_id :
      (r : Uuid) (ids : List Uuid) (rows : List (RevisionRow V))
      → contains r ids ≡ true
      → lookup r (rows_by_id (keep (λ (row : RevisionRow V). contains row.id ids) rows))
        ≡ find_row r rows
  lookup-rows_by_id r ids [] h = refl
  lookup-rows_by_id r ids (row ∷ rows) h = ground (arith, h, lookup-rows_by_id r ids rows h)

  lookup-remove :
      (r k : Uuid) (m : List (Uuid × RevisionRow V))
      → (r == k) ≡ false
      → lookup r (remove k m) ≡ lookup r m
  lookup-remove r k [] h = refl
  lookup-remove r k ((j, row) ∷ m) h = ground (arith, h, lookup-remove r k m h)

  abbrev pub ids_of : List (Revision V) → List Uuid
  ids_of = map (λ (rev : Revision V). rev.id)

  -- Some update of these is of this kind.
  abbrev pub Somewhere : (ObjectUpdate V → Type 0) → List (ObjectUpdate V) → Type 0
  Somewhere P [] = ⊥
  Somewhere P (u ∷ us) = P u ⊎ Somewhere P us

  Somewhere-left :
      (P : ObjectUpdate V → Type 0) (us vs : List (ObjectUpdate V))
      → Somewhere P us
      → Somewhere P (us ++ vs)
  Somewhere-left P [] vs h = absurd h
  Somewhere-left P (u ∷ us) vs (inl h) = inl h
  Somewhere-left P (u ∷ us) vs (inr h) = inr (Somewhere-left P us vs h)

  Somewhere-right :
      (P : ObjectUpdate V → Type 0) (us vs : List (ObjectUpdate V))
      → Somewhere P vs
      → Somewhere P (us ++ vs)
  Somewhere-right P [] vs h = h
  Somewhere-right P (u ∷ us) vs h = inr (Somewhere-right P us vs h)

  pub Somewhere-mono :
      (P Q : ObjectUpdate V → Type 0)
      → ((u : ObjectUpdate V) → P u → Q u)
      → (us : List (ObjectUpdate V)) → Somewhere P us
      → Somewhere Q us
  Somewhere-mono P Q f [] h = absurd h
  Somewhere-mono P Q f (u ∷ us) (inl h) = inl (f u h)
  Somewhere-mono P Q f (u ∷ us) (inr h) = inr (Somewhere-mono P Q f us h)

  -- The update is for the object, and has each of these heads.
  abbrev pub Carries : Uuid → (Uuid → Bool) → ObjectUpdate V → Type 0
  Carries o is u =
      (u.object_id ≡ o) × ((r : Uuid) → is r ≡ true → contains r (ids_of u.heads) ≡ true)

abbrev pub updates_in : {V E : Type 0} → Result E (List (ObjectUpdate V)) → List (ObjectUpdate V)
updates_in (ok us) = us
updates_in (err e) = []

under-eq :
    (x : Uuid) (m : List (Uuid × List Uuid)) (ids : List Uuid)
    → lookup x m ≡ some ids
    → under x m ≡ ids
under-eq x m ids listed = ground (arith, listed)

under-listed :
    (o x r : Uuid) (m : List (Uuid × List Uuid)) (ids : List Uuid)
    → (o == x) ≡ true
    → lookup x m ≡ some ids
    → contains r (under o m) ≡ true
    → contains r ids ≡ true
under-listed o x r m ids same listed h =
    let e : o ≡ x = (==_iff o x).0 same in
    ap (contains r) (sym (under-eq x m ids listed) ∙ ap (λ y. under y m) (sym e)) ∙ h

elsewhere :
    (o x r : Uuid) (m : List (Uuid × List Uuid)) (ids : List Uuid)
    → (o == x) ≡ false
    → lookup x m ≡ some ids
    → (contains r (under x m) ≡ true → x ≡ o)
    → contains r ids ≡ false
elsewhere o x r m ids other listed apart = elim (Bool-cases (contains r ids)) [
  | inr no_member ↦ no_member
  | inl member ↦
      let e : x ≡ o = apart (ap (contains r) (under-eq x m ids listed) ∙ member) in
      ground (arith, e, other)
]

module _ {V : Type 0} (json : Json V) (object_types : Option (List Text))
    (created_at_filters : Option (List CreatedAtFilter))
    (content_filter : Option (List (List (FilterCondition V)))) where
  abbrev collected :
      List (Uuid × List Uuid)
      → List Uuid
      → List (Uuid × RevisionRow V)
      → List (Revision V) × (Bool × List (Uuid × RevisionRow V))
  collected = collect_heads json object_types created_at_filters content_filter

  collect_heads-finds :
      (parents_map : List (Uuid × List Uuid)) (ids : List Uuid) (m : List (Uuid × RevisionRow V))
      (r : Uuid) (row : RevisionRow V)
      → Keyed m
      → contains r ids ≡ true
      → lookup r m ≡ some row
      → (contains r (ids_of (collected parents_map ids m).0) ≡ true)
        × (head_passes json object_types created_at_filters content_filter row ≡ true
            → (collected parents_map ids m).1.0 ≡ true)
  unfolding collect_heads row_to_revision_sync
  collect_heads-finds parents_map [] m r row k i l = cc
  collect_heads-finds parents_map (x ∷ ids) m r row k i l = elim (Bool-cases (r == x)) [
    | inl same ↦
        let found : lookup x m ≡ some row = ap (λ y. lookup y m) (sym ((==_iff r x).0 same)) ∙ l in
        let keyed : row.id ≡ x = lookup-Keyed x row m k found in
        rw (collect_heads, found) (ground (arith, keyed, same), λ p. ground (arith, p))
    | inr other ↦
        let rest =
          collect_heads-finds parents_map ids (remove x m) r row (remove-Keyed x m k) (ground arith)
            (lookup-remove r x m other ∙ l) in
        elim (Option-cases (lookup x m)) [
          | inl absent ↦ rw (collect_heads, absent) rest
          | inr (y, found) ↦
              rw (collect_heads, found) (ground (arith, rest.0), λ p. ground (arith, rest.1 p))
        ]
  ]

  -- What the loop over an object's heads leaves for the others.
  collect_heads-leaves_rest :
      (parents_map : List (Uuid × List Uuid)) (ids : List Uuid) (m : List (Uuid × RevisionRow V))
      (r : Uuid)
      → contains r ids ≡ false
      → lookup r (collected parents_map ids m).1.1 ≡ lookup r m
  unfolding collect_heads
  collect_heads-leaves_rest parents_map [] m r i = refl
  collect_heads-leaves_rest parents_map (x ∷ ids) m r i =
      let rest : lookup r (collected parents_map ids (remove x m)).1.1 ≡ lookup r m =
        collect_heads-leaves_rest parents_map ids (remove x m) r (ground arith)
        ∙ lookup-remove r x m (ground arith) in
      elim (Option-cases (lookup x m)) [
        | inl absent ↦ rw (collect_heads, absent) rest
        | inr (y, found) ↦ rw (collect_heads, found) rest
      ]

  update_of-present :
      (P : ObjectUpdate V → Type 0) (o r : Uuid) (revs : List (Revision V)) (passes : Bool)
      → passes ≡ true
      → contains r (ids_of revs) ≡ true
      → ((u : ObjectUpdate V) → u.object_id ≡ o → u.heads ≡ revs → P u)
      → Somewhere P (update_of json object_types created_at_filters content_filter o revs passes)
  update_of-present P o r [] passes p i h = cc
  update_of-present P o r (rev ∷ revs) passes p i h =
      rw (p, suc-not_zero (length revs)) (inl (h _ refl refl))

  module _ (heads parents_map : List (Uuid × List Uuid)) (o : Uuid) (good : Uuid)
      (good_row : RevisionRow V) where
    pub collect_updates_complete :
        (objects : List Uuid) (m : List (Uuid × RevisionRow V))
        → contains o objects ≡ true
        → Keyed m
        → ((x r : Uuid)
            → contains r (under x heads) ≡ true
            → contains r (under o heads) ≡ true
            → x ≡ o)
        → ((r : Uuid)
            → contains r (under o heads) ≡ true
            → (row : RevisionRow V) × (lookup r m ≡ some row))
        → contains good (under o heads) ≡ true
        → lookup good m ≡ some good_row
        → head_passes json object_types created_at_filters content_filter good_row ≡ true
        → Somewhere (Carries o (λ r. contains r (under o heads))) (
            collect_updates json object_types created_at_filters content_filter heads parents_map
              objects m)
    unfolding collect_updates
    collect_updates_complete [] m i k apart avail g found passes = cc
    collect_updates_complete (x ∷ objects) m i k apart avail g found passes =
        elim (Option-cases (lookup x heads)) [
          | inl absent ↦
              rw (collect_updates, absent)
                (collect_updates_complete objects m (ground (arith, absent)) k apart avail g found
                  passes)
          | inr (ids, listed) ↦
              let one = collected parents_map ids m in
              let P = Carries o (λ r. contains r (under o heads)) in
              let finds =
                λ (r : Uuid) (row : RevisionRow V) (ir : contains r ids ≡ true)
                    (l : lookup r m ≡ some row).
                  collect_heads-finds parents_map ids m r row k ir l in
              elim (Bool-cases (o == x)) [
                | inl same ↦
                    let member : (r : Uuid)
                        → contains r (under o heads) ≡ true
                        → contains r ids ≡ true =
                      λ r ir. under-listed o x r heads ids same listed ir in
                    rw (collect_updates, listed)
                      (Somewhere-left P
                        (update_of json object_types created_at_filters content_filter x one.0
                          one.1.0)
                        _
                        (update_of-present P x good one.0 one.1.0
                          ((finds good good_row (member good g) found).1 passes)
                          (finds good good_row (member good g) found).0
                          (λ u e f. (
                            e ∙ sym ((==_iff o x).0 same),
                            λ r ir. rw f (finds r (avail r ir).0 (member r ir) (avail r ir).1).0,
                          ))))
                | inr other ↦
                    let kept : (r : Uuid)
                        → contains r (under o heads) ≡ true
                        → lookup r one.1.1 ≡ lookup r m =
                      λ r ir.
                        collect_heads-leaves_rest parents_map ids m r
                          (elsewhere o x r heads ids other listed (λ h. apart x r h ir)) in
                    rw (collect_updates, listed)
                      (Somewhere-right P
                        (update_of json object_types created_at_filters content_filter x one.0
                          one.1.0)
                        _
                        (collect_updates_complete objects one.1.1 (ground arith)
                          (collect_heads-From json object_types created_at_filters content_filter
                            parents_map ids m k).1
                          apart (λ r ir. ((avail r ir).0, kept r ir ∙ (avail r ir).1)) g
                          (kept good g ∙ found) passes))
              ]
        ]
