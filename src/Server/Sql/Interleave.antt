-- ===== src/Server/Sql/Interleave.antt =====
-- Requests that run at once: each makes its statements one by one, between those of the others. A
-- transaction, with what follows it, is one step, since the database isolates it.
use rustend.Prelude.{
  ℕ, ◌==◌, Bool-cases, true, if◌then◌else◌, List, [], ◌∷◌, Option-cases, none, some, inl, inr, ◌≡◌,
}
use rustend.Core.Ids.{Uuid}
use rustend.Server.Tables.{Tables, object_of, has_client}
use rustend.Server.Tables.Valid.{IsValid}
use rustend.Server.Sql.{
  Result, ok, err, Db, ret, throw, statement, begin, commit, Fate, answered, lost, reply_lost, next,
  later, run_under, carried_out, idle,
}
use rustend.Server.Sql.Shape.{opened, Fate-cases}

-- The tables, and what each request has still to do.
pub record World (V E A : Type 0) : Type 0 where
  pub tables : Tables V
  pub requests : ℕ → Db V E A

module _ {V E A : Type 0} (down : E) where
  -- What is left to do of a request that ended.
  abbrev pub ended : Result E A → Db V E A
  ended (ok a) = ret a
  ended (err e) = throw e

  -- One request's step, with these fates of its messages: what is left of it, and the tables. `down` is
  -- the error that a broken connection gives.
  unfoldable pub step : List Fate → Db V E A → Tables V → Db V E A × Tables V
  step fs (ret a) t = (ret a, t)
  step fs (throw e) t = (throw e, t)
  step fs (statement g u k) t = elim (next fs) [
    | lost ↦ (throw down, t)
    | reply_lost ↦ (throw down, (carried_out g u (idle t)).tables)
    | answered ↦ elim (g t) [ some e ↦ (throw e, t) | none ↦ (k t, u t) ]
  ]
  step fs (begin k) t = elim (next fs) [
    | answered ↦
        let done = run_under down k (later fs) (opened t t) in (ended done.0, done.1.tables)
    | lost ↦ (throw down, t)
    | reply_lost ↦ (throw down, t)
  ]
  step fs (commit k) t = (k, t)

  -- Request `i` makes a step.
  abbrev pub turn : ℕ → List Fate → World V E A → World V E A
  turn i fs w =
      let done = step fs (w.requests i) w.tables in
      record { tables = done.1; requests = λ j. if j == i then done.0 else w.requests j }

  unfoldable pub interleave : List (ℕ × List Fate) → World V E A → World V E A
  interleave [] w = w
  interleave ((i, fs) ∷ schedule) w = interleave schedule (turn i fs w)

-- What requests never take away from each other: revisions and clients stay.
pub record Grown {V : Type 0} (t t' : Tables V) : Type 0 where
  pub objects : (r o : Uuid) → object_of r t.revisions ≡ some o → object_of r t'.revisions ≡ some o
  pub clients : (c : Uuid) → has_client c t.clients ≡ true → has_client c t'.clients ≡ true

module _ {V : Type 0} where
  pub Grown-refl : (t : Tables V) → Grown t t
  Grown-refl t = record { objects = λ r o h. h; clients = λ c h. h }

  pub Grown-trans : (a b c : Tables V) → Grown a b → Grown b c → Grown a c
  Grown-trans a b c h g = record {
    objects = λ r o e. g.objects r o (h.objects r o e);
    clients = λ x e. g.clients x (h.clients x e);
  }

-- What a step of a request on valid tables leaves.
abbrev pub Kept : {V : Type 0} → Tables V → Tables V → Type 0
Kept t t' = IsValid t' × Grown t t'

-- A program that keeps valid tables valid and takes nothing away, whatever the others do between its
-- steps.
abbrev pub Safe : {V E A : Type 0} → E → Db V E A → Tables V → Type 0
Safe down (ret a) t = Unit
Safe down (throw e) t = Unit
Safe down (statement g u k) t =
    (t' : Tables _)
    → Grown t t'
    → IsValid t'
    → g t' ≡ none
    → Kept t' (u t') × Safe down (k t') (u t')
Safe down (begin k) t =
    (t' : Tables _)
    → Grown t t'
    → IsValid t'
    → (fs : List Fate) → Kept t' (run_under down k fs (opened t' t')).1.tables
Safe down (commit k) t = ⊥

module _ {V E A : Type 0} (down : E) where
  pub Safe-Grown : (p : Db V E A) (t t' : Tables V) → Grown t t' → Safe down p t → Safe down p t'
  Safe-Grown (ret a) t t' g h = tt
  Safe-Grown (throw e) t t' g h = tt
  Safe-Grown (statement b u k) t t' g h = λ t'' g' v e. h t'' (Grown-trans t t' t'' g g') v e
  Safe-Grown (begin k) t t' g h = λ t'' g' v. h t'' (Grown-trans t t' t'' g g') v
  Safe-Grown (commit k) t t' g h = h

  ended-Safe : (r : Result E A) (t : Tables V) → Safe down (ended down r) t
  ended-Safe (ok a) t = tt
  ended-Safe (err e) t = tt

  step-Safe :
      (p : Db V E A) (fs : List Fate) (t : Tables V)
      → IsValid t
      → Safe down p t
      → let done = step down fs p t in Kept t done.1 × Safe down done.0 done.1
  unfolding step
  step-Safe (ret a) fs t v h = ((v, Grown-refl t), tt)
  step-Safe (throw e) fs t v h = ((v, Grown-refl t), tt)
  step-Safe (statement g u k) fs t v h = elim (Fate-cases (next fs)) [
    | inl sent ↦ elim (Option-cases (g t)) [
      | inl passes ↦ rw (sent, passes, step) (h t (Grown-refl t) v passes)
      | inr (e, refused) ↦ rw (sent, refused, step) ((v, Grown-refl t), tt)
    ]
    | inr (inl gone) ↦ rw (gone, step) ((v, Grown-refl t), tt)
    | inr (inr unheard) ↦ elim (Option-cases (g t)) [
      | inl passes ↦ rw (unheard, passes, step, carried_out) ((h t (Grown-refl t) v passes).0, tt)
      | inr (e, refused) ↦ rw (unheard, refused, step, carried_out) ((v, Grown-refl t), tt)
    ]
  ]
  step-Safe (begin k) fs t v h = elim (Fate-cases (next fs)) [
    | inl sent ↦
        rw (sent, step)
          (
            h t (Grown-refl t) v (later fs),
            ended-Safe (run_under down k (later fs) (opened t t)).0 _,
          )
    | inr (inl gone) ↦ rw (gone, step) ((v, Grown-refl t), tt)
    | inr (inr unheard) ↦ rw (unheard, step) ((v, Grown-refl t), tt)
  ]
  step-Safe (commit k) fs t v h = absurd h

  -- Safe requests keep valid tables valid, in whatever order they make their steps and whatever
  -- becomes of their messages.
  pub interleave-IsValid :
      (schedule : List (ℕ × List Fate)) (w : World V E A)
      → IsValid w.tables
      → ((i : ℕ) → Safe down (w.requests i) w.tables)
      → IsValid (interleave down schedule w).tables
  unfolding interleave
  interleave-IsValid [] w v h = v
  interleave-IsValid ((i, fs) ∷ schedule) w v h =
      let (kept, rest) = step-Safe (w.requests i) fs w.tables v (h i) in
      interleave-IsValid schedule (turn down i fs w) kept.0 λ j. elim (Bool-cases (j == i)) [
        | inl same ↦ rw same rest
        | inr other ↦ rw other (
            Safe-Grown (w.requests j) w.tables (step down fs (w.requests i) w.tables).1 kept.1
              (h j))
      ]
