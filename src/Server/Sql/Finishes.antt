-- ===== src/Server/Sql/Finishes.antt =====
-- How many steps a request makes between those of the others.
use native.Mathlib.Nat.{le_refl}
use mathlib.Core.Path.{subst}
use rustend.Prelude.{
  ℕ, zero, suc, ◌+◌, ◌≤◌, ◌==◌, ==_iff, Bool, Bool-cases, true, false, List, [], ◌∷◌, map, count,
  Option-cases, inl, inr, ◌≡◌, refl, arith,
}
use rustend.Server.Error.{SqlError}
use rustend.Server.Tables.{Tables}
use rustend.Server.Sql.{
  Result, ok, err, Db, ret, throw, statement, begin, commit, ◌>>=◌, from_sql, Fate, next, later,
  run_under,
}
use rustend.Server.Sql.Shape.{opened, Fate-cases}
use rustend.Server.Sql.Interleave.{World, ended, step, turn, interleave}

-- The program ends within this many steps, where a transaction is one.
abbrev pub Finishes : {V E A : Type 0} → Db V E A → ℕ → Type 0
Finishes (ret a) n = Unit
Finishes (throw e) n = Unit
Finishes (statement g u k) zero = ⊥
Finishes (statement g u k) (suc n) = (t : Tables _) → Finishes (k t) n
Finishes (begin k) zero = ⊥
Finishes (begin k) (suc n) = Unit
Finishes (commit k) n = ⊥

-- How often a request has its turn.
abbrev pub turns : ℕ → List (ℕ × List Fate) → ℕ
turns i schedule = count i (map (λ (x : ℕ × List Fate). x.0) schedule)

-- Nothing is left to do.
abbrev pub is_done : {V E A : Type 0} → Db V E A → Bool
is_done (ret a) = true
is_done (throw e) = true
is_done (statement g u k) = false
is_done (begin k) = false
is_done (commit k) = false

module _ {V E A : Type 0} where
  pub Finishes-more : (p : Db V E A) (n m : ℕ) → n ≤ m → Finishes p n → Finishes p m
  Finishes-more (ret a) n m q h = tt
  Finishes-more (throw e) n m q h = tt
  Finishes-more (statement g u k) zero m q h = absurd h
  Finishes-more (statement g u k) (suc n) zero q h = absurd (omega (arith, q))
  Finishes-more (statement g u k) (suc n) (suc m) q h =
      λ t. Finishes-more (k t) n m (omega (arith, q)) (h t)
  Finishes-more (begin k) zero m q h = absurd h
  Finishes-more (begin k) (suc n) zero q h = absurd (omega (arith, q))
  Finishes-more (begin k) (suc n) (suc m) q h = tt
  Finishes-more (commit k) n m q h = absurd h

  Finishes-done : (p : Db V E A) → Finishes p zero → is_done p ≡ true
  Finishes-done (ret a) h = refl
  Finishes-done (throw e) h = refl
  Finishes-done (statement g u k) h = absurd h
  Finishes-done (begin k) h = absurd h
  Finishes-done (commit k) h = absurd h

module _ {V E A B : Type 0} where
  pub >>=-Finishes :
      (m : Db V E A) (f : A → Db V E B) (n j : ℕ)
      → Finishes m n
      → ((a : A) → Finishes (f a) j)
      → Finishes (m >>= f) (n + j)
  >>=-Finishes (ret a) f n j h k = Finishes-more (f a) j (n + j) (omega arith) (k a)
  >>=-Finishes (throw e) f n j h k = tt
  >>=-Finishes (statement g u c) f zero j h k = absurd h
  >>=-Finishes (statement g u c) f (suc n) j h k =
      Finishes-more (statement g u (λ t. c t >>= f)) (suc (n + j)) (suc n + j) (omega arith)
        (λ t. >>=-Finishes (c t) f n j (h t) k)
  >>=-Finishes (begin c) f zero j h k = absurd h
  >>=-Finishes (begin c) f (suc n) j h k =
      Finishes-more (begin (c >>= f)) (suc (n + j)) (suc n + j) (omega arith) tt
  >>=-Finishes (commit c) f n j h k = absurd h

module _ {V A : Type 0} where
  pub from_sql-Finishes : (m : Db V SqlError A) (n : ℕ) → Finishes m n → Finishes (from_sql m) n
  from_sql-Finishes (ret a) n h = tt
  from_sql-Finishes (throw e) n h = tt
  from_sql-Finishes (statement g u k) zero h = h
  from_sql-Finishes (statement g u k) (suc n) h = λ t. from_sql-Finishes (k t) n (h t)
  from_sql-Finishes (begin k) zero h = h
  from_sql-Finishes (begin k) (suc n) h = tt
  from_sql-Finishes (commit k) n h = h

ended-Finishes :
    (V : Type 0) {E A : Type 0} (down : E) (r : Result E A) (n : ℕ)
    → Finishes (ended {V = V} down r) n
ended-Finishes V down (ok a) n = tt
ended-Finishes V down (err e) n = tt

module _ {V E A : Type 0} (down : E) where
  step-Finishes :
      (p : Db V E A) (fs : List Fate) (t : Tables V) (n : ℕ)
      → Finishes p (suc n)
      → Finishes (step down fs p t).0 n
  unfolding step
  step-Finishes (ret a) fs t n h = tt
  step-Finishes (throw e) fs t n h = tt
  step-Finishes (statement g u k) fs t n h = elim (Fate-cases (next fs)) [
    | inl sent ↦ elim (Option-cases (g t)) [
      | inl passes ↦ rw (sent, passes, step) (h t)
      | inr (e, refused) ↦ rw (sent, refused, step) tt
    ]
    | inr (inl gone) ↦ rw (gone, step) tt
    | inr (inr unheard) ↦ rw (unheard, step) tt
  ]
  step-Finishes (begin k) fs t n h = elim (Fate-cases (next fs)) [
    | inl sent ↦
        rw (sent, step) (ended-Finishes V down (run_under down k (later fs) (opened t t)).0 n)
    | inr (inl gone) ↦ rw (gone, step) tt
    | inr (inr unheard) ↦ rw (unheard, step) tt
  ]
  step-Finishes (commit k) fs t n h = absurd h

  -- A request that has as many turns as it has steps at most is done, whatever the others do between them.
  pub interleave-done :
      (schedule : List (ℕ × List Fate)) (w : World V E A) (i n : ℕ)
      → Finishes (w.requests i) n
      → n ≤ turns i schedule
      → is_done ((interleave down schedule w).requests i) ≡ true
  unfolding interleave
  interleave-done [] w i n h q =
      Finishes-done (w.requests i) (Finishes-more (w.requests i) n zero q h)
  interleave-done ((j, fs) ∷ schedule) w i n h q = elim (Bool-cases (i == j)) [
    | inr other ↦
        interleave-done schedule (turn down j fs w) i n (rw other h) (ground (arith, q, other))
    | inl same ↦
        let m : ℕ = turns i schedule in
        let here : Finishes (w.requests j) n =
          subst (λ x. Finishes (w.requests x) n) ((==_iff i j).0 same) h in
        interleave-done schedule (turn down j fs w) i m
          (rw same (
            step-Finishes (w.requests j) fs w.tables m
              (Finishes-more (w.requests j) n (suc m) (ground (arith, q, same)) here)))
          (le_refl m)
  ]
