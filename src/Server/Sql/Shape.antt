-- ===== src/Server/Sql/Shape.antt =====
-- Programs that only read, programs that write in one transaction, and what broken connections
-- can leave of them.
use native.Mathlib.Nat.{le_refl, le_trans}
use mathlib.Core.Path.{ap, subst}
use rustend.Prelude.{
  Bool, true, false, if◌then◌else◌, ◌≤◌, List, ◌≡◌, refl, ◌⊎◌, inl, inr, none, some, Option-cases,
  arith,
}
use rustend.Server.Tables.{Tables}
use rustend.Server.Error.{SqlError}
use rustend.Server.Sql.{
  ok, err, Db, ret, throw, statement, begin, commit, ◌>>=◌, from_sql, Session, idle, run, run_under,
  Fate, answered, lost, reply_lost, next, later, rolled_back, carried_out,
}

-- No statement changes a table, and no transaction is opened.
abbrev pub ReadOnly : {V E A : Type 0} → Db V E A → Type 0
ReadOnly (ret a) = Unit
ReadOnly (throw e) = Unit
ReadOnly (statement g u k) = ((t : Tables _) → u t ≡ t) × ((t : Tables _) → ReadOnly (k t))
ReadOnly (begin k) = ⊥
ReadOnly (commit k) = ⊥

-- Statements alone: neither `begin` nor `commit`. The sequence only moves forward.
abbrev pub Plain : {V E A : Type 0} → Db V E A → Type 0
Plain (ret a) = Unit
Plain (throw e) = Unit
Plain (statement g u k) =
    (t : Tables _) → (t.transactions_id_seq ≤ (u t).transactions_id_seq) × Plain (k t)
Plain (begin k) = ⊥
Plain (commit k) = ⊥

-- The rest of a program that has opened a transaction: it commits once and only reads from there.
abbrev pub Commits : {V E A : Type 0} → Db V E A → Type 0
Commits (ret a) = ⊥
Commits (throw e) = Unit
Commits (statement g u k) =
    (t : Tables _) → (t.transactions_id_seq ≤ (u t).transactions_id_seq) × Commits (k t)
Commits (begin k) = ⊥
Commits (commit k) = ReadOnly k

-- A program that reads, and then may open a transaction, commit it and read on.
abbrev pub Atomic : {V E A : Type 0} → Db V E A → Type 0
Atomic (ret a) = Unit
Atomic (throw e) = Unit
Atomic (statement g u k) = ((t : Tables _) → u t ≡ t) × ((t : Tables _) → Atomic (k t))
Atomic (begin k) = Commits k
Atomic (commit k) = ⊥

module _ {V E A B : Type 0} where
  pub >>=-ReadOnly :
      (m : Db V E A) (f : A → Db V E B)
      → ReadOnly m
      → ((a : A) → ReadOnly (f a))
      → ReadOnly (m >>= f)
  >>=-ReadOnly (ret a) f h k = k a
  >>=-ReadOnly (throw e) f h k = tt
  >>=-ReadOnly (statement g u c) f h k = (h.0, λ t. >>=-ReadOnly (c t) f (h.1 t) k)
  >>=-ReadOnly (begin c) f h k = absurd h
  >>=-ReadOnly (commit c) f h k = absurd h

  pub >>=-Plain :
      (m : Db V E A) (f : A → Db V E B) → Plain m → ((a : A) → Plain (f a)) → Plain (m >>= f)
  >>=-Plain (ret a) f h k = k a
  >>=-Plain (throw e) f h k = tt
  >>=-Plain (statement g u c) f h k = λ t. ((h t).0, >>=-Plain (c t) f (h t).1 k)
  >>=-Plain (begin c) f h k = absurd h
  >>=-Plain (commit c) f h k = absurd h

  pub >>=-Commits :
      (m : Db V E A) (f : A → Db V E B) → Plain m → ((a : A) → Commits (f a)) → Commits (m >>= f)
  >>=-Commits (ret a) f h k = k a
  >>=-Commits (throw e) f h k = tt
  >>=-Commits (statement g u c) f h k = λ t. ((h t).0, >>=-Commits (c t) f (h t).1 k)
  >>=-Commits (begin c) f h k = absurd h
  >>=-Commits (commit c) f h k = absurd h

  -- A program that has committed may read on.
  pub >>=-Commits_then :
      (m : Db V E A) (f : A → Db V E B) → Commits m → ((a : A) → ReadOnly (f a)) → Commits (m >>= f)
  >>=-Commits_then (ret a) f h k = absurd h
  >>=-Commits_then (throw e) f h k = tt
  >>=-Commits_then (statement g u c) f h k = λ t. ((h t).0, >>=-Commits_then (c t) f (h t).1 k)
  >>=-Commits_then (begin c) f h k = absurd h
  >>=-Commits_then (commit c) f h k = >>=-ReadOnly c f h k

  pub >>=-Atomic :
      (m : Db V E A) (f : A → Db V E B) → ReadOnly m → ((a : A) → Atomic (f a)) → Atomic (m >>= f)
  >>=-Atomic (ret a) f h k = k a
  >>=-Atomic (throw e) f h k = tt
  >>=-Atomic (statement g u c) f h k = (h.0, λ t. >>=-Atomic (c t) f (h.1 t) k)
  >>=-Atomic (begin c) f h k = absurd h
  >>=-Atomic (commit c) f h k = absurd h

module _ {V E A : Type 0} where
  pub if-ReadOnly :
      (b : Bool) (m n : Db V E A) → ReadOnly m → ReadOnly n → ReadOnly (if b then m else n)
  if-ReadOnly true m n h k = h
  if-ReadOnly false m n h k = k

module _ {V A : Type 0} where
  pub from_sql-ReadOnly : (m : Db V SqlError A) → ReadOnly m → ReadOnly (from_sql m)
  from_sql-ReadOnly (ret a) h = tt
  from_sql-ReadOnly (throw e) h = tt
  from_sql-ReadOnly (statement g u c) h = (h.0, λ t. from_sql-ReadOnly (c t) (h.1 t))
  from_sql-ReadOnly (begin c) h = absurd h
  from_sql-ReadOnly (commit c) h = absurd h

module _ {V A : Type 0} where
  pub from_sql-Commits : (m : Db V SqlError A) → Commits m → Commits (from_sql m)
  from_sql-Commits (ret a) h = absurd h
  from_sql-Commits (throw e) h = tt
  from_sql-Commits (statement g u c) h = λ t. ((h t).0, from_sql-Commits (c t) (h t).1)
  from_sql-Commits (begin c) h = absurd h
  from_sql-Commits (commit c) h = from_sql-ReadOnly c h

  pub from_sql-Atomic : (m : Db V SqlError A) → Atomic m → Atomic (from_sql m)
  from_sql-Atomic (ret a) h = tt
  from_sql-Atomic (throw e) h = tt
  from_sql-Atomic (statement g u c) h = (h.0, λ t. from_sql-Atomic (c t) (h.1 t))
  from_sql-Atomic (begin c) h = from_sql-Commits c h
  from_sql-Atomic (commit c) h = absurd h

module _ {V E A : Type 0} where
  pub run-ReadOnly : (m : Db V E A) (t : Tables V) → ReadOnly m → (run m (idle t)).1 ≡ idle t
  unfolding run
  run-ReadOnly (ret a) t h = refl
  run-ReadOnly (throw e) t h = refl
  run-ReadOnly (statement g u k) t h = elim (Option-cases (g t)) [
    | inl passes ↦ rw (passes, run, h.0 t) (run-ReadOnly (k t) t (h.1 t))
    | inr (e, refused) ↦ rw (refused, run)
  ]
  run-ReadOnly (begin k) t h = absurd h
  run-ReadOnly (commit k) t h = absurd h

-- A session with an open transaction.
abbrev pub opened : {V : Type 0} → Tables V → Tables V → Session V
opened before t = record { tables = t; saved = some before }

-- The tables that are left are those before, but for the sequence, or the ones stated.
abbrev pub LeavesOr : {V : Type 0} → Tables V → Tables V → Tables V → Type 0
LeavesOr before left stated =
    ((left ≡ rolled_back before left) × (before.transactions_id_seq ≤ left.transactions_id_seq))
    ⊎ (left ≡ stated)

pub Fate-cases : (f : Fate) → (f ≡ answered) ⊎ ((f ≡ lost) ⊎ (f ≡ reply_lost))
Fate-cases answered = inl refl
Fate-cases lost = inr (inl refl)
Fate-cases reply_lost = inr (inr refl)

module _ {V E A : Type 0} (down : E) where
  pub run_under-ReadOnly :
      (m : Db V E A) (fs : List Fate) (t : Tables V)
      → ReadOnly m
      → (run_under down m fs (idle t)).1 ≡ idle t
  unfolding run_under
  run_under-ReadOnly (ret a) fs t h = refl
  run_under-ReadOnly (throw e) fs t h = refl
  run_under-ReadOnly (statement g u k) fs t h =
      ground (arith, h.0 t, run_under-ReadOnly (k t) (later fs) t (h.1 t))
  run_under-ReadOnly (begin k) fs t h = absurd h
  run_under-ReadOnly (commit k) fs t h = absurd h

  run_under-Commits :
      (m : Db V E A) (fs : List Fate) (before t : Tables V)
      → before.transactions_id_seq ≤ t.transactions_id_seq
      → Commits m
      → LeavesOr before
          (run_under down m fs (opened before t)).1.tables
          (run m (opened before t)).1.tables
  unfolding run_under run
  run_under-Commits (ret a) fs before t q h = absurd h
  run_under-Commits (throw e) fs before t q h = inl (refl, q)
  run_under-Commits (statement g u k) fs before t q h = elim (Fate-cases (next fs)) [
    | inl sent ↦ elim (Option-cases (g t)) [
      | inl passes ↦
          rw (sent, passes, run_under, run)
            (run_under-Commits (k t) (later fs) before (u t) (le_trans q (h t).0) (h t).1)
      | inr (e, refused) ↦ rw (sent, refused, run_under, run) (inl (refl, q))
    ]
    | inr (inl gone) ↦ rw (gone, run_under) (inl (refl, q))
    | inr (inr unheard) ↦ elim (Option-cases (g t)) [
      | inl passes ↦ rw (unheard, passes, run_under, carried_out) (inl (refl, le_trans q (h t).0))
      | inr (e, refused) ↦ rw (unheard, refused, run_under, carried_out) (inl (refl, q))
    ]
  ]
  run_under-Commits (begin k) fs before t q h = absurd h
  run_under-Commits (commit k) fs before t q h = elim (Fate-cases (next fs)) [
    | inl sent ↦
        rw (sent, run_under, run_under-ReadOnly k (later fs) t h, run-ReadOnly k t h) (inr refl)
    | inr (inl gone) ↦ rw (gone, run_under) (inl (refl, q))
    | inr (inr unheard) ↦ rw (unheard, run_under, run-ReadOnly k t h) (inr refl)
  ]

  -- Whatever becomes of its messages, a program that writes in one transaction leaves the tables as
  -- they were, but for ids that the sequence gave out, or as a run that loses no message does.
  pub run_under-Atomic :
      (m : Db V E A) (fs : List Fate) (t : Tables V)
      → Atomic m
      → LeavesOr t (run_under down m fs (idle t)).1.tables (run m (idle t)).1.tables
  unfolding run_under run
  run_under-Atomic (ret a) fs t h = inl (refl, le_refl _)
  run_under-Atomic (throw e) fs t h = inl (refl, le_refl _)
  run_under-Atomic (statement g u k) fs t h = elim (Fate-cases (next fs)) [
    | inl sent ↦ elim (Option-cases (g t)) [
      | inl passes ↦
          rw (sent, passes, run_under, run, h.0 t) (run_under-Atomic (k t) (later fs) t (h.1 t))
      | inr (e, refused) ↦ rw (sent, refused, run_under, run) (inl (refl, le_refl _))
    ]
    | inr (inl gone) ↦ rw (gone, run_under) (inl (refl, le_refl _))
    | inr (inr unheard) ↦ elim (Option-cases (g t)) [
      | inl passes ↦ rw (unheard, passes, run_under, carried_out, h.0 t) (inl (refl, le_refl _))
      | inr (e, refused) ↦ rw (unheard, refused, run_under, carried_out) (inl (refl, le_refl _))
    ]
  ]
  run_under-Atomic (begin k) fs t h = elim (Fate-cases (next fs)) [
    | inl sent ↦ rw (sent, run_under) (run_under-Commits k (later fs) t t (le_refl _) h)
    | inr (inl gone) ↦ rw (gone, run_under) (inl (refl, le_refl _))
    | inr (inr unheard) ↦ rw (unheard, run_under) (inl (refl, le_refl _))
  ]
  run_under-Atomic (commit k) fs t h = absurd h

  -- A result is the result of a run that loses no message, and so are the tables.
  pub run_under-eq-run :
      (m : Db V E A) (fs : List Fate) (s : Session V) (a : A)
      → (run_under down m fs s).0 ≡ ok a
      → run_under down m fs s ≡ run m s
  unfolding run_under run
  run_under-eq-run (ret b) fs s a h = refl
  run_under-eq-run (throw e) fs s a h = refl
  run_under-eq-run (statement g u k) fs s a h =
      ground (arith, run_under-eq-run (k s.tables) (later fs) (record s { tables = u s.tables }) a)
  run_under-eq-run (begin k) fs s a h =
      ground (arith, run_under-eq-run k (later fs) (record s { saved = some s.tables }) a)
  run_under-eq-run (commit k) fs s a h =
      ground (arith, run_under-eq-run k (later fs) (record s { saved = none }) a)

abbrev pub RolledBack : {V : Type 0} → Tables V → Session V → Type 0
RolledBack before s =
    (s ≡ idle (rolled_back before s.tables))
    × (before.transactions_id_seq ≤ s.tables.transactions_id_seq)

-- A statement that is refused inside a transaction undoes it.
pub run-Plain_refused :
    {V E A : Type 0} (m : Db V E A) (before t : Tables V) {e : E} {s : Session V}
    → Plain m
    → before.transactions_id_seq ≤ t.transactions_id_seq
    → run m (opened before t) ≡ (err e, s)
    → RolledBack before s
unfolding run
run-Plain_refused (ret a) before t h q r = cc
run-Plain_refused (throw e) before t h q r = subst (RolledBack before) (ap (λ x. x.1) r) (refl, q)
run-Plain_refused (statement g u k) before t h q r = elim (Option-cases (g t)) [
  | inl passes ↦
      run-Plain_refused (k t) before (u t) (h t).1 (le_trans q (h t).0) (rw (passes, run) at r)
  | inr (e, refused) ↦ subst (RolledBack before) (ap (λ x. x.1) (rw (refused, run) at r)) (refl, q)
]
run-Plain_refused (begin k) before t h q r = absurd h
run-Plain_refused (commit k) before t h q r = absurd h
