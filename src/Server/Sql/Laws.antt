-- ===== src/Server/Sql/Laws.antt =====
-- Running a sequence of two programs, and one whose errors are wrapped by `?`.
use rustend.Prelude.{[], ◌≡◌, refl, none, some, Option-cases, inl, inr}
use rustend.Server.Error.{SqlError, ServerError, database}
use rustend.Server.Sql.{
  Result, ok, err, Db, ret, throw, statement, begin, commit, ◌>>=◌, from_sql, Session, run,
  run_under,
}

abbrev pub chain :
    {V E A B : Type 0}
    → Result E A × Session V
    → (A → Session V → Result E B × Session V)
    → Result E B × Session V
chain (ok a, s) f = f a s
chain (err e, s) f = (err e, s)

-- What a run that gives a result leaves.
abbrev pub Then : {V E A : Type 0} → Result E A × Session V → (Session V → Type 0) → Type 0
Then (ok a, s) P = P s
Then (err e, s) P = Unit

pub run->>= :
    {V E A B : Type 0} (m : Db V E A) (f : A → Db V E B) (s : Session V)
    → run (m >>= f) s ≡ chain (run m s) (λ a s'. run (f a) s')
unfolding run
run->>= (ret a) f s = refl
run->>= (throw e) f s = refl
run->>= (statement g u k) f s = elim (Option-cases (g s.tables)) [
  | inl passes ↦ rw passes (run->>= (k s.tables) f (record s { tables = u s.tables }))
  | inr (e, refused) ↦ rw refused
]
run->>= (begin k) f s = run->>= k f (record s { saved = some s.tables })
run->>= (commit k) f s = run->>= k f (record s { saved = none })

abbrev pub wrap : {V A : Type 0} → Result SqlError A × Session V → Result ServerError A × Session V
wrap (ok a, s) = (ok a, s)
wrap (err e, s) = (err (database e), s)

pub run-from_sql :
    {V A : Type 0} (m : Db V SqlError A) (s : Session V) → run (from_sql m) s ≡ wrap (run m s)
unfolding run
run-from_sql (ret a) s = refl
run-from_sql (throw e) s = refl
run-from_sql (statement g u k) s = elim (Option-cases (g s.tables)) [
  | inl passes ↦ rw (passes, run) (run-from_sql (k s.tables) (record s { tables = u s.tables }))
  | inr (e, refused) ↦ rw (refused, run)
]
run-from_sql (begin k) s = run-from_sql k (record s { saved = some s.tables })
run-from_sql (commit k) s = run-from_sql k (record s { saved = none })

module _ {V E A : Type 0} where
  pub Then-mono :
      (r : Result E A × Session V) (P Q : Session V → Type 0)
      → ((s : Session V) → P s → Q s)
      → Then r P
      → Then r Q
  Then-mono (ok a, s) P Q f h = f s h
  Then-mono (err e, s) P Q f h = tt

  Then-chain :
      {B : Type 0} (r : Result E A × Session V) (f : A → Session V → Result E B × Session V)
      (P Q : Session V → Type 0)
      → Then r P
      → ((a : A) (s : Session V) → P s → Then (f a s) Q)
      → Then (chain r f) Q
  Then-chain (ok a, s) f P Q h k = k a s h
  Then-chain (err e, s) f P Q h k = tt

  pub Then->>= :
      {B : Type 0} (m : Db V E A) (f : A → Db V E B) (s : Session V) (P Q : Session V → Type 0)
      → Then (run m s) P
      → ((a : A) (s' : Session V) → P s' → Then (run (f a) s') Q)
      → Then (run (m >>= f) s) Q
  Then->>= m f s P Q h k = rw (run->>= m f s) (Then-chain (run m s) _ P Q h k)

-- Where no message is lost, a program runs as it does.
pub run_under-none_lost :
    {V E A : Type 0} (down : E) (m : Db V E A) (s : Session V) → run_under down m [] s ≡ run m s
unfolding run_under run
run_under-none_lost down (ret a) s = refl
run_under-none_lost down (throw e) s = refl
run_under-none_lost down (statement g u k) s = elim (Option-cases (g s.tables)) [
  | inl passes ↦ rw passes (run_under-none_lost down (k s.tables) _)
  | inr (e, refused) ↦ rw refused refl
]
run_under-none_lost down (begin k) s = run_under-none_lost down k _
run_under-none_lost down (commit k) s = run_under-none_lost down k _
