-- ===== src/Server/Sql.antt =====
-- How the server's code runs statements: a program of SQL statements on the tables, with the `?`
-- operator as its bind, and two ways to run it: `run`, where every statement reaches the database,
-- and `run_under`, where each may be lost on the way there or on the way back.
use rustend.Prelude.{List, [], ◌∷◌, Option, none, some}
use rustend.Server.Error.{SqlError, ServerError, database}
use rustend.Server.Tables.{Tables}
pub use rustend.Core.Outcome.{Result, ok, err}
pub mod Laws
pub mod Shape
pub mod Reaches
pub mod Interleave
pub mod Leads
pub mod Finishes
pub mod Safe

-- A statement is refused by a constraint or changes the tables, and the program goes on with what
-- the statement read. `begin` and `commit` are those of `pool.begin()` and `tx.commit()`.
pub data Db (V E A : Type 0) : Type 0 where
  ret : A → Db V E A
  throw : E → Db V E A
  statement : (Tables V → Option E) → (Tables V → Tables V) → (Tables V → Db V E A) → Db V E A
  begin : Db V E A → Db V E A
  commit : Db V E A → Db V E A

infixl 5 ◌>>=◌ ◌>>◌
abbrev pub ◌>>=◌ : {V E A B : Type 0} → Db V E A → (A → Db V E B) → Db V E B
ret a >>= f = f a
throw e >>= f = throw e
statement g u k >>= f = statement g u (λ t. k t >>= f)
begin k >>= f = begin (k >>= f)
commit k >>= f = commit (k >>= f)

abbrev pub ◌>>◌ : {V E B : Type 0} → Db V E (Unit {0}) → Db V E B → Db V E B
m >> k = m >>= λ _. k

-- `fetch_all`, `fetch_one` and `fetch_optional` of a `SELECT`.
abbrev pub query : {V E A : Type 0} → (Tables V → A) → Db V E A
query f = statement (λ _. none) (λ t. t) (λ t. ret (f t))

-- `execute` of an `INSERT`, `UPDATE` or `DELETE`: the constraint that it breaks, and its effect.
abbrev pub execute :
    {V E : Type 0} → (Tables V → Option E) → (Tables V → Tables V) → Db V E (Unit {0})
execute broken effect = statement broken effect (λ _. ret tt)

abbrev pub database_of : Option SqlError → Option ServerError
database_of none = none
database_of (some e) = some (database e)

-- `?` on a `sqlx::Error` where the function returns a `ServerError`: `#[from]`.
abbrev pub from_sql : {V A : Type 0} → Db V SqlError A → Db V ServerError A
from_sql (ret a) = ret a
from_sql (throw e) = throw (database e)
from_sql (statement g u k) = statement (λ t. database_of (g t)) u (λ t. from_sql (k t))
from_sql (begin k) = begin (from_sql k)
from_sql (commit k) = commit (from_sql k)

-- The tables, and those to go back to while a transaction is open.
pub record Session (V : Type 0) : Type 0 where
  pub tables : Tables V
  pub saved : Option (Tables V)

abbrev pub idle : {V : Type 0} → Tables V → Session V
idle t = record { tables = t; saved = none }

-- What a rolled back transaction leaves: a sequence keeps the ids that it has given out.
abbrev pub rolled_back : {V : Type 0} → Tables V → Tables V → Tables V
rolled_back before now = record before { transactions_id_seq = now.transactions_id_seq }

abbrev restore : {V : Type 0} → Option (Tables V) → Tables V → Tables V
restore none now = now
restore (some before) now = rolled_back before now

-- A `Transaction` that is dropped rolls back.
abbrev pub roll_back : {V : Type 0} → Session V → Session V
roll_back s = idle (restore s.saved s.tables)

module _ {V E A : Type 0} where
  unfoldable pub run : Db V E A → Session V → Result E A × Session V
  run (ret a) s = (ok a, s)
  run (throw e) s = (err e, roll_back s)
  run (statement g u k) s = elim (g s.tables) [
    | some e ↦ (err e, roll_back s)
    | none ↦ run (k s.tables) (record s { tables = u s.tables })
  ]
  run (begin k) s = run k (record s { saved = some s.tables })
  run (commit k) s = run k (record s { saved = none })

-- What becomes of a message to the database: it is carried out and answered, it is lost before it
-- arrives, or its answer is lost.
pub data Fate : Type 0 where
  answered lost reply_lost : Fate

abbrev pub next : List Fate → Fate
next [] = answered
next (f ∷ _) = f

abbrev pub later : List Fate → List Fate
later [] = []
later (_ ∷ fs) = fs

-- The session after a statement whose answer is lost.
abbrev pub carried_out :
    {V E : Type 0} → (Tables V → Option E) → (Tables V → Tables V) → Session V → Session V
carried_out g u s = elim (g s.tables) [ some _ ↦ s | none ↦ record s { tables = u s.tables } ]

-- `down` is the error that a broken connection gives.
module _ {V E A : Type 0} (down : E) where
  unfoldable pub run_under : Db V E A → List Fate → Session V → Result E A × Session V
  run_under (ret a) fs s = (ok a, s)
  run_under (throw e) fs s = (err e, roll_back s)
  run_under (statement g u k) fs s = elim (next fs) [
    | lost ↦ (err down, roll_back s)
    | reply_lost ↦ (err down, roll_back (carried_out g u s))
    | answered ↦ elim (g s.tables) [
      | some e ↦ (err e, roll_back s)
      | none ↦ run_under (k s.tables) (later fs) (record s { tables = u s.tables })
    ]
  ]
  run_under (begin k) fs s = elim (next fs) [
    | answered ↦ run_under k (later fs) (record s { saved = some s.tables })
    | _ ↦ (err down, s)
  ]
  run_under (commit k) fs s = elim (next fs) [
    | answered ↦ run_under k (later fs) (record s { saved = none })
    | lost ↦ (err down, roll_back s)
    | reply_lost ↦ (err down, record s { saved = none })
  ]
