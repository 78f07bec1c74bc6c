-- ===== src/Server/Sql/Safe.antt =====
-- Requests that are safe between the steps of others.
use mathlib.Core.Path.{subst}
use rustend.Prelude.{none, some, List, ◌≡◌, refl, sym, arith}
use rustend.Server.Tables.{Tables}
use rustend.Server.Sql.{
  Db, ret, throw, statement, begin, commit, ◌>>=◌, Session, Fate, later, run_under,
}
use rustend.Server.Sql.Shape.{ReadOnly, opened}
use rustend.Server.Sql.Interleave.{Grown-refl, Kept, Safe}

module _ {V E A B : Type 0} (down : E) (f : A → B) where
  -- What is made of a result leaves the tables alone.
  run_under-map :
      (m : Db V E A) (fs : List Fate) (s : Session V)
      → (run_under down (m >>= λ a. ret (f a)) fs s).1 ≡ (run_under down m fs s).1
  unfolding run_under
  run_under-map (ret a) fs s = refl
  run_under-map (throw e) fs s = refl
  run_under-map (statement g u k) fs s =
      ground (arith, run_under-map (k s.tables) (later fs) (record s { tables = u s.tables }))
  run_under-map (begin k) fs s =
      ground (arith, run_under-map k (later fs) (record s { saved = some s.tables }))
  run_under-map (commit k) fs s =
      ground (arith, run_under-map k (later fs) (record s { saved = none }))

  pub Safe-map : (m : Db V E A) (t : Tables V) → Safe down m t → Safe down (m >>= λ a. ret (f a)) t
  Safe-map (ret a) t h = tt
  Safe-map (throw e) t h = tt
  Safe-map (statement g u k) t h =
      λ t' g' v passes. let one = h t' g' v passes in (one.0, Safe-map (k t') (u t') one.1)
  Safe-map (begin k) t h = λ t' g' v fs.
      subst (λ (s : Session V). Kept t' s.tables) (sym (run_under-map k fs (opened t' t')))
        (h t' g' v fs)
  Safe-map (commit k) t h = h

module _ {V E A : Type 0} (down : E) where
  pub ReadOnly-Safe : (m : Db V E A) (t : Tables V) → ReadOnly m → Safe down m t
  ReadOnly-Safe (ret a) t h = tt
  ReadOnly-Safe (throw e) t h = tt
  ReadOnly-Safe (statement g u k) t h = λ t' g' v passes.
      subst (λ x. Kept t' x × Safe down (k t') x) (sym (h.0 t'))
        ((v, Grown-refl t'), ReadOnly-Safe (k t') t' (h.1 t'))
  ReadOnly-Safe (begin k) t h = absurd h
  ReadOnly-Safe (commit k) t h = absurd h
