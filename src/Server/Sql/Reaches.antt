-- ===== src/Server/Sql/Reaches.antt =====
-- Programs of statements from given tables on: what holds where each statement has passed its constraints.
use native.Mathlib.Nat.{le_trans}
use rustend.Prelude.{◌≤◌, List, Option, none, some, Option-cases, inl, inr, ◌⊎◌, ◌≡◌, refl}
use rustend.Server.Tables.{Tables}
use rustend.Server.Error.{SqlError}
use rustend.Server.Sql.{
  Db, ret, throw, statement, begin, commit, ◌>>=◌, from_sql, database_of, run_under, Fate, next,
  later, rolled_back, carried_out,
}
use rustend.Server.Sql.Shape.{
  ReadOnly, from_sql-ReadOnly, >>=-ReadOnly, run_under-ReadOnly, opened, Fate-cases,
}

-- Statements alone, after which this holds of the result and the tables. The sequence only moves
-- forward.
abbrev pub Reaches : {V E A : Type 0} → (A → Tables V → Type 0) → Db V E A → Tables V → Type 0
Reaches Q (ret a) t = Q a t
Reaches Q (throw e) t = Unit
Reaches Q (statement g u k) t =
    g t ≡ none → (t.transactions_id_seq ≤ (u t).transactions_id_seq) × Reaches Q (k t) (u t)
Reaches Q (begin k) t = ⊥
Reaches Q (commit k) t = ⊥

-- The rest of a transaction, which commits only tables of which this holds, and then only reads.
abbrev pub CommitsTo : {V E A : Type 0} → (Tables V → Type 0) → Db V E A → Tables V → Type 0
CommitsTo P (ret a) t = ⊥
CommitsTo P (throw e) t = Unit
CommitsTo P (statement g u k) t =
    g t ≡ none → (t.transactions_id_seq ≤ (u t).transactions_id_seq) × CommitsTo P (k t) (u t)
CommitsTo P (begin k) t = ⊥
CommitsTo P (commit k) t = P t × ReadOnly k

module _ {V E A : Type 0} where
  pub Reaches-mono :
      (m : Db V E A) (Q R : A → Tables V → Type 0) (t : Tables V)
      → ((a : A) (t' : Tables V) → Q a t' → R a t')
      → Reaches Q m t
      → Reaches R m t
  Reaches-mono (ret a) Q R t f h = f a t h
  Reaches-mono (throw e) Q R t f h = tt
  Reaches-mono (statement g u k) Q R t f h = λ e. ((h e).0, Reaches-mono (k t) Q R (u t) f (h e).1)
  Reaches-mono (begin k) Q R t f h = h
  Reaches-mono (commit k) Q R t f h = h

module _ {V E A B : Type 0} where
  pub >>=-Reaches :
      (m : Db V E A) (f : A → Db V E B) (Q : B → Tables V → Type 0) (t : Tables V)
      → Reaches (λ a t'. Reaches Q (f a) t') m t
      → Reaches Q (m >>= f) t
  >>=-Reaches (ret a) f Q t h = h
  >>=-Reaches (throw e) f Q t h = tt
  >>=-Reaches (statement g u k) f Q t h = λ e. ((h e).0, >>=-Reaches (k t) f Q (u t) (h e).1)
  >>=-Reaches (begin k) f Q t h = absurd h
  >>=-Reaches (commit k) f Q t h = absurd h

  pub >>=-CommitsTo :
      (m : Db V E A) (f : A → Db V E B) (P : Tables V → Type 0) (t : Tables V)
      → Reaches (λ a t'. CommitsTo P (f a) t') m t
      → CommitsTo P (m >>= f) t
  >>=-CommitsTo (ret a) f P t h = h
  >>=-CommitsTo (throw e) f P t h = tt
  >>=-CommitsTo (statement g u k) f P t h = λ e. ((h e).0, >>=-CommitsTo (k t) f P (u t) (h e).1)
  >>=-CommitsTo (begin k) f P t h = absurd h
  >>=-CommitsTo (commit k) f P t h = absurd h

  pub >>=-CommitsTo_then :
      (m : Db V E A) (f : A → Db V E B) (P : Tables V → Type 0) (t : Tables V)
      → CommitsTo P m t
      → ((a : A) → ReadOnly (f a))
      → CommitsTo P (m >>= f) t
  >>=-CommitsTo_then (ret a) f P t h k = absurd h
  >>=-CommitsTo_then (throw e) f P t h k = tt
  >>=-CommitsTo_then (statement g u c) f P t h k =
      λ e. ((h e).0, >>=-CommitsTo_then (c t) f P (u t) (h e).1 k)
  >>=-CommitsTo_then (begin c) f P t h k = absurd h
  >>=-CommitsTo_then (commit c) f P t h k = (h.0, >>=-ReadOnly c f h.1 k)

-- The error of a statement is wrapped, and that there is none is not.
pub database_of-none : (o : Option SqlError) → database_of o ≡ none → o ≡ none
database_of-none none h = refl
database_of-none (some e) h = cc

module _ {V A : Type 0} where
  pub from_sql-CommitsTo :
      (m : Db V SqlError A) (P : Tables V → Type 0) (t : Tables V)
      → CommitsTo P m t
      → CommitsTo P (from_sql m) t
  from_sql-CommitsTo (ret a) P t h = absurd h
  from_sql-CommitsTo (throw e) P t h = tt
  from_sql-CommitsTo (statement g u c) P t h = λ e.
      let passed = h (database_of-none (g t) e) in
      (passed.0, from_sql-CommitsTo (c t) P (u t) passed.1)
  from_sql-CommitsTo (begin c) P t h = absurd h
  from_sql-CommitsTo (commit c) P t h = (h.0, from_sql-ReadOnly c h.1)

module _ {V E A : Type 0} (down : E) (P : Tables V → Type 0) where
  -- Whatever becomes of its messages, a transaction leaves the tables as they were, but for the
  -- sequence, or tables of which this holds.
  pub run_under-CommitsTo :
      (m : Db V E A) (fs : List Fate) (before t : Tables V)
      → before.transactions_id_seq ≤ t.transactions_id_seq
      → CommitsTo P m t
      → let left = (run_under down m fs (opened before t)).1.tables in
        ((left ≡ rolled_back before left) × (before.transactions_id_seq ≤ left.transactions_id_seq))
        ⊎ P left
  unfolding run_under
  run_under-CommitsTo (ret a) fs before t q h = absurd h
  run_under-CommitsTo (throw e) fs before t q h = inl (refl, q)
  run_under-CommitsTo (statement g u k) fs before t q h = elim (Fate-cases (next fs)) [
    | inl sent ↦ elim (Option-cases (g t)) [
      | inl passes ↦
          rw (sent, passes, run_under)
            (run_under-CommitsTo (k t) (later fs) before (u t) (le_trans q (h passes).0)
              (h passes).1)
      | inr (e, refused) ↦ rw (sent, refused, run_under) (inl (refl, q))
    ]
    | inr (inl gone) ↦ rw (gone, run_under) (inl (refl, q))
    | inr (inr unheard) ↦ elim (Option-cases (g t)) [
      | inl passes ↦
          rw (unheard, passes, run_under, carried_out) (inl (refl, le_trans q (h passes).0))
      | inr (e, refused) ↦ rw (unheard, refused, run_under, carried_out) (inl (refl, q))
    ]
  ]
  run_under-CommitsTo (begin k) fs before t q h = absurd h
  run_under-CommitsTo (commit k) fs before t q h = elim (Fate-cases (next fs)) [
    | inl sent ↦ rw (sent, run_under, run_under-ReadOnly down k (later fs) t h.1) (inr h.0)
    | inr (inl gone) ↦ rw (gone, run_under) (inl (refl, q))
    | inr (inr unheard) ↦ rw (unheard, run_under) (inr h.0)
  ]
