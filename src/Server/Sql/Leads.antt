-- ===== src/Server/Sql/Leads.antt =====
-- Programs that only read, between the steps of other requests: what holds at their ends.
use mathlib.Core.Path.{subst}
use rustend.Prelude.{◌≡◌, sym}
use rustend.Server.Error.{SqlError, ServerError}
use rustend.Server.Tables.{Tables}
use rustend.Server.Sql.{Db, ret, throw, statement, begin, commit, ◌>>=◌, from_sql}
use rustend.Server.Sql.Interleave.{Grown, Grown-refl, Grown-trans, Kept, Safe}

-- Each statement reads tables that have grown, and this holds of the last ones and the result.
abbrev pub Leads : {V E A : Type 0} → (Tables V → A → Type 0) → Db V E A → Tables V → Type 0
Leads Q (ret a) t = Q t a
Leads Q (throw e) t = Unit
Leads Q (statement g u k) t = (t' : Tables _) → Grown t t' → (u t' ≡ t') × Leads Q (k t') t'
Leads Q (begin k) t = ⊥
Leads Q (commit k) t = ⊥

-- What holds of tables still holds when they have grown.
abbrev pub Stays : {V : Type 0} → (Tables V → Type 0) → Type 0
Stays P = (t t' : Tables _) → Grown t t' → P t → P t'

module _ {V E A : Type 0} where
  pub Leads-mono :
      (m : Db V E A) (P Q : Tables V → A → Type 0) (t : Tables V)
      → ((t' : Tables V) (a : A) → P t' a → Q t' a)
      → Leads P m t
      → Leads Q m t
  Leads-mono (ret a) P Q t f h = f t a h
  Leads-mono (throw e) P Q t f h = tt
  Leads-mono (statement g u k) P Q t f h =
      λ t' g'. let read = h t' g' in (read.0, Leads-mono (k t') P Q t' f read.1)
  Leads-mono (begin k) P Q t f h = h
  Leads-mono (commit k) P Q t f h = h

module _ {V E A B : Type 0} where
  pub >>=-Leads :
      (m : Db V E A) (f : A → Db V E B) (P : Tables V → A → Type 0) (Q : Tables V → B → Type 0)
      (t : Tables V)
      → Leads P m t
      → ((a : A) (t' : Tables V) → Grown t t' → P t' a → Leads Q (f a) t')
      → Leads Q (m >>= f) t
  >>=-Leads (ret a) f P Q t h k = k a t (Grown-refl t) h
  >>=-Leads (throw e) f P Q t h k = tt
  >>=-Leads (statement g u c) f P Q t h k = λ t' g'.
      let read = h t' g' in
      (
        read.0,
        >>=-Leads (c t') f P Q t' read.1 (λ a t'' g'' p. k a t'' (Grown-trans t t' t'' g' g'') p),
      )
  >>=-Leads (begin c) f P Q t h k = absurd h
  >>=-Leads (commit c) f P Q t h k = absurd h

module _ {V A B : Type 0} (down : ServerError) where
  -- A program that reads before one that is safe where the reading ends.
  pub Leads-Safe :
      (m : Db V SqlError A) (f : A → Db V SqlError B) (P : Tables V → A → Type 0) (t : Tables V)
      → Leads P m t
      → ((a : A) (t' : Tables V) → Grown t t' → P t' a → Safe down (from_sql (f a)) t')
      → Safe down (from_sql (m >>= f)) t
  Leads-Safe (ret a) f P t h k = k a t (Grown-refl t) h
  Leads-Safe (throw e) f P t h k = tt
  Leads-Safe (statement g u c) f P t h k = λ t' g' v passes.
      let read = h t' g' in
      let rest : Safe down (from_sql (c t' >>= f)) t' =
        Leads-Safe (c t') f P t' read.1 (λ a t'' g'' p. k a t'' (Grown-trans t t' t'' g' g'') p) in
      subst (λ x. Kept t' x × Safe down (from_sql (c t' >>= f)) x) (sym read.0)
        ((v, Grown-refl t'), rest)
  Leads-Safe (begin c) f P t h k = absurd h
  Leads-Safe (commit c) f P t h k = absurd h
