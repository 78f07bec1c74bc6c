-- ===== src/Server/Db/Clients/Statements.antt =====
-- clients.rs: the registration of a client and the tables' other promises.
use rustend.Prelude.{◌==◌, ◌||◌, List, [], ◌∷◌, ◌≡◌, refl, true, arith}
use rustend.Core.Ids.{Uuid, ClientId, UserId, Instant}
use rustend.Server.Tables.{Tables, ClientRow, has_client}
use rustend.Server.Tables.Valid.{IsValid}
use rustend.Server.Sql.Interleave.{Kept}
use rustend.Server.Db.Clients.{upsert_row}

pub has_client-upsert_row :
    (new : ClientRow) (c : Uuid) (rows : List ClientRow)
    → has_client c (upsert_row new rows) ≡ (c == new.id || has_client c rows)
unfolding upsert_row
has_client-upsert_row new c [] = refl
has_client-upsert_row new c (row ∷ rows) = ground (arith, has_client-upsert_row new c rows)

module _ {V : Type 0} where
  abbrev pub with_client : Instant → ClientId → UserId → Tables V → Tables V
  with_client now id user_id t = record t {
    clients = upsert_row (record { id = id; registered_at = now; user_id = user_id }) t.clients;
  }

  pub has_client-with_client :
      (now : Instant) (id : ClientId) (user_id : UserId) (t : Tables V)
      → has_client id (with_client now id user_id t).clients ≡ true
  has_client-with_client now id user_id t = ground (
    arith,
    has_client-upsert_row (record { id = id; registered_at = now; user_id = user_id }) id t.clients,
  )

  pub with_client-IsValid :
      (now : Instant) (id : ClientId) (user_id : UserId) (t : Tables V)
      → IsValid t
      → IsValid (with_client now id user_id t)
  with_client-IsValid now id user_id t v = record {
    parents_stored = v.parents_stored;
    heads_are_leaves = v.heads_are_leaves;
    ids_given = v.ids_given;
    seq_started = v.seq_started;
    transactions_stored = v.transactions_stored;
  }

  pub with_client-Kept :
      (now : Instant) (id : ClientId) (user_id : UserId) (t : Tables V)
      → IsValid t
      → Kept t (with_client now id user_id t)
  with_client-Kept now id user_id t v = (
    with_client-IsValid now id user_id t v,
    record {
      objects = λ r o h. h;
      clients = λ c h. ground (
        arith,
        h,
        has_client-upsert_row (record { id = id; registered_at = now; user_id = user_id }) c
            t.clients,
      );
    },
  )
