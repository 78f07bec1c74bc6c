-- ===== src/Server/Db/Clients.antt =====
-- rustend-server/src/db/clients.rs
pub mod Statements
use rustend.Prelude.{◌==◌, if◌then◌else◌, List, [], ◌∷◌, none}
use rustend.Core.Ids.{ClientId, UserId, Instant}
use rustend.Server.Error.{SqlError}
use rustend.Server.Tables.{ClientRow}
use rustend.Server.Sql.{Db, execute}

-- `INSERT … ON CONFLICT (id) DO UPDATE SET user_id = EXCLUDED.user_id
-- WHERE clients.user_id IS DISTINCT FROM EXCLUDED.user_id`, by the row in conflict.
pub upsert_row : ClientRow → List ClientRow → List ClientRow
upsert_row new [] = new ∷ []
upsert_row new (row ∷ rows) =
    if new.id == row.id
    then (if row.user_id == new.user_id then row else record row { user_id = new.user_id }) ∷ rows
    else row ∷ upsert_row new rows

-- `now` is `Utc::now()`.
unfoldable pub upsert_client : {V : Type 0} → Instant → ClientId → UserId → Db V SqlError (Unit {0})
unfolding upsert_row
upsert_client now id user_id =
    execute (λ _. none)
      λ t. record t {
        clients = upsert_row (record { id = id; registered_at = now; user_id = user_id }) t.clients;
      }
