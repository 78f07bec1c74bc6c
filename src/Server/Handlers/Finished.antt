-- ===== src/Server/Handlers/Finished.antt =====
-- handlers/push.rs behind the middleware: a push is over after a number of steps that its request tells.
use rustend.Core.Ids.{Instant}
use rustend.Server.Error.{ServerError}
use rustend.Server.Tables.{Tables}
use rustend.Server.Sql.{Db, ◌>>◌, from_sql}
use rustend.Server.Sql.Finishes.{Finishes}
use rustend.Server.Handlers.{push_changes}
use rustend.Server.Db.Clients.{upsert_client}
use rustend.Core.Protocol.{PushRequest, PushResponse}
use rustend.Server.Auth.{AuthInfo}

-- A push by an authenticated client, with the times of its registration and of its transaction.
pub record Sent (V : Type 0) : Type 0 where
  pub info : AuthInfo
  pub body : PushRequest V
  pub registered_at : Instant
  pub written_at : Instant

module _ {V : Type 0} where
  -- The middleware registers the client, and the handler pushes.
  abbrev pub statements_of : Sent V → Db V ServerError PushResponse
  statements_of s =
      from_sql (upsert_client s.registered_at s.info.client_id s.info.user_id)
      >> push_changes s.written_at s.info s.body
