-- ===== src/Server/Handlers/Push.antt =====
-- handlers/push.rs behind the middleware of auth.rs.
use rustend.Server.Tables.{Tables}
