-- ===== src/Server.antt =====
-- The crate `rustend-server`: the tables behind it, the queries, the handlers and the middleware.
pub mod Error
pub mod Tables
pub mod Sql
pub mod Db
pub mod Auth
pub mod Handlers
pub mod Tests
