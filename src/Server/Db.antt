-- ===== src/Server/Db.antt =====
-- rustend-server/src/db: the queries, a module for each file.
pub mod Clients
pub mod Revisions
pub mod ObjectHeads
pub mod Transactions
pub mod Files
pub mod Push
pub mod Pull
