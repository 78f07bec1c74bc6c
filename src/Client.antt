-- ===== src/Client.antt =====
-- The crate `rustend-client`: the local store, the repository on it, and the synchronisation.
pub mod Store
pub mod Error
pub mod Schema
pub mod Repository
pub mod Sync
pub mod Tests
