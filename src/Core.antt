-- ===== src/Core.antt =====
-- rustend-core: the types that the client and the server share.
pub mod Ids
pub mod Outcome
pub mod Lineage
pub mod Content
pub mod Revision
pub mod Filter
pub mod Protocol
pub mod Text
pub mod Json
