-- ===== src/Client/Error.antt =====
-- rustend-client/src/error.rs: the client's errors, without their texts.
use rustend.Core.Protocol.{RejectionReason}

pub data ClientError : Type 0 where
  indexed_db network unauthenticated serialisation : ClientError
  stale_parent conflict_exists not_cached : ClientError
  rejected : RejectionReason → ClientError
