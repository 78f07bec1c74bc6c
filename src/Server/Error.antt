-- ===== src/Server/Error.antt =====
-- rustend-server/src/error.rs. A `sqlx::Error` is one of the kinds that the queries can meet.
use rustend.Prelude.{ℕ}
use rustend.Core.Ids.{Text}

pub data SqlError : Type 0 where
  connection unique_violation foreign_key_violation check_violation : SqlError
  sequence_limit protocol : SqlError

pub data ServerError : Type 0 where
  database : SqlError → ServerError
  duplicate_revision : ServerError
  unknown_parent : Text → ServerError
  malformed_data : Text → ServerError
  not_found : ServerError

-- The status of `into_response`.
unfoldable pub status : ServerError → ℕ
status (database e) = 500
status duplicate_revision = 409
status (unknown_parent p) = 422
status (malformed_data m) = 400
status not_found = 404
