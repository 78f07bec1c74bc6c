-- ===== src/Client/Tests/Whole.antt =====
-- The theorem on a whole synchronisation, with a client that has something to push and something to pull.
use rustend.Prelude.{ℕ, none, some, [], ◌∷◌}
use rustend.Core.Revision.{Revision}
use rustend.Server.Tables.{Tables}
use rustend.Server.Auth.{AuthInfo}
use rustend.Server.Tests.{small}
use rustend.Client.Store.{Local, from_revision, pending}
use rustend.Client.Tests.{first}

-- The small tables, with a second client.
abbrev shared : Tables ℕ
shared = record small {
  clients =
      record { id = 1; registered_at = 0; user_id = 9 }
      ∷ record { id = 2; registered_at = 0; user_id = 9 }
      ∷ [];
}

abbrev made_offline : Revision ℕ
made_offline = record first { id = 50; object_id = 6; created_by = 2 }

-- The second client's store, before its first synchronisation.
abbrev unsynced : Local ℕ
unsynced = record {
  revisions = from_revision made_offline pending ∷ [];
  object_heads = [];
  files = [];
  sync_state = record { client_id = some 2; user_id = some 9; last_server_txn_id = none };
}

abbrev second_client : AuthInfo
second_client = record { client_id = 2; user_id = 9; roles = [] }
