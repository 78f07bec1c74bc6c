-- ===== src/Server/Handlers/Delivery.antt =====
-- handlers/push.rs and handlers/pull.rs together: what one client pushes another one pulls.
use rustend.Prelude.{Option, none, List, ◌≡◌}
use rustend.Core.Ids.{Uuid, TransactionId}
use rustend.Core.Json.{Json}
use rustend.Core.Revision.{Revision}
use rustend.Core.Protocol.{PullRequest, ObjectUpdate}
use rustend.Server.Tables.{Tables}
use rustend.Server.Tables.Valid.{is_leaf}
use rustend.Server.Sql.{ok, idle, run}
use rustend.Server.Auth.{AuthInfo}
use rustend.Server.Db.Transactions.{max_id}
use rustend.Server.Db.Pull.{Planner}
use rustend.Server.Db.Pull.Collected.{Somewhere, Carries}
use rustend.Server.Handlers.{pull_changes}

module _ {V : Type 0} (json : Json V) (planner : Planner) (puller : AuthInfo)
    (since : Option TransactionId) (o : Uuid) where
  -- A request without filters.
  abbrev pub everything : PullRequest V
  everything = record { since = since; object_types = none; created_at = none; filter = none }

  -- A pull of these tables has an update for the object with all its leaves.
  abbrev pub Delivers : Tables V → Type 0
  Delivers t =
      (updates : List (ObjectUpdate V)) × (run (pull_changes json planner puller everything)
          (idle t)
        ≡ (
          ok (record { up_to_transaction = max_id t.transactions; object_updates = updates }),
          idle t,
        ))
      × Somewhere (Carries o (λ r. is_leaf o r t)) updates
