-- ===== src/Server/Tests/Concurrent.antt =====
-- The theorems on requests that run at once: two clients follow the same revision of the small tables.
use rustend.Prelude.{none, ℕ, ◌==◌, if◌then◌else◌, List, [], ◌∷◌}
use rustend.Core.Lineage.{update}
use rustend.Core.Content.{active}
use rustend.Core.Revision.{Revision}
use rustend.Server.Error.{database, connection}
use rustend.Server.Tables.Valid.{IsValid}
use rustend.Server.Sql.{Fate, answered, reply_lost}
use rustend.Server.Sql.Interleave.{interleave}
use rustend.Server.Handlers.Finished.{Sent}
use rustend.Core.Ids.{Instant}
use rustend.Server.Auth.{AuthInfo}
use rustend.Server.Handlers.Mixed.{Asked, pushes, pulls, uploads_file, request, requests-IsValid}
use rustend.Server.Tests.Pull.{numbers, in_table_order}
use rustend.Server.Tests.{small, small-IsValid, batch}

abbrev rival : Revision ℕ
rival = record {
  id = 30;
  object_id = 5;
  object_type = [];
  lineage = update 10;
  created_at = 5;
  created_by = 2;
  content = active 9;
}

abbrev of_first : Sent ℕ
of_first = record {
  info = record { client_id = 1; user_id = 9; roles = [] };
  body = record { revisions = batch };
  registered_at = 50;
  written_at = 51;
}

abbrev of_second : Sent ℕ
of_second = record {
  info = record { client_id = 2; user_id = 9; roles = [] };
  body = record { revisions = rival ∷ [] };
  registered_at = 50;
  written_at = 52;
}

abbrev sent : ℕ → Sent ℕ
sent i = if i == 0 then of_first else of_second

-- Both register and judge before either writes, and the second one's commit is not heard of.
abbrev schedule : List (ℕ × List Fate)
schedule =
    (0, [])
    ∷ (1, [])
    ∷ (2, [])
    ∷ (0, [])
    ∷ (3, [])
    ∷ (1, [])
    ∷ (2, [])
    ∷ (3, reply_lost ∷ [])
    ∷ (0, [])
    ∷ (1, answered ∷ answered ∷ answered ∷ answered ∷ answered ∷ answered ∷ reply_lost ∷ [])
    ∷ (0, [])
    ∷ []

-- A third client pulls, and a fourth one uploads a file.
abbrev asked : ℕ → AuthInfo × (Instant × Asked ℕ)
asked i =
    if i == 0
    then (of_first.info, (50, pushes 51 of_first.body))
    else if i == 1
    then (of_second.info, (50, pushes 52 of_second.body))
    else if i == 2
    then (
      record { client_id = 3; user_id = 9; roles = [] },
      (
        50,
        pulls in_table_order
            (record { since = none; object_types = none; created_at = none; filter = none }),
      ),
    )
    else (record { client_id = 4; user_id = 9; roles = [] }, (50, uploads_file 5 (1 ∷ 2 ∷ [])))

requests-IsValid_example :
    IsValid
      (interleave
        (database connection)
        schedule
        (record { tables = small; requests = λ i. request numbers (asked i) })).tables
requests-IsValid_example =
    requests-IsValid numbers (database connection) schedule asked small small-IsValid

-- Nine turns of the first push, between those of the second.
abbrev patient : List (ℕ × List Fate)
patient =
    (0, [])
    ∷ (1, [])
    ∷ (0, [])
    ∷ (0, [])
    ∷ (0, [])
    ∷ (0, [])
    ∷ (1, [])
    ∷ (0, [])
    ∷ (0, [])
    ∷ (0, [])
    ∷ (1, reply_lost ∷ [])
    ∷ (0, [])
    ∷ []
