-- ===== src/Client/Tests/Repository.antt =====
-- The theorems on opening a repository and on its calls, at small inputs.
use rustend.Prelude.{ℕ, none, some, List, [], ◌∷◌, ◌≡◌, refl}
use rustend.Core.Content.{active, deleted}
use rustend.Core.Outcome.{ok}
use rustend.Client.Schema.{IndexSchema, new, with_version, add}
use rustend.Client.Store.Open.{Database, no_stores, on_upgrade_needed, open_database}
use rustend.Client.Repository.Open.{Repository, Server, done, fetch_whoami, open_repository}
use rustend.Client.Repository.Open.Cached.{open_repository-cached}
use rustend.Client.Repository.Sequence.{
  Call, saves, edits, resolves, gets, puts_file, gets_file, deletes_file, perform, perform_maps,
}
use rustend.Client.Repository.Sequence.Refines.{view, files_of, perform-refines-maps}
use rustend.Client.Tests.{local}

-- An index 1 for the path "$.3" of the type 2.
abbrev titled : IndexSchema
titled = add (1 ∷ []) (2 ∷ []) (36 ∷ 46 ∷ 3 ∷ []) (with_version 2 new)

-- Of version 1, with an index that `titled` does not ask for.
abbrev old : Database ℕ
old = record { version = 1; indexes = record { name = 9 ∷ []; key_path = [] } ∷ []; stores = local }

-- The server knows the client as 1, of the user 2.
abbrev online : Server
online = λ url.
    some (record { status = 200; body = some (record { client_id = 1; user_id = 2; roles = [] }) })

abbrev opened_db : Database ℕ
opened_db = record {
  version = 1;
  indexes = [];
  stores = record no_stores {
    sync_state = record { client_id = some 1; user_id = some 2; last_server_txn_id = none };
  };
}

abbrev opened_as : Repository
opened_as = record { client_id = 1; user_id = 2; schema = new }

opened_online : open_repository new online [] none ≡ done (ok opened_as) opened_db
unfolding open_repository open_database on_upgrade_needed fetch_whoami
opened_online = refl

open_repository-cached_example :
    open_repository new (λ _. none) (7 ∷ []) (some opened_db) ≡ done (ok opened_as) opened_db
open_repository-cached_example =
    open_repository-cached new online [] none opened_as opened_db opened_online (7 ∷ [])

abbrev day : List (Call ℕ)
day =
    saves 7 40 3 (1 ∷ []) 8
    ∷ edits 7 41 4 40 deleted
    ∷ edits 5 42 5 10 (active 3)
    ∷ resolves 5 43 6 (10 ∷ 11 ∷ []) (active 4)
    ∷ gets 5
    ∷ puts_file 5 (1 ∷ 2 ∷ [])
    ∷ gets_file 5
    ∷ deletes_file 5
    ∷ gets 7
    ∷ []

perform-refines-maps_example :
    perform 1 (λ (v : ℕ). some v) day local
    ≡ perform_maps (λ (v : ℕ). some v) day (view local) (files_of local)
perform-refines-maps_example = perform-refines-maps 1 (λ (v : ℕ). some v) day local
