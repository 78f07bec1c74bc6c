-- ===== src/Client/Repository/Open.antt =====
-- repository.rs: opening a repository, with the identity that the server or the local store tells.
pub mod Cached
use rustend.Prelude.{
  ℕ, ◌==◌, leb, ltb, if◌then◌else◌, not, Bool, true, false, ◌&&◌, ◌||◌, Option, none, some, List,
  [], ◌∷◌, ◌++◌,
}
use rustend.Core.Ids.{ClientId, UserId, Text}
use rustend.Core.Text.{trim_end}
use rustend.Core.Protocol.{WhoAmIResponse}
use rustend.Core.Outcome.{Result, ok, err}
use rustend.Client.Error.{ClientError, indexed_db, network, unauthenticated}
use rustend.Client.Schema.{IndexSchema}
use rustend.Client.Store.{Local, SyncState, write_sync_state}
use rustend.Client.Store.Open.{Database, Opened, opened, refused, panicked, open_database}

-- What a `Repository` holds beside its database.
pub record Repository : Type 0 where
  pub client_id : ClientId
  pub user_id : UserId
  pub schema : IndexSchema

-- A response, whose body may not be what is expected.
pub record Reply (A : Type 0) : Type 0 where
  pub status : ℕ
  pub body : Option A

-- The server's answers to GET requests; `none` where the request could not be sent.
abbrev pub Server : Type 0
Server = Text → Option (Reply WhoAmIResponse)

abbrev is_ok : ℕ → Bool
is_ok status = leb 200 status && ltb status 300

-- "/whoami".
abbrev whoami_path : Text
whoami_path = 47 ∷ 119 ∷ 104 ∷ 111 ∷ 97 ∷ 109 ∷ 105 ∷ []

abbrev body_of : Option WhoAmIResponse → Result ClientError WhoAmIResponse
body_of none = err network
body_of (some whoami) = ok whoami

abbrev whoami_of : Option (Reply WhoAmIResponse) → Result ClientError WhoAmIResponse
whoami_of none = err network
whoami_of (some resp) = if not (is_ok resp.status) then err unauthenticated else body_of resp.body

unfoldable pub fetch_whoami : Server → Text → Result ClientError WhoAmIResponse
fetch_whoami server server_url = whoami_of (server (trim_end 47 server_url ++ whoami_path))

abbrev pub cached : Option ClientId → Option UserId → Result ClientError (ClientId × UserId)
cached (some client_id) (some user_id) = ok (client_id, user_id)
cached (some client_id) none = err network
cached none _ = err network

abbrev is_some : Option ℕ → ℕ → Bool
is_some none x = false
is_some (some y) x = y == x

-- The result of opening a repository, and the database; `crashed` where opening the database panics.
pub data Opening (V : Type 0) : Type 0 where
  done : Result ClientError Repository → Database V → Opening V
  unopened crashed : Opening V

module _ {V : Type 0} where
  -- The `match` on what the server answers: the identity, and the local store.
  pub identify :
      Result ClientError WhoAmIResponse → Local V → Result ClientError (ClientId × UserId) × Local V
  identify (ok whoami) l = (
    ok (whoami.client_id, whoami.user_id),
    if not (is_some l.sync_state.client_id whoami.client_id)
          || not (is_some l.sync_state.user_id whoami.user_id)
        then write_sync_state whoami.client_id whoami.user_id l.sync_state.last_server_txn_id l
        else l,
  )
  identify (err network) l = (cached l.sync_state.client_id l.sync_state.user_id, l)
  identify (err e) l = (err e, l)

  abbrev repository_of :
      IndexSchema → Database V → Result ClientError (ClientId × UserId) × Local V → Opening V
  repository_of schema db (err e, l) = done (err e) (record db { stores = l })
  repository_of schema db (ok (client_id, user_id), l) =
      done (ok (record { client_id = client_id; user_id = user_id; schema = schema }))
        (record db { stores = l })

  abbrev open_with : IndexSchema → Result ClientError WhoAmIResponse → Opened V → Opening V
  open_with schema whoami refused = unopened
  open_with schema whoami panicked = crashed
  open_with schema whoami (opened db) = repository_of schema db (identify whoami db.stores)

  unfoldable pub open_repository : IndexSchema → Server → Text → Option (Database V) → Opening V
  unfolding open_database fetch_whoami identify
  open_repository schema server server_url disk =
      open_with schema (fetch_whoami server server_url) (open_database schema disk)

  abbrev open_as : IndexSchema → ClientId → UserId → Opened V → Opening V
  open_as schema client_id user_id refused = unopened
  open_as schema client_id user_id panicked = crashed
  open_as schema client_id user_id (opened db) =
      done (ok (record { client_id = client_id; user_id = user_id; schema = schema }))
        (record db { stores = write_sync_state client_id user_id none db.stores })

  unfoldable pub open_offline : IndexSchema → ClientId → UserId → Option (Database V) → Opening V
  unfolding open_database
  open_offline schema client_id user_id disk =
      open_as schema client_id user_id (open_database schema disk)
