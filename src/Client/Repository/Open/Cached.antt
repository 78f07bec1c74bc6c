-- ===== src/Client/Repository/Open/Cached.antt =====
-- repository.rs: a repository that was opened once is opened without the network.
use rustend.Prelude.{
  ℕ, ◌==◌, ltb, List, true, false, Option, none, some, ◌≡◌, refl, sym, ◌∙◌, arith,
}
use rustend.Core.Ids.{ClientId, UserId, Text}
use rustend.Core.Outcome.{Result, ok, err}
use rustend.Core.Protocol.{WhoAmIResponse}
use rustend.Client.Error.{ClientError, network}
use rustend.Client.Schema.{IndexSchema}
use rustend.Client.Store.{Local}
use rustend.Client.Store.Open.{
  Index, Database, Opened, opened, refused, panicked, upgraded, on_upgrade_needed, open_database,
}
use rustend.Client.Repository.Open.{
  Repository, Server, done, cached, is_some, identify, repository_of, open_with, fetch_whoami,
  open_repository,
}

is_some-eq : (o : Option ℕ) (x : ℕ) → is_some o x ≡ true → o ≡ some x
is_some-eq none x h = cc
is_some-eq (some y) x h = ground (arith, h)

module _ {V : Type 0} where
  -- The store tells this identity.
  abbrev Tells : Repository → Local V → Type 0
  Tells r l = (l.sync_state.client_id ≡ some r.client_id) × (l.sync_state.user_id ≡ some r.user_id)

  upgraded-version :
      (version : ℕ) (made : Option (List Index × Local V)) (db : Database V)
      → upgraded version made ≡ opened db
      → db.version ≡ version
  upgraded-version version none db h = cc
  upgraded-version version (some (indexes, stores)) db h = cc

  open_database-version :
      (schema : IndexSchema) (disk : Option (Database V)) (db : Database V)
      → open_database schema disk ≡ opened db
      → db.version ≡ schema.version
  unfolding open_database
  open_database-version schema none db h =
      ground (arith, h, upgraded-version schema.version (on_upgrade_needed schema none) db)
  open_database-version schema (some old) db h =
      ground (arith, h, upgraded-version schema.version (on_upgrade_needed schema (some old)) db)

  cached-Tells :
      (schema : IndexSchema) (old db : Database V) (r : Repository) (c : Option ClientId)
      (u : Option UserId)
      → old.stores.sync_state.client_id ≡ c
      → old.stores.sync_state.user_id ≡ u
      → repository_of schema old (cached c u, old.stores) ≡ done (ok r) db
      → (db.version ≡ old.version) × ((r.schema ≡ schema) × Tells r db.stores)
  cached-Tells schema old db r none u ec eu h = cc
  cached-Tells schema old db r (some c) none ec eu h = cc
  cached-Tells schema old db r (some c) (some u) ec eu h = ground (arith, h, ec, eu)

  -- The store tells the identity that was settled on.
  identify-Tells :
      (schema : IndexSchema) (whoami : Result ClientError WhoAmIResponse) (old db : Database V)
      (r : Repository)
      → repository_of schema old (identify whoami old.stores) ≡ done (ok r) db
      → (db.version ≡ old.version) × ((r.schema ≡ schema) × Tells r db.stores)
  unfolding identify
  identify-Tells schema (ok whoami) old db r h = ground (
    arith,
    h,
    is_some-eq old.stores.sync_state.client_id whoami.client_id,
    is_some-eq old.stores.sync_state.user_id whoami.user_id,
  )
  identify-Tells schema (err network) old db r h =
      cached-Tells schema old db r old.stores.sync_state.client_id old.stores.sync_state.user_id
        refl refl h
  identify-Tells schema (err e) old db r h = cc

  identify-again :
      (schema : IndexSchema) (r : Repository) (db : Database V)
      → r.schema ≡ schema
      → Tells r db.stores
      → repository_of schema db (identify (err network) db.stores) ≡ done (ok r) db
  unfolding identify
  identify-again schema r db same (c, u) = rw (c, u, sym same) refl

  opened-Tells :
      (schema : IndexSchema) (whoami : Result ClientError WhoAmIResponse) (o : Opened V)
      (r : Repository) (db : Database V)
      → ((old : Database V) → o ≡ opened old → old.version ≡ schema.version)
      → open_with schema whoami o ≡ done (ok r) db
      → (db.version ≡ schema.version) × ((r.schema ≡ schema) × Tells r db.stores)
  opened-Tells schema whoami (opened old) r db given h =
      let (version, rest) = identify-Tells schema whoami old db r h in
      (version ∙ given old refl, rest)
  opened-Tells schema whoami refused r db given h = cc
  opened-Tells schema whoami panicked r db given h = cc

  -- A repository that was opened is opened again, with the same identity and the same database, if no
  -- request reaches the server.
  pub open_repository-cached :
      (schema : IndexSchema) (server : Server) (url : Text) (disk : Option (Database V))
      (r : Repository) (db : Database V)
      → open_repository schema server url disk ≡ done (ok r) db
      → (url' : Text) → open_repository schema (λ _. none) url' (some db) ≡ done (ok r) db
  unfolding open_repository open_database
  open_repository-cached schema server url disk r db h url' =
      let (version, (same, told)) =
        opened-Tells schema (fetch_whoami server url) (open_database schema disk) r db
          (open_database-version schema disk) h in
      let not_less : ltb schema.version db.version ≡ false = ground (arith, version) in
      let equal : (schema.version == db.version) ≡ true = ground (arith, version) in
      rw (not_less, equal) (identify-again schema r db same told)
