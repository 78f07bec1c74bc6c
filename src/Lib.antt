-- ===== src/Lib.antt =====
-- The verification of rustend, a synchronisation of versioned objects between offline clients and a
-- server.
--
-- The program. An object's history is a graph of revisions: a root, updates of one revision and merges
-- of several (rustend-core). A client pushes revisions to the server and pulls the objects that others
-- changed. The server (rustend-server) stores the graph in PostgreSQL, with the heads of each object
-- in a table of their own and with a numbered transaction for each push, by which a pull finds what is
-- new. The client (rustend-client) keeps a local copy in IndexedDB.
--
-- The files.
--   Prelude              tests and lists over the native numbers, and the maps and sets of ids
--   Core                 rustend-core/src: ids, lineage, content, revision, filter, protocol; Text and
--                        Json hold what the code uses of `str` and of `serde_json::Value`
--   Server/Error         rustend-server/src/error.rs
--   Server/Tables        rustend-server/migrations: a record for each table and the constraints as
--                        tests; Tables/Valid says what the tables promise each other
--   Server/Sql           programs of SQL statements, and how they run; Sql/Laws, Shape, Reaches, Leads
--                        and Finishes prove what holds of all programs of a shape; Sql/Interleave runs
--                        several at once
--   Server/Db            rustend-server/src/db, a module for each file
--   Server/Auth          rustend-server/src/auth.rs, and the three builders of store.rs
--   Server/Handlers      rustend-server/src/handlers
--   Server/Tests         small tables, and the theorems on them
--   Client/Error         rustend-client/src/error.rs
--   Client/Schema        rustend-client/src/schema.rs
--   Client/Store         rustend-client/src/idb: the object stores; Store/Files: files.rs; Store/Open:
--                        open.rs; Store/Heads and Written: which revisions are heads
--   Client/Repository    rustend-client/src/repository.rs: the changes to the local store; Repository/Open,
--                        Reads and Resume: opening, reading and synchronising it; Repository/Edits;
--                        Repository/Sequence: sequences of calls
--   Client/Sync          rustend-client/src/sync.rs: push and pull from the client's side; Sync/Pulled,
--                        Pushed, Arrived, Converged and Whole: what they leave, against the server's model
--   Client/Tests         a small store, and the theorems on it
-- A module below one of these proves things of it: Db/Push/Judge, Write, Accepted and Correct
-- lead from the decisions of a push to its result, Atomicity, Duplicates, Reasons, Answers and
-- Validity to its other properties, Judged, Ready, Written and Concurrent to those of pushes that run
-- at once, and Steps counts a push's steps; Db/Pull/Filters are the filters of a pull, Heads,
-- Collected, Complete, Stored and Window say which objects and revisions it returns, and Handlers/Pull,
-- Objects and Delivery what the requests answer, alone and together, Mixed and Finished are about
-- requests that run at once; Db/Revisions/Insert, RoundTrip, Batch
-- and Known are about revisions and their rows.
--
-- How code becomes definitions. A function that takes a pool or a transaction is a program of type
-- `Db`: `query` and `execute` are SQL statements with their meaning on the tables, `begin` and `commit`
-- those of the transaction, `>>=` is `.await?`. `run` runs a program on the tables when every message
-- arrives; `run_under` takes a list of fates, by which each statement may be lost before or after
-- the database carried it out. A statement that breaks a constraint is an error, and a transaction
-- that is dropped goes back to the tables saved at its start. `interleave` runs several programs by a
-- schedule, a statement at a time; a transaction, with what follows it, is one step, so it is
-- isolated. A loop over a list is a recursive function of its own, so no fuel is needed. The names
-- are those of the code.
--
-- Conventions. A UUID, a point in time and a transaction id are natural numbers, and a text is the list
-- of its bytes. A JSON value is a type parameter, with its operations as a record where they are used. An
-- `i16` position is kept as its value plus 32768, with the wrap of the cast written out. The results of
-- `Utc::now()` are arguments. Where a SELECT has no ORDER BY, the order of its rows is a
-- parameter, or the result is used by key only.
--
-- The client's functions take the local store and return it changed: each is one call after another
-- on the browser's database, whose failures are not modelled, and a server is a function from
-- requests to responses; Sync/Pushed and Sync/Converged take it from the server's programs. A `u32` counter
-- of the client is a natural number. Opening a database has three ends: it is opened, the browser refuses
-- the version, or an `expect` panics. The browser's indexes and their key ranges are a parameter of the query by
-- index, and the application's `decode` one of each read.
--
-- Not modelled. Interleaved statements of two transactions, as weaker isolation allows; the id that
-- an INSERT of a transaction draws when the INSERT itself is refused; the router and serialisation,
-- which are axum's and serde's; indexes of the server; the texts of error bodies; failures of the
-- browser's database between two of its transactions.
pub mod Prelude
pub mod Core
pub mod Server
pub mod Client
