-- ===== src/Client/Store/Open.antt =====
-- rustend-client/src/idb/open.rs: opening the database, and what an upgrade does to its indexes. The
-- browser's database has a version; it runs the upgrade when it is opened with a greater one, and is not
-- opened with a lesser one.
pub mod Indexes
use rustend.Prelude.{
  ℕ, ◌==◌, ltb, if◌then◌else◌, not, Bool, Option, none, some, List, [], ◌∷◌, ◌++◌, any, keep,
}
use rustend.Core.Ids.{Text}
use rustend.Core.Text.{text_eq, strip_prefix}
use rustend.Client.Schema.{IndexEntry, IndexSchema}
use rustend.Client.Store.{Local}

-- An index of the store of heads. `key_path` are the bytes of its parts.
pub record Index : Type 0 where
  pub name : Text
  pub key_path : List Text

-- The application's indexes, the object stores and the version.
pub record Database (V : Type 0) : Type 0 where
  pub version : ℕ
  pub indexes : List Index
  pub stores : Local V

-- An `expect` that fails is a panic.
pub data Opened (V : Type 0) : Type 0 where
  opened : Database V → Opened V
  refused panicked : Opened V

-- "object_type", "data." and "$.".
abbrev object_type_bytes : Text
object_type_bytes = 111 ∷ 98 ∷ 106 ∷ 101 ∷ 99 ∷ 116 ∷ 95 ∷ 116 ∷ 121 ∷ 112 ∷ 101 ∷ []

abbrev data_dot : Text
data_dot = 100 ∷ 97 ∷ 116 ∷ 97 ∷ 46 ∷ []

abbrev root_path : Text
root_path = 36 ∷ 46 ∷ []

abbrev or_whole : Option Text → Text → Text
or_whole none whole = whole
or_whole (some rest) whole = rest

abbrev pub index_of : IndexEntry → Index
index_of entry = record {
  name = entry.name;
  key_path =
      object_type_bytes
      ∷ (data_dot ++ or_whole (strip_prefix root_path entry.json_path) entry.json_path)
      ∷ [];
}

abbrev pub named : Text → Index → Bool
named name index = text_eq name index.name

-- `delete_index`, whose error for a name that there is not is ignored.
abbrev delete_index : Text → List Index → List Index
delete_index name = keep (λ index. not (named name index))

pub delete_indexes : List IndexEntry → List Index → List Index
delete_indexes [] indexes = indexes
delete_indexes (entry ∷ entries) indexes = delete_indexes entries (delete_index entry.name indexes)

-- `create_index` fails for a name that there is.
pub create_indexes : List IndexEntry → List Index → Option (List Index)
create_indexes [] indexes = some indexes
create_indexes (entry ∷ entries) indexes =
    let rest = create_indexes entries (index_of entry ∷ indexes) in
    if any (named entry.name) indexes then none else rest

abbrev pub no_stores : {V : Type 0} → Local V
no_stores = record {
  revisions = [];
  object_heads = [];
  files = [];
  sync_state = record { client_id = none; user_id = none; last_server_txn_id = none };
}

module _ {V : Type 0} where
  -- The indexes and the stores that there are, which a new database has created empty.
  abbrev pub contents : Option (Database V) → List Index × Local V
  contents none = ([], no_stores)
  contents (some db) = (db.indexes, db.stores)

  -- The callback: base stores are made only where there was no database.
  unfoldable pub on_upgrade_needed :
      IndexSchema → Option (Database V) → Option (List Index × Local V)
  unfolding delete_indexes create_indexes
  on_upgrade_needed schema old =
      let before = contents old in
      elim (create_indexes schema.entries (delete_indexes schema.entries before.0)) [
        | none ↦ none
        | some made ↦ some (made, before.1)
      ]

  abbrev pub upgraded : ℕ → Option (List Index × Local V) → Opened V
  upgraded version none = panicked
  upgraded version (some (indexes, stores)) =
      opened (record { version = version; indexes = indexes; stores = stores })

  abbrev pub old_version : Option (Database V) → ℕ
  old_version none = 0
  old_version (some db) = db.version

  -- What opening an existing database or a new one gives.
  unfoldable pub open_database : IndexSchema → Option (Database V) → Opened V
  unfolding on_upgrade_needed
  open_database schema none =
      if schema.version == 0
      then refused
      else upgraded schema.version (on_upgrade_needed schema none)
  open_database schema (some db) =
      if ltb schema.version db.version
      then refused
      else if schema.version == db.version
      then opened db
      else upgraded schema.version (on_upgrade_needed schema (some db))
