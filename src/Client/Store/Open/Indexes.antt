-- ===== src/Client/Store/Open/Indexes.antt =====
-- rustend-client/src/idb/open.rs: the indexes after an upgrade.
use rustend.Prelude.{
  if◌then◌else◌, not, Bool, false, ◌||◌, Option, none, some, List, [], ◌∷◌, any, all, or_else, ◌≡◌,
}
use rustend.Core.Ids.{Text}
use rustend.Core.Text.{text_eq}
use rustend.Client.Schema.{IndexEntry, IndexSchema}
use rustend.Client.Store.Open.{Index, Database, Opened, opened, index_of, named}

-- Some entry has this name.
abbrev asked : Text → List IndexEntry → Bool
asked name = any (λ (entry : IndexEntry). text_eq entry.name name)

-- Two entries have one name.
abbrev pub repeats : List IndexEntry → Bool
repeats [] = false
repeats (entry ∷ entries) = asked entry.name entries || repeats entries

abbrev pub find_index : Text → List Index → Option Index
find_index name [] = none
find_index name (i ∷ is) = if text_eq name i.name then some i else find_index name is

-- The index that an entry of this name asks for.
abbrev pub find_asked : Text → List IndexEntry → Option Index
find_asked name [] = none
find_asked name (e ∷ es) = if text_eq name e.name then some (index_of e) else find_asked name es

-- No entry's name is taken.
abbrev free : List IndexEntry → List Index → Bool
free es is = all (λ (e : IndexEntry). not (any (named e.name) is)) es

abbrev made_of : List IndexEntry → List Index → List Index
made_of [] is = is
made_of (e ∷ es) is = made_of es (index_of e ∷ is)

module _ {V : Type 0} (schema : IndexSchema) (db : Database V) where
  -- The upgrade keeps the stores and the other indexes, and each entry has its index.
  abbrev pub Upgraded : Opened V → Type 0
  Upgraded result =
      (indexes : List Index) × (result
        ≡ opened (record { version = schema.version; indexes = indexes; stores = db.stores }))
      × ((n : Text)
          → find_index n indexes ≡ or_else (find_asked n schema.entries) (find_index n db.indexes))
