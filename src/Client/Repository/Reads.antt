-- ===== src/Client/Repository/Reads.antt =====
-- repository.rs: what the application reads of the local store. `decode` turns a JSON value into one of
-- the application's type.
use rustend.Prelude.{
  ℕ, if◌then◌else◌, not, Bool, true, false, ◌&&◌, Option, none, some, List, [], ◌∷◌, any,
}
use rustend.Core.Ids.{ObjectId, RevisionId, Text}
use rustend.Core.Text.{text_eq}
use rustend.Core.Content.{Content, active, deleted}
use rustend.Core.Outcome.{Result, ok, err}
use rustend.Client.Error.{ClientError, indexed_db, serialisation}
use rustend.Client.Schema.{IndexEntry, IndexSchema}
use rustend.Client.Store.{HeadRecord, Local, get_heads}
use rustend.Client.Store.Files.{put_file, get_file, delete_file}
use rustend.Client.Store.Open.{Database, named}

-- `VersionContent` is `Content` of the application's type.
pub record ObjectVersion (T : Type 0) : Type 0 where
  pub object_id : ObjectId
  pub revision_id : RevisionId
  pub content : Content T

pub data IndexRange (V : Type 0) : Type 0 where
  whole : IndexRange V
  eq : V → IndexRange V
  bounds : V → Bool → V → Bool → IndexRange V

module _ {V T : Type 0} (decode : V → Option T) where
  abbrev pub typed : Content V → Result ClientError (Content T)
  typed deleted = ok deleted
  typed (active v) = elim (decode v) [ none ↦ err serialisation | some x ↦ ok (active x) ]

  -- A version before those that follow, or the first error.
  abbrev pub before :
      ObjectId
      → RevisionId
      → Result ClientError (Content T)
      → Result ClientError (List (ObjectVersion T))
      → Result ClientError (List (ObjectVersion T))
  before object_id revision_id (err e) rest = err e
  before object_id revision_id (ok content) (err e) = err e
  before object_id revision_id (ok content) (ok versions) =
      ok (record { object_id = object_id; revision_id = revision_id; content = content } ∷ versions)

  abbrev pub versions_of :
      ObjectId → List (HeadRecord V) → Result ClientError (List (ObjectVersion T))
  versions_of object_id [] = ok []
  versions_of object_id (h ∷ heads) =
      before object_id h.revision_id (typed h.content) (versions_of object_id heads)

  unfoldable pub get : ObjectId → Local V → Result ClientError (List (ObjectVersion T))
  get object_id l = versions_of object_id (get_heads object_id l)

  -- The `filter_map` over the heads that the index returns.
  pub versions_in : Bool → Text → List (HeadRecord V) → Result ClientError (List (ObjectVersion T))
  versions_in needs_type_filter object_type [] = ok []
  versions_in needs_type_filter object_type (h ∷ results) =
      let rest = versions_in needs_type_filter object_type results in
      if needs_type_filter && not (text_eq h.object_type object_type)
      then rest
      else before h.object_id h.revision_id (typed h.content) rest

abbrev pub object_type_of : Text → List IndexEntry → Option Text
object_type_of name [] = none
object_type_of name (e ∷ entries) =
    if text_eq e.name name then some e.object_type else object_type_of name entries

-- The browser's indexes. `only` and `bound` make a range of the keys that begin with an object type, unless
-- the values are no keys or out of order; `get_all` reads the heads in a range.
pub record Indexing (V : Type 0) : Type 1 where
  pub KeyRange : Type 0
  pub only : Text → V → Option KeyRange
  pub bound : Text → V → V → Bool → Bool → Option KeyRange
  pub get_all : Text → Option KeyRange → List (HeadRecord V) → List (HeadRecord V)

module _ {V T : Type 0} (decode : V → Option T) (indexing : Indexing V) where
  -- `idb_range`, or its error.
  abbrev pub idb_range : Text → IndexRange V → Result ClientError (Option indexing.KeyRange)
  idb_range object_type whole = ok none
  idb_range object_type (eq v) = elim (indexing.only object_type v) [
    | none ↦ err indexed_db
    | some range ↦ ok (some range)
  ]
  idb_range object_type (bounds lower lower_inclusive upper upper_inclusive) =
      elim (indexing.bound object_type lower upper (not lower_inclusive) (not upper_inclusive)) [
        | none ↦ err indexed_db
        | some range ↦ ok (some range)
      ]

  abbrev pub is_whole : IndexRange V → Bool
  is_whole whole = true
  is_whole _ = false

  abbrev read_index :
      Text
      → Text
      → Bool
      → Result ClientError (Option indexing.KeyRange)
      → Database V
      → Result ClientError (List (ObjectVersion T))
  read_index index_name object_type needs_type_filter (err e) db = err e
  read_index index_name object_type needs_type_filter (ok range) db =
      versions_in decode needs_type_filter object_type
        (indexing.get_all index_name range db.stores.object_heads)

  unfoldable pub query_by_index :
      Text → IndexRange V → IndexSchema → Database V → Result ClientError (List (ObjectVersion T))
  unfolding versions_in
  query_by_index index_name range schema db = elim (object_type_of index_name schema.entries) [
    | none ↦ err indexed_db
    | some object_type ↦
        if not (any (named index_name) db.indexes)
        then err indexed_db
        else read_index index_name object_type (is_whole range) (idb_range object_type range) db
  ]

-- The calls on files.
module _ {V : Type 0} where
  abbrev pub save_file_data : ObjectId → List ℕ → Local V → Local V
  save_file_data object_id bytes l = put_file object_id bytes l

  abbrev pub get_file_data : ObjectId → Local V → Option (List ℕ)
  get_file_data object_id l = get_file object_id l

  abbrev pub delete_file_data : ObjectId → Local V → Local V
  delete_file_data object_id l = delete_file object_id l
