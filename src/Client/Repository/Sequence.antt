-- ===== src/Client/Repository/Sequence.antt =====
-- repository.rs: the answers that a sequence of the application's calls gets.
pub mod Refines
use rustend.Prelude.{
  ℕ, ◌==◌, ltb, if◌then◌else◌, not, Bool, true, false, Option, none, some, List, [], ◌∷◌, map,
  contains, length,
}
use rustend.Core.Ids.{ObjectId, RevisionId, ClientId, Instant, Text}
use rustend.Core.Content.{Content, active}
use rustend.Core.Outcome.{Result, ok, err}
use rustend.Client.Error.{ClientError, indexed_db, stale_parent, conflict_exists, not_cached}
use rustend.Client.Store.{Local}
use rustend.Client.Repository.{save, edit, resolve_conflict}
use rustend.Client.Repository.Reads.{
  ObjectVersion, before, typed, get, save_file_data, get_file_data, delete_file_data,
}

-- A call, with the ids that it makes and the time. An `edit` is an update or a deletion.
pub data Call (V : Type 0) : Type 0 where
  saves : ObjectId → RevisionId → Instant → Text → V → Call V
  edits : ObjectId → RevisionId → Instant → RevisionId → Content V → Call V
  resolves : ObjectId → RevisionId → Instant → List RevisionId → Content V → Call V
  gets : ObjectId → Call V
  puts_file : ObjectId → List ℕ → Call V
  gets_file : ObjectId → Call V
  deletes_file : ObjectId → Call V

pub data Answer (T : Type 0) : Type 0 where
  changed : Result ClientError RevisionId → Answer T
  versions : Result ClientError (List (ObjectVersion T)) → Answer T
  file : Option (List ℕ) → Answer T

abbrev revision_of_save : Result ClientError (ObjectId × RevisionId) → Result ClientError RevisionId
revision_of_save (ok (object_id, revision_id)) = ok revision_id
revision_of_save (err e) = err e

-- The calls on the local store.
module _ {V T : Type 0} (client_id : ClientId) (decode : V → Option T) where
  unfoldable pub perform : List (Call V) → Local V → List (Answer T)
  unfolding get
  perform [] l = []
  perform (saves o fresh now object_type v ∷ calls) l =
      let done = save client_id now o fresh object_type v l in
      changed (revision_of_save done.0) ∷ perform calls done.1
  perform (edits o fresh now parent content ∷ calls) l =
      let done = edit client_id now fresh o parent content l in
      changed done.0 ∷ perform calls done.1
  perform (resolves o fresh now parents resolved ∷ calls) l =
      let done = resolve_conflict client_id now fresh o parents resolved l in
      changed done.0 ∷ perform calls done.1
  perform (gets o ∷ calls) l = versions (get decode o l) ∷ perform calls l
  perform (puts_file o bytes ∷ calls) l = perform calls (save_file_data o bytes l)
  perform (gets_file o ∷ calls) l = file (get_file_data o l) ∷ perform calls l
  perform (deletes_file o ∷ calls) l = perform calls (delete_file_data o l)

-- A version of an object as the application sees it: its revision, its type and its content.
pub record Version (V : Type 0) : Type 0 where
  pub revision_id : RevisionId
  pub object_type : Text
  pub content : Content V

-- What the application has to know of the local store: the versions of each object, and the files.
module _ {V : Type 0} where
  abbrev pub version_ids : List (Version V) → List RevisionId
  version_ids = map (λ (v : Version V). v.revision_id)

  -- Each parent is a version's revision.
  abbrev pub are_versions : List RevisionId → List (Version V) → Bool
  are_versions [] vs = true
  are_versions (p ∷ ps) vs = if contains p (version_ids vs) then are_versions ps vs else false

  -- A change that merges these parents, and what becomes of the versions.
  abbrev pub typed_as :
      RevisionId → Content V → List (Version V) → Result ClientError RevisionId × List (Version V)
  typed_as fresh content [] = (err not_cached, [])
  typed_as fresh content (v ∷ vs) = (
    ok fresh,
    record { revision_id = fresh; object_type = v.object_type; content = content } ∷ [],
  )

  abbrev pub merged :
      RevisionId
      → List RevisionId
      → Content V
      → List (Version V)
      → Result ClientError RevisionId × List (Version V)
  merged fresh parents content vs =
      if are_versions parents vs then typed_as fresh content vs else (err stale_parent, vs)

  abbrev pub edited :
      RevisionId
      → RevisionId
      → Content V
      → List (Version V)
      → Result ClientError RevisionId × List (Version V)
  edited fresh parent content vs =
      if ltb 1 (length vs) then (err conflict_exists, vs) else merged fresh (parent ∷ []) content vs

  abbrev pub resolved_to :
      RevisionId
      → List RevisionId
      → Content V
      → List (Version V)
      → Result ClientError RevisionId × List (Version V)
  resolved_to fresh [] content vs = (err indexed_db, vs)
  resolved_to fresh (a ∷ []) content vs = (err indexed_db, vs)
  resolved_to fresh (a ∷ b ∷ rest) content vs = merged fresh (a ∷ b ∷ rest) content vs

abbrev pub at {ℓ} : {A : Type ℓ} → ObjectId → A → (ObjectId → A) → ObjectId → A
at o a m o' = if o' == o then a else m o'

module _ {V T : Type 0} (decode : V → Option T) where
  abbrev pub read : ObjectId → List (Version V) → Result ClientError (List (ObjectVersion T))
  read o [] = ok []
  read o (v ∷ vs) = before decode o v.revision_id (typed decode v.content) (read o vs)

  -- The same calls on two functions from ids.
  unfoldable pub perform_maps :
      List (Call V) → (ObjectId → List (Version V)) → (ObjectId → Option (List ℕ)) → List (Answer T)
  perform_maps [] m fs = []
  perform_maps (saves o fresh now object_type v ∷ calls) m fs =
      let version : Version V = record {
        revision_id = fresh;
        object_type = object_type;
        content = active v;
      } in
      changed (ok fresh) ∷ perform_maps calls (at o (version ∷ []) m) fs
  perform_maps (edits o fresh now parent content ∷ calls) m fs =
      let done = edited fresh parent content (m o) in
      changed done.0 ∷ perform_maps calls (at o done.1 m) fs
  perform_maps (resolves o fresh now parents resolved ∷ calls) m fs =
      let done = resolved_to fresh parents resolved (m o) in
      changed done.0 ∷ perform_maps calls (at o done.1 m) fs
  perform_maps (gets o ∷ calls) m fs = versions (read o (m o)) ∷ perform_maps calls m fs
  perform_maps (puts_file o bytes ∷ calls) m fs = perform_maps calls m (at o (some bytes) fs)
  perform_maps (gets_file o ∷ calls) m fs = file (fs o) ∷ perform_maps calls m fs
  perform_maps (deletes_file o ∷ calls) m fs = perform_maps calls m (at o none fs)
