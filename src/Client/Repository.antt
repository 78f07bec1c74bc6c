-- ===== src/Client/Repository.antt =====
-- rustend-client/src/repository.rs: the changes that the application makes to the local store. The
-- application's value is taken as the JSON value that it serialises to.
pub mod Edits
pub mod Open
pub mod Reads
pub mod Resume
pub mod Sequence
use rustend.Prelude.{
  ◌==◌, ltb, if◌then◌else◌, not, Option, none, some, List, [], ◌∷◌, map, contains, length,
}
use rustend.Core.Ids.{ObjectId, RevisionId, ClientId, Instant, Text}
use rustend.Core.Lineage.{Lineage, root, merge}
use rustend.Core.Content.{Content, active, deleted}
use rustend.Core.Revision.{Revision}
use rustend.Core.Outcome.{Result, ok, err}
use rustend.Client.Error.{ClientError, indexed_db, stale_parent, conflict_exists, not_cached}
use rustend.Client.Store.{
  HeadRecord, Local, pending, from_revision, put_revision, get_heads, replace_heads,
}

-- `IndexRange` and the queries by index are not modelled; `VersionContent` is `Content`.
module _ {V : Type 0} where
  abbrev head_ids : List (HeadRecord V) → List RevisionId
  head_ids = map (λ (h : HeadRecord V). h.revision_id)

  -- The error of the first parent that is no head.
  pub check_parents_are_heads : List (HeadRecord V) → List RevisionId → Option ClientError
  check_parents_are_heads heads [] = none
  check_parents_are_heads heads (p ∷ parents) =
      let rest = check_parents_are_heads heads parents in
      if not (contains p (head_ids heads)) then some stale_parent else rest

  -- What each change ends with: the revision is stored as pending, and it is the object's one head.
  pub commit_revision : ObjectId → Revision V → Local V → Local V
  unfolding replace_heads
  commit_revision object_id rev l =
      replace_heads object_id (rev ∷ []) (put_revision (from_revision rev pending) l)

  -- What follows the check on the parents: the type is that of the first head.
  pub with_type_of :
      List (HeadRecord V) → (Text → Revision V) → Local V → Result ClientError RevisionId × Local V
  unfolding commit_revision
  with_type_of [] revision l = (err not_cached, l)
  with_type_of (h ∷ heads) revision l =
      let rev = revision h.object_type in (ok rev.id, commit_revision rev.object_id rev l)

  pub checked :
      List (HeadRecord V)
      → List RevisionId
      → (Text → Revision V)
      → Local V
      → Result ClientError RevisionId × Local V
  unfolding check_parents_are_heads with_type_of
  checked heads parents revision l = elim (check_parents_are_heads heads parents) [
    | some e ↦ (err e, l)
    | none ↦ with_type_of heads revision l
  ]

-- The client's id, the time, and the ids that `new` makes.
module _ {V : Type 0} (client_id : ClientId) (now : Instant) where
  abbrev pub new_revision : RevisionId → ObjectId → Lineage → Content V → Text → Revision V
  new_revision fresh object_id lineage content object_type = record {
    id = fresh;
    object_id = object_id;
    object_type = object_type;
    lineage = lineage;
    created_at = now;
    created_by = client_id;
    content = content;
  }

  unfoldable pub save :
      ObjectId
      → RevisionId
      → Text
      → V
      → Local V
      → Result ClientError (ObjectId × RevisionId) × Local V
  unfolding commit_revision
  save object_id fresh object_type data' l = (
    ok (object_id, fresh),
    commit_revision object_id (new_revision fresh object_id root (active data') object_type) l,
  )

  -- `update` and `delete`, which differ in the content.
  pub edit :
      RevisionId
      → ObjectId
      → RevisionId
      → Content V
      → Local V
      → Result ClientError RevisionId × Local V
  unfolding checked
  edit fresh object_id parent content l =
      let heads = get_heads object_id l in
      if ltb 1 (length heads)
      then (err conflict_exists, l)
      else checked heads (parent ∷ [])
          (new_revision fresh object_id (Lineage.update parent) content) l

  unfoldable pub update :
      RevisionId → ObjectId → RevisionId → V → Local V → Result ClientError RevisionId × Local V
  unfolding edit
  update fresh object_id parent data' l = edit fresh object_id parent (active data') l

  unfoldable pub delete :
      RevisionId → ObjectId → RevisionId → Local V → Result ClientError RevisionId × Local V
  unfolding edit
  delete fresh object_id parent l = edit fresh object_id parent deleted l

  unfoldable pub resolve_conflict :
      RevisionId
      → ObjectId
      → List RevisionId
      → Content V
      → Local V
      → Result ClientError RevisionId × Local V
  unfolding checked
  resolve_conflict fresh object_id [] resolved l = (err indexed_db, l)
  resolve_conflict fresh object_id (a ∷ []) resolved l = (err indexed_db, l)
  resolve_conflict fresh object_id (a ∷ b ∷ rest) resolved l =
      checked (get_heads object_id l) (a ∷ b ∷ rest)
        (new_revision fresh object_id (merge a b rest) resolved) l
