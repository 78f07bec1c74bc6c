-- ===== src/Client/Repository/Sequence/Refines.antt =====
-- repository.rs: a sequence of calls is answered as by functions from ids.
use rustend.Prelude.{
  ℕ, ◌==◌, ==_iff, ltb, if◌then◌else◌, Bool-cases, Option, none, some, inl, inr, List, [], ◌∷◌, map,
  contains, length, length-map, ◌≡◌, refl, sym, ap, ◌∙◌, arith,
}
use rustend.Core.Ids.{ObjectId, RevisionId, ClientId, Instant, Text}
use rustend.Core.Lineage.{Lineage, root, merge}
use rustend.Core.Content.{Content, active}
use rustend.Core.Revision.{Revision}
use rustend.Core.Outcome.{Result, ok, err}
use rustend.Client.Error.{ClientError, stale_parent, conflict_exists, indexed_db}
use rustend.Client.Store.{
  HeadRecord, Local, get_heads, replace_heads, put_revision, from_revision, pending,
}
use rustend.Client.Store.Written.{get_heads-replace_heads}
use rustend.Client.Store.Files.{
  find_in, put_file, get_file, delete_file, find_in-put_in, find_in-keep,
}
use rustend.Client.Repository.{
  head_ids, check_parents_are_heads, commit_revision, with_type_of, checked, new_revision, save,
  edit, resolve_conflict,
}
use rustend.Client.Repository.Reads.{before, typed, versions_of, get}
use rustend.Client.Repository.Sequence.{
  Call, saves, edits, resolves, gets, puts_file, gets_file, deletes_file, changed, versions, file,
  Version, version_ids, are_versions, typed_as, merged, edited, resolved_to, at, read, perform,
  perform_maps,
}

module _ {V : Type 0} where
  abbrev version_of : HeadRecord V → Version V
  version_of h = record {
    revision_id = h.revision_id;
    object_type = h.object_type;
    content = h.content;
  }

  -- The versions of each object, and the files.
  abbrev pub view : Local V → ObjectId → List (Version V)
  view l o = map version_of (get_heads o l)

  abbrev pub files_of : Local V → ObjectId → Option (List ℕ)
  files_of l o = find_in o l.files

  view-commit_revision :
      (rev : Revision V) (l : Local V) (o' : ObjectId)
      → view (commit_revision rev.object_id rev l) o'
        ≡ at rev.object_id
            (record { revision_id = rev.id; object_type = rev.object_type; content = rev.content }
              ∷ [])
            (view l)
            o'
  unfolding commit_revision
  view-commit_revision rev l o' = ground (
    arith,
    get_heads-replace_heads o' rev.object_id rev (put_revision (from_revision rev pending) l),
  )

  files-commit_revision :
      (rev : Revision V) (l : Local V) → (commit_revision rev.object_id rev l).files ≡ l.files
  unfolding commit_revision replace_heads
  files-commit_revision rev l = refl

  contains-version_ids :
      (p : RevisionId) (hs : List (HeadRecord V))
      → contains p (version_ids (map version_of hs)) ≡ contains p (head_ids hs)
  contains-version_ids p [] = refl
  contains-version_ids p (h ∷ hs) = ground (arith, contains-version_ids p hs)

  check_parents_are_heads-eq :
      (ps : List RevisionId) (hs : List (HeadRecord V))
      → check_parents_are_heads hs ps
        ≡ (if are_versions ps (map version_of hs) then none else some stale_parent)
  unfolding check_parents_are_heads
  check_parents_are_heads-eq [] hs = refl
  check_parents_are_heads-eq (p ∷ ps) hs =
      ground (arith, check_parents_are_heads-eq ps hs, contains-version_ids p hs)

  at_self :
      (o : ObjectId) (m : ObjectId → List (Version V)) (o' : ObjectId) → m o' ≡ at o (m o) m o'
  at_self o m o' = elim (Bool-cases (o' == o)) [
    | inl same ↦ rw same (ap m ((==_iff o' o).0 same))
    | inr other ↦ rw other refl
  ]

  -- A change of one object's versions, on the local store and on the function.
  record Same (o : ObjectId) (l : Local V) (done : Result ClientError RevisionId × Local V)
      (expected : Result ClientError RevisionId × List (Version V)) : Type 0 where
    answer : done.0 ≡ expected.0
    viewed : (o' : ObjectId) → view done.1 o' ≡ at o expected.1 (view l) o'
    files_kept : done.1.files ≡ l.files

  refused-Same :
      (o : ObjectId) (l : Local V) (e : ClientError) → Same o l (err e, l) (err e, view l o)
  refused-Same o l e = record { answer = refl; viewed = at_self o (view l); files_kept = refl }

module _ {V : Type 0} (client_id : ClientId) (now : Instant) (fresh : RevisionId) (o : ObjectId)
    (lineage : Lineage) (content : Content V) where
  abbrev revision : Text → Revision V
  revision = new_revision client_id now fresh o lineage content

  with_type_of-Same :
      (hs : List (HeadRecord V)) (l : Local V)
      → map version_of hs ≡ view l o
      → Same o l (with_type_of hs revision l) (typed_as fresh content (map version_of hs))
  unfolding with_type_of
  with_type_of-Same [] l e = record {
    answer = refl;
    viewed = λ o'. at_self o (view l) o' ∙ ap (λ vs. at o vs (view l) o') (sym e);
    files_kept = refl;
  }
  with_type_of-Same (h ∷ hs) l e = record {
    answer = refl;
    viewed = view-commit_revision (revision h.object_type) l;
    files_kept = files-commit_revision (revision h.object_type) l;
  }

  checked-Same :
      (ps : List RevisionId) (l : Local V)
      → Same o l (checked (get_heads o l) ps revision l) (merged fresh ps content (view l o))
  unfolding checked
  checked-Same ps l =
      let checks = check_parents_are_heads-eq ps (get_heads o l) in
      elim (Bool-cases (are_versions ps (view l o))) [
        | inl known ↦ rw (checked, checks, known) (with_type_of-Same (get_heads o l) l refl)
        | inr stale ↦ rw (checked, checks, stale) (refused-Same o l stale_parent)
      ]

module _ {V : Type 0} (client_id : ClientId) (now : Instant) (fresh : RevisionId)
    (o : ObjectId) where
  edit-Same :
      (parent : RevisionId) (content : Content V) (l : Local V)
      → Same o l
          (edit client_id now fresh o parent content l)
          (edited fresh parent content (view l o))
  unfolding edit
  edit-Same parent content l =
      let counted : ltb 1 (length (view l o)) ≡ ltb 1 (length (get_heads o l)) =
        ap (ltb 1) (length-map version_of (get_heads o l)) in
      elim (Bool-cases (ltb 1 (length (get_heads o l)))) [
        | inl many ↦ rw (counted, many) (refused-Same o l conflict_exists)
        | inr few ↦
            rw (counted, few)
              (checked-Same client_id now fresh o (Lineage.update parent) content (parent ∷ []) l)
      ]

  resolve_conflict-Same :
      (ps : List RevisionId) (content : Content V) (l : Local V)
      → Same o l
          (resolve_conflict client_id now fresh o ps content l)
          (resolved_to fresh ps content (view l o))
  unfolding resolve_conflict
  resolve_conflict-Same [] content l = refused-Same o l indexed_db
  resolve_conflict-Same (a ∷ []) content l = refused-Same o l indexed_db
  resolve_conflict-Same (a ∷ b ∷ rest) content l =
      checked-Same client_id now fresh o (merge a b rest) content (a ∷ b ∷ rest) l

module _ {V T : Type 0} (client_id : ClientId) (decode : V → Option T) where
  versions_of-eq :
      (o : ObjectId) (hs : List (HeadRecord V))
      → versions_of decode o hs ≡ read decode o (map version_of hs)
  versions_of-eq o [] = refl
  versions_of-eq o (h ∷ hs) =
      ap (before decode o h.revision_id (typed decode h.content)) (versions_of-eq o hs)

  Same-rest :
      (calls : List (Call V)) (o : ObjectId) (l : Local V)
      (done : Result ClientError RevisionId × Local V)
      (expected : Result ClientError RevisionId × List (Version V))
      → Same o l done expected
      → changed done.0 ∷ perform_maps decode calls (view done.1) (files_of done.1)
        ≡ changed expected.0 ∷ perform_maps decode calls (at o expected.1 (view l)) (files_of l)
  Same-rest calls o l done expected same i =
      changed (same.answer i)
      ∷ perform_maps decode calls (λ x. same.viewed x i) (λ x. find_in x (same.files_kept i))

  -- A sequence of saves, updates, deletions, resolutions, reads and calls on files is answered as by two
  -- functions, from ids to an object's versions and from ids to contents, whatever the local store holds: the
  -- application cannot tell the order of the stores, the records of revisions, the lineage or the times.
  pub perform-refines-maps :
      (calls : List (Call V)) (l : Local V)
      → perform client_id decode calls l ≡ perform_maps decode calls (view l) (files_of l)
  unfolding perform perform_maps get save put_file get_file delete_file
  perform-refines-maps [] l = refl
  perform-refines-maps (saves o fresh now object_type v ∷ calls) l =
      let rev : Revision V = new_revision client_id now fresh o root (active v) object_type in
      let version : Version V = record {
        revision_id = fresh;
        object_type = object_type;
        content = active v;
      } in
      ap (λ rest. changed (ok fresh) ∷ rest) (perform-refines-maps calls (commit_revision o rev l))
      ∙ Same-rest calls o l (ok fresh, commit_revision o rev l) (ok fresh, version ∷ [])
          (record {
            answer = refl;
            viewed = view-commit_revision rev l;
            files_kept = files-commit_revision rev l;
          })
  perform-refines-maps (edits o fresh now parent content ∷ calls) l =
      let done = edit client_id now fresh o parent content l in
      ap (λ rest. changed done.0 ∷ rest) (perform-refines-maps calls done.1)
      ∙ Same-rest calls o l done (edited fresh parent content (view l o))
          (edit-Same client_id now fresh o parent content l)
  perform-refines-maps (resolves o fresh now parents resolved ∷ calls) l =
      let done = resolve_conflict client_id now fresh o parents resolved l in
      ap (λ rest. changed done.0 ∷ rest) (perform-refines-maps calls done.1)
      ∙ Same-rest calls o l done (resolved_to fresh parents resolved (view l o))
          (resolve_conflict-Same client_id now fresh o parents resolved l)
  perform-refines-maps (gets o ∷ calls) l =
      rw (versions_of-eq o (get_heads o l))
        (ap (λ rest. versions (read decode o (view l o)) ∷ rest) (perform-refines-maps calls l))
  perform-refines-maps (puts_file o bytes ∷ calls) l =
      perform-refines-maps calls (put_file o bytes l)
      ∙ ap (perform_maps decode calls (view l))
          (λ i x. find_in-put_in x (record { object_id = o; bytes = bytes }) l.files i)
  perform-refines-maps (gets_file o ∷ calls) l =
      ap (λ rest. file (find_in o l.files) ∷ rest) (perform-refines-maps calls l)
  perform-refines-maps (deletes_file o ∷ calls) l =
      perform-refines-maps calls (delete_file o l)
      ∙ ap (perform_maps decode calls (view l)) (λ i x. find_in-keep x o l.files i)
