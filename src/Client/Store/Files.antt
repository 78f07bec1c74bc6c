-- ===== src/Client/Store/Files.antt =====
-- rustend-client/src/idb/files.rs: the contents of files, by the ids of their objects.
use rustend.Prelude.{
  ℕ, ◌==◌, ltb, if◌then◌else◌, not, Option, none, some, List, [], ◌∷◌, keep, ◌≡◌, refl, arith,
}
use rustend.Core.Ids.{ObjectId}
use rustend.Client.Store.{Local, FileRecord}

-- `put` in the store of files.
pub put_in : FileRecord → List FileRecord → List FileRecord
put_in new [] = new ∷ []
put_in new (f ∷ fs) =
    let rest = put_in new fs in
    if new.object_id == f.object_id
    then new ∷ fs
    else if ltb new.object_id f.object_id
    then new ∷ f ∷ fs
    else f ∷ rest

abbrev pub find_in : ObjectId → List FileRecord → Option (List ℕ)
find_in o [] = none
find_in o (f ∷ fs) = if o == f.object_id then some f.bytes else find_in o fs

module _ {V : Type 0} where
  unfoldable pub put_file : ObjectId → List ℕ → Local V → Local V
  unfolding put_in
  put_file object_id bytes l = record l {
    files = put_in (record { object_id = object_id; bytes = bytes }) l.files;
  }

  unfoldable pub get_file : ObjectId → Local V → Option (List ℕ)
  get_file object_id l = find_in object_id l.files

  unfoldable pub delete_file : ObjectId → Local V → Local V
  delete_file object_id l = record l {
    files = keep (λ (f : FileRecord). not (object_id == f.object_id)) l.files;
  }

pub find_in-put_in :
    (o : ObjectId) (new : FileRecord) (fs : List FileRecord)
    → find_in o (put_in new fs) ≡ (if o == new.object_id then some new.bytes else find_in o fs)
unfolding put_in
find_in-put_in o new [] = refl
find_in-put_in o new (f ∷ fs) = ground (arith, find_in-put_in o new fs)

pub find_in-keep :
    (o o' : ObjectId) (fs : List FileRecord)
    → find_in o (keep (λ (f : FileRecord). not (o' == f.object_id)) fs)
      ≡ (if o == o' then none else find_in o fs)
find_in-keep o o' [] = ground arith
find_in-keep o o' (f ∷ fs) = ground (arith, find_in-keep o o' fs)
