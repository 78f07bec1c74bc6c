-- ===== src/Server/Db/Files/Reads.antt =====
-- files.rs: what a later `SELECT` finds after an upsert and after a deletion.
use rustend.Prelude.{◌==◌, if◌then◌else◌, not, none, some, List, [], ◌∷◌, keep, ◌≡◌, refl, arith}
use rustend.Core.Ids.{Uuid}
use rustend.Server.Tables.{FileRow}
use rustend.Server.Db.Files.{upsert_row, find_file}

pub find_file-upsert_row :
    (new : FileRow) (o : Uuid) (rows : List FileRow)
    → find_file o (upsert_row new rows)
      ≡ (if o == new.object_id then some new.bytes else find_file o rows)
unfolding upsert_row find_file
find_file-upsert_row new o [] = refl
find_file-upsert_row new o (row ∷ rows) = ground (arith, find_file-upsert_row new o rows)

pub find_file-keep :
    (id o : Uuid) (rows : List FileRow)
    → find_file o (keep (λ (row : FileRow). not (id == row.object_id)) rows)
      ≡ (if o == id then none else find_file o rows)
unfolding find_file
find_file-keep id o [] = ground arith
find_file-keep id o (row ∷ rows) = ground (arith, find_file-keep id o rows)
