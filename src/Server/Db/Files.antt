-- ===== src/Server/Db/Files.antt =====
-- rustend-server/src/db/files.rs
pub mod Reads
use rustend.Prelude.{ℕ, ◌==◌, if◌then◌else◌, not, Option, none, some, List, [], ◌∷◌, keep}
use rustend.Core.Ids.{Uuid}
use rustend.Server.Error.{SqlError}
use rustend.Server.Tables.{FileRow}
use rustend.Server.Sql.{Db, query, execute}

-- `INSERT … ON CONFLICT (object_id) DO UPDATE SET data = EXCLUDED.data`
pub upsert_row : FileRow → List FileRow → List FileRow
upsert_row new [] = new ∷ []
upsert_row new (row ∷ rows) =
    if new.object_id == row.object_id
    then record row { bytes = new.bytes } ∷ rows
    else row ∷ upsert_row new rows

pub find_file : Uuid → List FileRow → Option (List ℕ)
find_file o [] = none
find_file o (row ∷ rows) = if o == row.object_id then some row.bytes else find_file o rows

module _ {V : Type 0} where
  unfoldable pub upsert_file : Uuid → List ℕ → Db V SqlError (Unit {0})
  unfolding upsert_row
  upsert_file object_id bytes =
      execute (λ _. none)
        λ t. record t {
          files = upsert_row (record { object_id = object_id; bytes = bytes }) t.files;
        }

  unfoldable pub get_file : Uuid → Db V SqlError (Option (List ℕ))
  unfolding find_file
  get_file object_id = query λ t. find_file object_id t.files

  unfoldable pub delete_file : Uuid → Db V SqlError (Unit {0})
  delete_file object_id =
      execute (λ _. none)
        λ t. record t { files = keep (λ (row : FileRow). not (object_id == row.object_id)) t.files }
