-- ===== src/Server/Handlers/Files.antt =====
-- handlers/files.rs: the store of files that a sequence of requests meets.
use rustend.Prelude.{
  ℕ, ◌==◌, if◌then◌else◌, not, keep, ◌∙◌, Option, none, some, List, [], ◌∷◌, ◌≡◌, refl, ap,
}
use rustend.Core.Ids.{Uuid}
use rustend.Server.Error.{ServerError}
use rustend.Server.Tables.{Tables, FileRow}
use rustend.Server.Sql.{Result, ok, err, Session, idle, run}
use rustend.Server.Db.Files.{find_file, upsert_row, get_file, upsert_file, delete_file}
use rustend.Server.Db.Files.Reads.{find_file-upsert_row, find_file-keep}
use rustend.Server.Handlers.{handle_get_file, handle_upload_file, handle_delete_file, file_response}

pub data FileRequest : Type 0 where
  download : Uuid → FileRequest
  upload : Uuid → List ℕ → FileRequest
  remove : Uuid → FileRequest

-- The responses that the requests get one after the other.
abbrev pub Answers : Type 0
Answers = List (Result ServerError (ℕ × List ℕ))

abbrev without_body : Result ServerError ℕ → Result ServerError (ℕ × List ℕ)
without_body (ok code) = ok (code, [])
without_body (err e) = err e

module _ {V : Type 0} where
  unfoldable pub serve : List FileRequest → Session V → Answers
  serve [] s = []
  serve (download id ∷ requests) s =
      let done = run (handle_get_file id) s in done.0 ∷ serve requests done.1
  serve (upload id body ∷ requests) s =
      let done = run (handle_upload_file id body) s in without_body done.0 ∷ serve requests done.1
  serve (remove id ∷ requests) s =
      let done = run (handle_delete_file id) s in without_body done.0 ∷ serve requests done.1

-- The same requests on a function from ids to files.
unfoldable pub serve_map : List FileRequest → (Uuid → Option (List ℕ)) → Answers
serve_map [] m = []
serve_map (download id ∷ requests) m = ok (file_response (m id)) ∷ serve_map requests m
serve_map (upload id body ∷ requests) m =
    ok (204, []) ∷ serve_map requests (λ o. if o == id then some body else m o)
serve_map (remove id ∷ requests) m =
    ok (204, []) ∷ serve_map requests (λ o. if o == id then none else m o)

module _ {V : Type 0} where
  -- Whatever files are stored, a sequence of uploads, downloads and deletions is answered as by a
  -- function from ids to contents that an upload and a deletion change at one id: the table, its upsert and
  -- its rows' order cannot be told from it.
  pub serve-refines-map :
      (requests : List FileRequest) (t : Tables V)
      → serve requests (idle t) ≡ serve_map requests (λ o. find_file o t.files)
  unfolding serve serve_map handle_get_file handle_upload_file handle_delete_file run get_file
      upsert_file delete_file
  serve-refines-map [] t = refl
  serve-refines-map (download id ∷ requests) t =
      ap (λ rest. ok (file_response (find_file id t.files)) ∷ rest) (serve-refines-map requests t)
  serve-refines-map (upload id body ∷ requests) t =
      let row : FileRow = record { object_id = id; bytes = body } in
      ap (λ rest. ok (204, []) ∷ rest)
        (serve-refines-map requests (record t { files = upsert_row row t.files })
          ∙ ap (serve_map requests) (λ i o. find_file-upsert_row row o t.files i))
  serve-refines-map (remove id ∷ requests) t =
      let rest_of : List FileRow = keep (λ (row : FileRow). not (id == row.object_id)) t.files in
      ap (λ rest. ok (204, []) ∷ rest)
        (serve-refines-map requests (record t { files = rest_of })
          ∙ ap (serve_map requests) (λ i o. find_file-keep id o t.files i))
