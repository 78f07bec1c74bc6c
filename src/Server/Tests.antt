-- ===== src/Server/Tests.antt =====
-- The server's theorems on small tables: one client, one object with one revision.
pub mod Pull
pub mod Requests
pub mod Concurrent
use rustend.Prelude.{
  ℕ, if◌then◌else◌, true, false, Option, none, some, List, [], ◌∷◌, Distinct, count, to_set, ◌≡◌,
  refl, arith,
}
use rustend.Core.Ids.{Text}
use rustend.Core.Text.{text_eq}
use rustend.Core.Lineage.{update, merge, parents}
use rustend.Core.Content.{active, deleted}
use rustend.Core.Revision.{Revision}
use rustend.Core.Protocol.{PushResponse}
use rustend.Server.Error.{database, connection}
use rustend.Server.Tables.{Tables}
use rustend.Server.Tables.Valid.{IsValid}
use rustend.Server.Sql.{Result, ok, err, idle, run, run_under, answered, lost, reply_lost}
use rustend.Server.Sql.Shape.{LeavesOr}
use rustend.Server.Db.Push.{push_revisions, no_verdicts, judge, conclude}
use rustend.Server.Db.Push.Judge.{verdict, verdicts, lineage_verdict, parents_verdict}
use rustend.Server.Db.Push.Accepted.{ids}
use rustend.Server.Db.Push.Correct.{
  decided, written, reply_of, outcome, Fails, push_revisions_total, push_revisions_duplicate,
}
use rustend.Server.Db.Push.Validity.{push_revisions-IsValid}
use rustend.Server.Db.Push.Atomicity.{push_revisions_atomic}
use rustend.Server.Db.Push.Reasons.{Explains, judge_explained}
use rustend.Server.Db.Push.Answers.{answers, answers-push_revisions}
use rustend.Core.Protocol.{unknown_parent}
use rustend.Server.Db.Revisions.{insert_revision, revision_exists, get_revision_object_id}
use rustend.Server.Db.ObjectHeads.{update_heads}
use rustend.Server.Db.Transactions.{create_transaction}
use rustend.Server.Auth.{
  AuthInfo, AuthError, forwarded_for, Request, reply, extract_ip, call, unauthenticated,
}
use rustend.Server.Auth.Registered.{Handler, call-reply}
use rustend.Server.Tables.{has_client}
use rustend.Server.Handlers.{handle, push_changes}
use rustend.Server.Handlers.Files.{download, upload, remove, serve, serve_map, serve-refines-map}
use rustend.Server.Db.Files.{find_file}
use rustend.Server.Db.Clients.{upsert_client}

abbrev pub small : Tables ℕ
small = record {
  clients = record { id = 1; registered_at = 0; user_id = 9 } ∷ [];
  revisions =
      record {
        id = 10;
        object_id = 5;
        object_type = [];
        deleted = false;
        payload = some 7;
        created_at = 3;
        created_by = 1;
      }
      ∷ [];
  revision_parents = [];
  transactions = record { id = 1; client_id = 1; created_at = 4 } ∷ [];
  transaction_revisions = record { transaction_id = 1; revision_id = 10 } ∷ [];
  object_heads = record { object_id = 5; revision_id = 10 } ∷ [];
  files = [];
  transactions_id_seq = 2;
}

pub small-IsValid : IsValid small
small-IsValid = record {
  parents_stored = λ r p h. cc;
  heads_are_leaves = λ o r. ground arith;
  ids_given = λ i h. ground arith;
  seq_started = omega arith;
  transactions_stored = λ i r h. ground arith;
}

abbrev edited : Revision ℕ
edited = record {
  id = 11;
  object_id = 5;
  object_type = [];
  lineage = update 10;
  created_at = 5;
  created_by = 1;
  content = active 8;
}

-- Follows `edited`, of the same request.
abbrev erased : Revision ℕ
erased = record {
  id = 12;
  object_id = 5;
  object_type = [];
  lineage = merge 11 10 [];
  created_at = 6;
  created_by = 1;
  content = deleted;
}

-- Its parent is unknown.
abbrev lone : Revision ℕ
lone = record {
  id = 13;
  object_id = 5;
  object_type = [];
  lineage = update 99;
  created_at = 6;
  created_by = 1;
  content = active 1;
}

abbrev pub batch : List (Revision ℕ)
batch = edited ∷ lone ∷ erased ∷ []

pub batch-Distinct : Distinct (ids (written small 1 batch))
unfolding verdicts verdict lineage_verdict parents_verdict parents to_set
batch-Distinct = (refl, (refl, tt))

push_revisions-IsValid_example :
    IsValid
      (run_under
        (database connection)
        (push_revisions 100 1 batch)
        (answered ∷ answered ∷ answered ∷ answered ∷ lost ∷ [])
        (idle small)).1.tables
push_revisions-IsValid_example =
    push_revisions-IsValid 100 1 batch (answered ∷ answered ∷ answered ∷ answered ∷ lost ∷ []) small
      small-IsValid refl (omega arith)

push_revisions_total_example : run (push_revisions 100 1 batch) (idle small) ≡ (
  ok (reply_of small (decided small 1 batch) (written small 1 batch)),
  idle (outcome 100 1 small (decided small 1 batch) (written small 1 batch)),
)
push_revisions_total_example =
    push_revisions_total 100 1 batch small small-IsValid refl (omega arith) batch-Distinct

push_revisions_atomic_example :
    LeavesOr small
      (run_under
        (database connection)
        (push_revisions 100 1 batch)
        (lost ∷ [])
        (idle small)).1.tables
      (run (push_revisions 100 1 batch) (idle small)).1.tables
push_revisions_atomic_example = push_revisions_atomic 100 1 batch (lost ∷ []) small

-- A request that names a new id twice.
abbrev twice : List (Revision ℕ)
twice = edited ∷ edited ∷ []

twice-repeats : ¬ Distinct (ids (written small 1 twice))
unfolding verdicts verdict lineage_verdict parents_verdict parents to_set
twice-repeats = λ d. cc (d.0)

push_revisions_duplicate_example : Fails (run (push_revisions 100 1 twice) (idle small)) small
push_revisions_duplicate_example = push_revisions_duplicate 100 1 twice small twice-repeats

judge_explained_example :
    (v : Option _) × (run (judge 1 lone no_verdicts) (idle small)
      ≡ (ok (conclude lone v no_verdicts), idle small))
    × Explains small 1 no_verdicts.accepted_objects lone v
judge_explained_example = judge_explained small 1 lone no_verdicts

abbrev batch_response : PushResponse
batch_response = record {
  transaction_id = 2;
  accepted = 11 ∷ 12 ∷ [];
  rejected = record { revision_id = 13; reason = unknown_parent } ∷ [];
}

batch_answered :
    (run_under (database connection) (push_revisions 100 1 batch) [] (idle small)).0
    ≡ ok batch_response
unfolding push_revisions run_under parents to_set revision_exists get_revision_object_id
    insert_revision update_heads create_transaction
batch_answered = refl

answers-push_revisions_example :
    answers 12 batch_response.accepted batch_response.rejected ≡ count 12 (ids batch)
answers-push_revisions_example =
    answers-push_revisions 100 1 batch [] small batch_response batch_answered 12

-- Two revisions with two parents each, out of order.
abbrev tangled : Tables ℕ
tangled = record small {
  revision_parents =
      record { revision_id = 21; parent_id = 3; position = 32769 }
      ∷ record { revision_id = 20; parent_id = 2; position = 32769 }
      ∷ record { revision_id = 21; parent_id = 4; position = 32768 }
      ∷ record { revision_id = 20; parent_id = 1; position = 32768 }
      ∷ [];
}
