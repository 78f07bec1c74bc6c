-- ===== src/Client/Tests.antt =====
-- The client's theorems on a small store: one object with two heads, of which one is pending.
pub mod Repository
pub mod Whole
use rustend.Prelude.{ℕ, true, ◌<◌, ◌≡◌, ◌⊎◌, refl, none, some, [], ◌∷◌, length}
use rustend.Core.Lineage.{Lineage, root, merge}
use rustend.Core.Content.{active, deleted}
use rustend.Core.Revision.{Revision}
use rustend.Core.Protocol.{ObjectUpdate, replace}
use rustend.Core.Outcome.{err}
use rustend.Client.Store.{Local, get_heads, head_record_from_revision}
use rustend.Client.Store.Heads.{is_head}
use rustend.Client.Error.{conflict_exists}
use rustend.Client.Repository.{new_revision, edit, resolve_conflict}
use rustend.Client.Repository.Edits.{Decided, edit-Decided, resolve_conflict-Decided}
use rustend.Client.Sync.{apply_updates, push_pending}
use rustend.Client.Sync.Pushed.{served, push_pending-settles}
use rustend.Client.Store.{from_revision, pending, get_pending_revisions}
use rustend.Client.Error.{network}
use rustend.Server.Tests.{small}
use rustend.Client.Sync.Pulled.{superseded, apply_updates-keeps_heads}

abbrev pub first : Revision ℕ
first = record {
  id = 10;
  object_id = 5;
  object_type = [];
  lineage = root;
  created_at = 1;
  created_by = 1;
  content = active 7;
}

abbrev second : Revision ℕ
second = record first { id = 11; content = deleted }

abbrev solo : Revision ℕ
solo = record first { id = 20; object_id = 6 }

abbrev pub local : Local ℕ
local = record {
  revisions = [];
  object_heads =
      head_record_from_revision 5 first
      ∷ head_record_from_revision 5 second
      ∷ head_record_from_revision 6 solo
      ∷ [];
  files = [];
  sync_state = record { client_id = some 1; user_id = some 2; last_server_txn_id = none };
}

-- Follows `first`, and leaves `second` alone.
abbrev incoming : ObjectUpdate ℕ
incoming = record {
  object_id = 5;
  action = replace;
  heads = record first { id = 12; lineage = Lineage.update 10 } ∷ [];
}

apply_updates-keeps_heads_example :
    (is_head 5 11 (apply_updates (incoming ∷ []) local).0.object_heads ≡ true)
    ⊎ (superseded 5 11 (incoming ∷ []) ≡ true)
apply_updates-keeps_heads_example = apply_updates-keeps_heads (incoming ∷ []) 5 11 local refl

edit-Decided_example :
    let r = edit 1 9 21 6 20 (active 8) local in
    let revision = new_revision {V = ℕ} 1 9 21 6 (Lineage.update 20) (active 8) in
    ((1 < length (get_heads 6 local)) × (r ≡ (err conflict_exists, local)))
    ⊎ ((length (get_heads 6 local) < 2) × Decided 6 (20 ∷ []) revision local r)
edit-Decided_example = edit-Decided 1 9 21 6 20 (active 8) local

resolve_conflict-Decided_example :
    Decided 5
      (10 ∷ 11 ∷ [])
      (new_revision 1 9 22 5 (merge 10 11 []) deleted)
      local
      (resolve_conflict 1 9 22 5 (10 ∷ 11 ∷ []) deleted local)
resolve_conflict-Decided_example = resolve_conflict-Decided 1 9 22 5 10 11 [] deleted local

-- Two pending records, pushed to the server's small tables.
abbrev waiting : Local ℕ
waiting = record local {
  revisions =
      from_revision (record first { id = 30; lineage = Lineage.update 10 }) pending
      ∷ from_revision (record first { id = 31; lineage = Lineage.update 30 }) pending
      ∷ [];
}

push_pending-settles_example :
    (push_pending (served 100 1 [] small) waiting ≡ (err network, waiting))
    ⊎ (get_pending_revisions (push_pending (served 100 1 [] small) waiting).1 ≡ [])
push_pending-settles_example = push_pending-settles 100 1 [] small waiting (refl, (refl, tt))
