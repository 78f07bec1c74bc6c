-- ===== src/Core/Revision.antt =====
-- rustend-core/src/revision.rs
use rustend.Core.Ids.{ObjectId, RevisionId, ClientId, Instant, Text}
use rustend.Core.Lineage.{Lineage, root}
use rustend.Core.Content.{Content, active}

pub record Revision (V : Type 0) : Type 0 where
  pub id : RevisionId
  pub object_id : ObjectId
  pub object_type : Text
  pub lineage : Lineage
  pub created_at : Instant
  pub created_by : ClientId
  pub content : Content V

-- The fresh id and the time come from `Uuid::new_v4` and `Utc::now`.
abbrev new_root : {V : Type 0} → RevisionId → Instant → ObjectId → Text → ClientId → V → Revision V
new_root fresh now object_id object_type created_by data' = record {
  id = fresh;
  object_id = object_id;
  object_type = object_type;
  lineage = root;
  created_at = now;
  created_by = created_by;
  content = active data';
}
