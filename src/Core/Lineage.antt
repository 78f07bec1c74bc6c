-- ===== src/Core/Lineage.antt =====
-- rustend-core/src/lineage.rs
use rustend.Prelude.{List, [], ◌∷◌}
use rustend.Core.Ids.{RevisionId}

pub data Lineage : Type 0 where
  root : Lineage
  update : RevisionId → Lineage
  merge : RevisionId → RevisionId → List RevisionId → Lineage

unfoldable pub parents : Lineage → List RevisionId
parents root = []
parents (update p) = p ∷ []
parents (merge a b rest) = a ∷ b ∷ rest
