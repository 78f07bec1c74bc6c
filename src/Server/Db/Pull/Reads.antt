-- ===== src/Server/Db/Pull/Reads.antt =====
-- pull.rs: a pull only reads.
use rustend.Prelude.{leb, Option, List, [], ◌∷◌, refl}
use rustend.Core.Ids.{Uuid, ClientId, TransactionId, Text}
use rustend.Core.Json.{Json}
use rustend.Core.Filter.{CreatedAtFilter, FilterCondition}
use rustend.Server.Sql.Shape.{ReadOnly, >>=-ReadOnly, if-ReadOnly}
use rustend.Server.Db.Transactions.{i64_max}
use rustend.Server.Db.Revisions.{get_revision_rows_by_ids, get_parents_batch}
use rustend.Server.Db.Pull.{Planner, fetch_heads, fetch_object_updates}

pub get_parents_batch-ReadOnly :
    (V : Type 0) (ids : List Uuid) → ReadOnly (get_parents_batch {V = V} ids)
unfolding get_parents_batch
get_parents_batch-ReadOnly V [] = tt
get_parents_batch-ReadOnly V (r ∷ ids) = (λ t. refl, λ t. tt)

module _ {V : Type 0} (json : Json V) (object_types : Option (List Text))
    (created_at_filters : Option (List CreatedAtFilter))
    (content_filter : Option (List (List (FilterCondition V)))) where
  fetch_heads-ReadOnly :
      (planner : Planner) (objects : List Uuid)
      → ReadOnly (fetch_heads json object_types created_at_filters content_filter planner objects)
  unfolding fetch_heads get_revision_rows_by_ids
  fetch_heads-ReadOnly planner [] = tt
  fetch_heads-ReadOnly planner (o ∷ objects) = (
    λ t. refl,
    λ t. (
      λ t. refl,
      λ t. >>=-ReadOnly (get_parents_batch _) _ (get_parents_batch-ReadOnly V _) (λ m. tt),
    ),
  )

  pub fetch_object_updates-ReadOnly :
      (planner : Planner) (c : ClientId) (since : Option TransactionId) (up_to : TransactionId)
      → ReadOnly (
          fetch_object_updates json object_types created_at_filters content_filter planner c since
            up_to)
  unfolding fetch_object_updates
  fetch_object_updates-ReadOnly planner c since up_to =
      if-ReadOnly (leb up_to i64_max) _ _ (λ t. refl, λ t. fetch_heads-ReadOnly planner _) tt
