-- ===== src/Core/Filter.antt =====
-- rustend-core/src/filter.rs
use rustend.Core.Ids.{Instant, Text}

pub data CreatedAtFilter : Type 0 where
  gt gte lt lte : Instant → CreatedAtFilter

pub data FilterOperator (V : Type 0) : Type 0 where
  exists is_null : FilterOperator V
  eq ne gt gte lt lte contains : V → FilterOperator V
  starts_with : Text → FilterOperator V

pub record FilterCondition (V : Type 0) : Type 0 where
  pub path : Text
  pub operator : FilterOperator V
