-- ===== src/Core/Json.antt =====
-- `serde_json::Value`, a type of another library: what the code uses of it.
use rustend.Prelude.{Bool, Option, List, ◌≡◌}
use rustend.Core.Ids.{Text}
use rustend.Core.Text.{Ordering}

-- A value by its constructor; the members of an object are read with `get` only.
pub data Shape (V N : Type 0) : Type 0 where
  null object : Shape V N
  bool : Bool → Shape V N
  number : N → Shape V N
  string : Text → Shape V N
  array : List V → Shape V N

pub record Json (V : Type 0) : Type 1 where
  pub Number : Type 0
  pub Float : Type 0
  pub shape : V → Shape V Number
  pub null_value : V
  -- `Value::get` with a `str`, and `PartialEq`.
  pub get : V → Text → Option V
  pub eq : V → V → Bool
  -- `Number::as_f64`, and `PartialOrd` of an `f64`.
  pub as_f64 : Number → Option Float
  pub partial_cmp : Float → Float → Option Ordering
  pub null_value-shape : shape null_value ≡ Shape.null
