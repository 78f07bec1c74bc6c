-- ===== src/Server/Tests/Pull.antt =====
-- The theorems on reading requests, on the small tables, with numbers for JSON values.
use rustend.Prelude.{ℕ, ◌==◌, ltb, if◌then◌else◌, none, some, [], refl}
use rustend.Core.Text.{Ordering, less, equal, greater}
use rustend.Core.Json.{Json, Shape, null, number}
use rustend.Server.Sql.{idle, run}
use rustend.Server.Db.Pull.{Planner}
use rustend.Server.Db.Pull.Heads.{IsFaithful}
use rustend.Core.Protocol.{PullRequest}
use rustend.Server.Auth.{AuthInfo}
use rustend.Server.Handlers.{get_object}
use rustend.Server.Handlers.Objects.{AnswersLeaves, get_object-leaves}
use rustend.Server.Tests.{small, small-IsValid}

abbrev number_shape : ℕ → Shape ℕ ℕ
number_shape n = if n == 0 then null else number n

abbrev number_cmp : ℕ → ℕ → Ordering
number_cmp a b = if ltb a b then less else if a == b then equal else greater

-- Zero is `null`, and the other numbers are numbers.
abbrev pub numbers : Json ℕ
numbers = record {
  Number = ℕ;
  Float = ℕ;
  shape = number_shape;
  null_value = 0;
  get = λ v key. none;
  eq = λ a b. a == b;
  as_f64 = λ n. some n;
  partial_cmp = λ a b. some (number_cmp a b);
  null_value-shape = refl;
}

abbrev pub in_table_order : Planner
in_table_order = record { objects = λ os. os; heads = λ hs. hs }

pub in_table_order-IsFaithful : IsFaithful in_table_order
in_table_order-IsFaithful = record { objects_kept = λ os o. refl; heads_kept = λ rows o r. refl }

-- What client 2 asks for.
abbrev asked : PullRequest ℕ
asked = record { since = none; object_types = none; created_at = none; filter = none }

abbrev other : AuthInfo
other = record { client_id = 2; user_id = 9; roles = [] }

get_object-leaves_example :
    AnswersLeaves numbers in_table_order
      (λ rows. rows)
      5
      small
      (run (get_object numbers in_table_order (λ rows. rows) 5) (idle small))
get_object-leaves_example =
    get_object-leaves numbers in_table_order (λ rows. rows) 5 small in_table_order-IsFaithful
      small-IsValid (λ rows r. refl)
