-- ===== src/Server/Db/Pull/Filters.antt =====
-- pull.rs: the filters on a head's creation time and content.
use rustend.Prelude.{ltb, leb, not, Bool, true, false, Option, none, some, List, [], ◌∷◌, any, all}
use rustend.Core.Ids.{Instant, Text}
use rustend.Core.Text.{
  Ordering, less, equal, greater, text_cmp, strip_prefix, text_starts_with, has_part, split,
}
use rustend.Core.Json.{Json, Shape, null, number, string, array}
use rustend.Core.Filter.{CreatedAtFilter, FilterOperator, FilterCondition}

abbrev pub created_at_matches : Instant → CreatedAtFilter → Bool
created_at_matches created_at (CreatedAtFilter.gt t) = ltb t created_at
created_at_matches created_at (CreatedAtFilter.gte t) = leb t created_at
created_at_matches created_at (CreatedAtFilter.lt t) = ltb created_at t
created_at_matches created_at (CreatedAtFilter.lte t) = leb created_at t

unfoldable pub apply_created_at_filters : Instant → List CreatedAtFilter → Bool
apply_created_at_filters created_at filters = all (created_at_matches created_at) filters

-- `"$."` and `'.'`.
abbrev root_prefix : Text
root_prefix = 36 ∷ 46 ∷ []

-- `.map(test).unwrap_or(default)` of the value that a path leads to.
abbrev test_or : {A : Type 0} → Bool → (A → Bool) → Option A → Bool
test_or default test none = default
test_or default test (some a) = test a

abbrev is_null_shape : {V N : Type 0} → Shape V N → Bool
is_null_shape null = true
is_null_shape _ = false

abbrev as_str : {V N : Type 0} → Shape V N → Option Text
as_str (string s) = some s
as_str _ = none

-- The tests `o > 0`, `o >= 0`, `o < 0` and `o <= 0` of an ordering as a number.
abbrev above : Ordering → Bool
above o = elim o [ greater ↦ true | _ ↦ false ]

abbrev at_least : Ordering → Bool
at_least o = elim o [ less ↦ false | _ ↦ true ]

abbrev below : Ordering → Bool
below o = elim o [ less ↦ true | _ ↦ false ]

abbrev at_most : Ordering → Bool
at_most o = elim o [ greater ↦ false | _ ↦ true ]

module _ {V : Type 0} (json : Json V) where
  abbrev compare_numbers : Option json.Float → Option json.Float → Option Ordering
  compare_numbers none _ = none
  compare_numbers (some fx) none = none
  compare_numbers (some fx) (some fy) =
      some (elim (json.partial_cmp fx fy) [ none ↦ equal | some o ↦ o ])

  abbrev compare_shapes : Shape V json.Number → Shape V json.Number → Option Ordering
  compare_shapes (number x) (number y) = compare_numbers (json.as_f64 x) (json.as_f64 y)
  compare_shapes (string x) (string y) = some (text_cmp x y)
  compare_shapes _ _ = none

  abbrev pub compare : V → V → Option Ordering
  compare a b = compare_shapes (json.shape a) (json.shape b)

  abbrev contains_shape : Shape V json.Number → V → Bool
  contains_shape (array arr) needle = any (λ v. json.eq v needle) arr
  contains_shape (string s) needle = test_or false (has_part s) (as_str (json.shape needle))
  contains_shape _ needle = false

  abbrev pub json_contains : V → V → Bool
  json_contains data' needle = contains_shape (json.shape data') needle

  -- The loop over the keys of a path.
  abbrev pub follow : V → List Text → Option V
  follow current [] = some current
  follow current (key ∷ keys) = elim (json.get current key) [
    | none ↦ none
    | some next ↦ follow next keys
  ]

  unfoldable pub resolve_path : V → Text → Option V
  resolve_path data' path =
      follow data'
        (split 46 (elim (strip_prefix root_prefix path) [ none ↦ path | some rest ↦ rest ]))

  -- `value.and_then(|d| compare(d, v)).map(test).unwrap_or(false)`
  abbrev compares : (Ordering → Bool) → Option V → V → Bool
  compares test none v = false
  compares test (some d) v = test_or false test (compare d v)

  abbrev pub evaluate_operator : Option V → FilterOperator V → Bool
  evaluate_operator value FilterOperator.exists = test_or false (λ _. true) value
  evaluate_operator value FilterOperator.is_null =
      test_or false (λ v. is_null_shape (json.shape v)) value
  evaluate_operator value (FilterOperator.eq v) = test_or false (λ d. json.eq d v) value
  evaluate_operator value (FilterOperator.ne v) = test_or true (λ d. not (json.eq d v)) value
  evaluate_operator value (FilterOperator.gt v) = compares above value v
  evaluate_operator value (FilterOperator.gte v) = compares at_least value v
  evaluate_operator value (FilterOperator.lt v) = compares below value v
  evaluate_operator value (FilterOperator.lte v) = compares at_most value v
  evaluate_operator value (FilterOperator.contains v) = test_or false (λ d. json_contains d v) value
  evaluate_operator value (FilterOperator.starts_with s) =
      test_or false (λ d. test_or false (λ s2. text_starts_with s2 s) (as_str (json.shape d))) value

  unfoldable pub evaluate_condition : V → FilterCondition V → Bool
  unfolding resolve_path
  evaluate_condition data' cond = evaluate_operator (resolve_path data' cond.path) cond.operator

  unfoldable pub apply_content_filter : V → List (List (FilterCondition V)) → Bool
  unfolding evaluate_condition
  apply_content_filter data' filter =
      any (λ and_group. all (evaluate_condition data') and_group) filter
