-- ===== src/Core/Text.antt =====
-- The operations on a `str` that the filters of a pull use, on its bytes.
pub mod Laws
use rustend.Prelude.{
  ℕ, ◌==◌, ltb, if◌then◌else◌, Bool, true, false, ◌&&◌, ◌||◌, Option, none, some, List, [], ◌∷◌,
}
use rustend.Core.Ids.{Text}

-- `std::cmp::Ordering`: -1, 0 and 1 as an `i32`.
pub data Ordering : Type 0 where
  less equal greater : Ordering

abbrev pub text_eq : Text → Text → Bool
text_eq [] [] = true
text_eq [] (_ ∷ _) = false
text_eq (_ ∷ _) [] = false
text_eq (a ∷ s) (b ∷ t) = a == b && text_eq s t

-- `Ord::cmp` of a `str`: by its bytes.
abbrev pub text_cmp : Text → Text → Ordering
text_cmp [] [] = equal
text_cmp [] (_ ∷ _) = less
text_cmp (_ ∷ _) [] = greater
text_cmp (a ∷ s) (b ∷ t) =
    let rest = text_cmp s t in if ltb a b then less else if ltb b a then greater else rest

-- `str::strip_prefix`.
abbrev pub strip_prefix : Text → Text → Option Text
strip_prefix [] s = some s
strip_prefix (_ ∷ _) [] = none
strip_prefix (a ∷ p) (b ∷ s) = let rest = strip_prefix p s in if a == b then rest else none

-- `str::starts_with`, of the text given second.
abbrev pub text_starts_with : Text → Text → Bool
text_starts_with s p = elim (strip_prefix p s) [ none ↦ false | some _ ↦ true ]

-- `str::contains` of a `str`.
abbrev pub has_part : Text → Text → Bool
has_part [] p = text_starts_with [] p
has_part (a ∷ s) p = text_starts_with (a ∷ s) p || has_part s p

abbrev pub onto_first : ℕ → List Text → List Text
onto_first a [] = (a ∷ []) ∷ []
onto_first a (piece ∷ pieces) = (a ∷ piece) ∷ pieces

-- `str::split` on a byte.
abbrev pub split : ℕ → Text → List Text
split c [] = [] ∷ []
split c (a ∷ s) = let pieces = split c s in if a == c then [] ∷ pieces else onto_first a pieces

-- `str::trim_end_matches` of a byte.
abbrev pub trim_end : ℕ → Text → Text
trim_end c [] = []
trim_end c (a ∷ s) = elim (trim_end c s) [
  | [] ↦ if a == c then [] else a ∷ []
  | b ∷ rest ↦ a ∷ b ∷ rest
]
