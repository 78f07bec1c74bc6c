-- ===== src/Prelude/Keys.antt =====
-- Lists of numeric keys: the test of `contains`, sets and maps as the source's `HashSet` and
-- `HashMap`, and lists with no key twice.
use Prim.Native.Nat.{ℕ, ◌≤◌, ◌+◌}
use mathlib.Core.Logic.{◌⊎◌, inl, inr}
use mathlib.Core.Path.{◌≡◌, refl}
use mathlib.Core.Bool.{Bool, false, ◌||◌}
use mathlib.Core.Option.{Option, none, some}
use mathlib.Core.List.{List, [], ◌∷◌, ◌++◌, map}
use native.Mathlib.Omega.{arith}
use rustend.Prelude.Tests.{◌==◌, if◌then◌else◌, Bool-cases}
use rustend.Prelude.Lists.{length, keep}

abbrev pub contains : ℕ → List ℕ → Bool
contains k [] = false
contains k (x ∷ xs) = k == x || contains k xs

-- `HashSet::insert`, and the set of an iterator's items.
abbrev pub insert : ℕ → List ℕ → List ℕ
insert k xs = if contains k xs then xs else k ∷ xs

unfoldable pub to_set : List ℕ → List ℕ
to_set [] = []
to_set (x ∷ xs) = insert x (to_set xs)

abbrev pub Distinct : List ℕ → Type 0
Distinct [] = Unit
Distinct (x ∷ xs) = (contains x xs ≡ false) × Distinct xs

pub contains-append :
    (k : ℕ) (xs ys : List ℕ) → contains k (xs ++ ys) ≡ (contains k xs || contains k ys)
contains-append k [] ys = refl
contains-append k (x ∷ xs) ys = ground (arith, contains-append k xs ys)

pub contains-to_set : (k : ℕ) (xs : List ℕ) → contains k (to_set xs) ≡ contains k xs
unfolding to_set
contains-to_set k [] = refl
contains-to_set k (x ∷ xs) = ground (arith, contains-to_set k xs, contains-to_set x xs)

pub length-to_set-le : (xs : List ℕ) → length (to_set xs) ≤ length xs
unfolding to_set
length-to_set-le [] = omega arith
length-to_set-le (x ∷ xs) = ground (arith, length-to_set-le xs)

-- A list has as many items as its set exactly if no item stands twice.
pub Distinct-of_length : (xs : List ℕ) → length (to_set xs) ≡ length xs → Distinct xs
unfolding to_set
Distinct-of_length [] h = tt
Distinct-of_length (x ∷ xs) h =
    ground (arith, length-to_set-le xs, contains-to_set x xs, Distinct-of_length xs)

pub length-to_set : (xs : List ℕ) → Distinct xs → length (to_set xs) ≡ length xs
unfolding to_set
length-to_set [] h = refl
length-to_set (x ∷ xs) h = ground (arith, contains-to_set x xs, length-to_set xs h.1)

-- `HashMap::insert` and `HashMap::get`: the last value put under a key is found.
module _ {ℓ} {V : Type ℓ} where
  abbrev pub put : ℕ → V → List (ℕ × V) → List (ℕ × V)
  put k v m = (k, v) ∷ m

  abbrev pub lookup : ℕ → List (ℕ × V) → Option V
  lookup k [] = none
  lookup k ((j, v) ∷ m) = if k == j then some v else lookup k m

  abbrev pub or_else : Option V → Option V → Option V
  or_else (some v) d = some v
  or_else none d = d

pub Distinct-cases : (xs : List ℕ) → Distinct xs ⊎ ¬ Distinct xs
Distinct-cases [] = inl tt
Distinct-cases (x ∷ xs) = elim (Distinct-cases xs) [
  | inl rest ↦ elim (Bool-cases (contains x xs)) [
    | inl again ↦ inr (λ d. cc (again, d.0))
    | inr once ↦ inl (once, rest)
  ]
  | inr not_rest ↦ inr (λ d. not_rest d.1)
]

-- How often a key stands in a list.
abbrev pub count : ℕ → List ℕ → ℕ
count k [] = 0
count k (x ∷ xs) = (if k == x then 1 else 0) + count k xs

pub count-append : (k : ℕ) (xs ys : List ℕ) → count k (xs ++ ys) ≡ count k xs + count k ys
count-append k [] ys = omega arith
count-append k (x ∷ xs) ys = omega (arith, count-append k xs ys)

-- Of distinct keys, those that a test keeps are distinct.
module _ {ℓ} {A : Type ℓ} (key : A → ℕ) (p : A → Bool) where
  contains-map-keep :
      (k : ℕ) (xs : List A)
      → contains k (map key xs) ≡ false
      → contains k (map key (keep p xs)) ≡ false
  contains-map-keep k [] h = refl
  contains-map-keep k (x ∷ xs) h = ground (arith, h, contains-map-keep k xs)

  pub Distinct-map-keep : (xs : List A) → Distinct (map key xs) → Distinct (map key (keep p xs))
  Distinct-map-keep [] d = tt
  Distinct-map-keep (x ∷ xs) d = elim (Bool-cases (p x)) [
    | inl stays ↦ rw stays (contains-map-keep (key x) xs d.0, Distinct-map-keep xs d.1)
    | inr gone ↦ rw gone (Distinct-map-keep xs d.1)
  ]
