-- ===== src/Core/Content.antt =====
-- rustend-core/src/content.rs
use rustend.Prelude.{Bool, true, false, Option, none, some, ◌≡◌, refl, ◌⊎◌, inl, inr}

pub data Content (V : Type 0) : Type 0 where
  active : V → Content V
  deleted : Content V

module _ {V : Type 0} where
  abbrev is_deleted : Content V → Bool
  is_deleted (active v) = false
  is_deleted deleted = true

  abbrev payload : Content V → Option V
  payload (active v) = some v
  payload deleted = none

  pub Content-cases : (c : Content V) → ((v : V) × (c ≡ active v)) ⊎ (c ≡ deleted)
  Content-cases (active v) = inl (v, refl)
  Content-cases deleted = inr refl
