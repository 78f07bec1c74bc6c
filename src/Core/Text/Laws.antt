-- ===== src/Core/Text/Laws.antt =====
-- Equality of texts.
use rustend.Prelude.{true, [], ◌∷◌, ◌≡◌, refl, arith}
use rustend.Core.Ids.{Text}
use rustend.Core.Text.{text_eq}

pub text_eq_refl : (a : Text) → text_eq a a ≡ true
text_eq_refl [] = refl
text_eq_refl (x ∷ a) = ground (arith, text_eq_refl a)

pub text_eq_trans : (a b c : Text) → text_eq a b ≡ true → text_eq b c ≡ true → text_eq a c ≡ true
text_eq_trans [] [] c h g = g
text_eq_trans [] (y ∷ b) c h g = cc
text_eq_trans (x ∷ a) [] c h g = cc
text_eq_trans (x ∷ a) (y ∷ b) [] h g = cc
text_eq_trans (x ∷ a) (y ∷ b) (z ∷ c) h g = ground (arith, h, g, text_eq_trans a b c)

pub text_eq-shared : (a b c : Text) → text_eq a c ≡ true → text_eq b c ≡ true → text_eq a b ≡ true
text_eq-shared [] [] c h g = refl
text_eq-shared [] (y ∷ b) [] h g = cc
text_eq-shared [] (y ∷ b) (z ∷ c) h g = cc
text_eq-shared (x ∷ a) b [] h g = cc
text_eq-shared (x ∷ a) [] (z ∷ c) h g = cc
text_eq-shared (x ∷ a) (y ∷ b) (z ∷ c) h g = ground (arith, h, g, text_eq-shared a b c)

pub text_eq-joined : (a b c : Text) → text_eq a b ≡ true → text_eq a c ≡ true → text_eq b c ≡ true
text_eq-joined [] [] c h g = g
text_eq-joined [] (y ∷ b) c h g = cc
text_eq-joined (x ∷ a) [] c h g = cc
text_eq-joined (x ∷ a) (y ∷ b) [] h g = cc
text_eq-joined (x ∷ a) (y ∷ b) (z ∷ c) h g = ground (arith, h, g, text_eq-joined a b c)

pub text_eq-sym : (a b : Text) → text_eq a b ≡ text_eq b a
text_eq-sym [] [] = refl
text_eq-sym [] (y ∷ b) = refl
text_eq-sym (x ∷ a) [] = refl
text_eq-sym (x ∷ a) (y ∷ b) = ground (arith, text_eq-sym a b)
