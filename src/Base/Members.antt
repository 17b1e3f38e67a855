-- ===== src/Base/Members.antt =====
-- What holds of each element of a list, and what is one of them.
use mathlib.Core.Path.{◌≡◌, refl}
use mathlib.Core.Logic.{◌⊎◌, inl, inr}
use mathlib.Core.List.{List, [], ◌∷◌}

module _ {A : Type 0} where
  abbrev pub Each : (A → Type 0) → List A → Type 0
  Each P [] = Unit
  Each P (x ∷ xs) = P x × Each P xs

  abbrev pub OneOf : A → List A → Type 0
  OneOf a [] = ⊥
  OneOf a (x ∷ xs) = (a ≡ x) ⊎ OneOf a xs

  -- All elements of a list are elements of it.
  pub Each-OneOf :
      (xs all : List A) → ((x : A) → OneOf x xs → OneOf x all) → Each (λ x. OneOf x all) xs
  Each-OneOf [] all into = tt
  Each-OneOf (x ∷ xs) all into = (into x (inl refl), Each-OneOf xs all λ y h. into y (inr h))
