-- ===== src/Common/Sorting/Tests.antt =====
-- A sorted list passes the same Boolean tests.
use ezra.Common.Tests.{Bool-cases}
use ezra.Common.Lists.{any}
use ezra.Common.Sorting.{insert_sorted, sort}
use mathlib.Core.Path.{◌≡◌, refl, ◌∙◌, ap}
use mathlib.Core.Bool.{Bool, ◌||◌}
use mathlib.Core.Logic.{inl, inr}
use mathlib.Core.List.{List, [], ◌∷◌}
use native.Mathlib.Omega.{arith}

module _ {ℓ} {A : Type ℓ} (le : A → A → Bool) (p : A → Bool) where
  any-insert_sorted : (x : A) (ys : List A) → any p (insert_sorted le x ys) ≡ any p (x ∷ ys)
  unfolding insert_sorted
  any-insert_sorted x [] = refl
  any-insert_sorted x (y ∷ ys) = elim (Bool-cases (le x y)) [
    | inl h ↦ rw h refl
    | inr h ↦ rw (h, any-insert_sorted x ys) (ground arith)
  ]

  pub any-sort : (xs : List A) → any p (sort le xs) ≡ any p xs
  unfolding sort
  any-sort [] = refl
  any-sort (x ∷ xs) = any-insert_sorted x (sort le xs) ∙ ap (λ b. p x || b) (any-sort xs)
