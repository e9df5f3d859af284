-- ===== src/Common/Mapped.antt =====
-- Searches, sorts and lookups in a list whose entries are all changed.
use mathlib.Core.Path.{◌≡◌, refl, ap, ◌∙◌}
use mathlib.Core.Logic.{inl, inr}
use mathlib.Core.Bool.{Bool}
use mathlib.Core.List.{List, [], ◌∷◌, map}
use mathlib.Core.Option.{map as option_map}
use umclick.Common.Tests.{Bool-cases}
use umclick.Common.Lists.{find, insert_by, order_by}

module _ {ℓ κ} {A : Type ℓ} {B : Type κ} (f : A → B) where
  pub find-map :
      (p : B → Bool) (xs : List A) → find p (map f xs) ≡ option_map f (find (λ x. p (f x)) xs)
  find-map p [] = refl
  find-map p (x ∷ xs) = elim (Bool-cases (p (f x))) [
    | inl e ↦ rw e refl
    | inr e ↦ rw e (find-map p xs)
  ]

  pub insert_by-map :
      (le : B → B → Bool) (x : A) (xs : List A)
      → insert_by le (f x) (map f xs) ≡ map f (insert_by (λ x y. le (f x) (f y)) x xs)
  insert_by-map le x [] = refl
  insert_by-map le x (y ∷ ys) = elim (Bool-cases (le (f x) (f y))) [
    | inl e ↦ rw e refl
    | inr e ↦ rw e (ap (λ zs. f y ∷ zs) (insert_by-map le x ys))
  ]

  pub order_by-map :
      (le : B → B → Bool) (xs : List A)
      → order_by le (map f xs) ≡ map f (order_by (λ x y. le (f x) (f y)) xs)
  order_by-map le [] = refl
  order_by-map le (x ∷ xs) =
      ap (insert_by le (f x)) (order_by-map le xs)
      ∙ insert_by-map le x (order_by (λ x y. le (f x) (f y)) xs)
