-- ===== src/Session/Results/Rearranged.antt =====
-- `order_by` changes the order of a list alone.
use mathlib.Core.List.{Permᴰ}
use umclick.Common.{refl, Bool, inl, inr, List, [], ◌∷◌, insert_by, order_by, Bool-cases}

module _ {ℓ} {A : Type ℓ} (le : A → A → Bool) where
  same : (xs : List A) → Permᴰ xs xs
  same [] = Permᴰ.nil
  same (x ∷ xs) = Permᴰ.cons refl (same xs)

  insert_by-Perm : (x : A) (xs : List A) → Permᴰ (insert_by le x xs) (x ∷ xs)
  insert_by-Perm x [] = same (x ∷ [])
  insert_by-Perm x (y ∷ ys) = elim (Bool-cases (le x y)) [
    | inl e ↦ rw e (same (x ∷ y ∷ ys))
    | inr e ↦ rw e (Permᴰ.trans (Permᴰ.cons refl (insert_by-Perm x ys)) (Permᴰ.swap refl refl))
  ]

  pub order_by-Perm : (xs : List A) → Permᴰ (order_by le xs) xs
  order_by-Perm [] = Permᴰ.nil
  order_by-Perm (x ∷ xs) =
      Permᴰ.trans (insert_by-Perm x (order_by le xs)) (Permᴰ.cons refl (order_by-Perm xs))
