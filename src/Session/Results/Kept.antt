-- ===== src/Session/Results/Kept.antt =====
-- What a filter does with the first row of a list.
use umclick.Common.{◌≡◌, refl, Bool, true, false, List, ◌∷◌, keep}

module _ {ℓ} {A : Type ℓ} (p : A → Bool) (x : A) (xs : List A) where
  pub keep-taken : p x ≡ true → x ∷ keep p xs ≡ keep p (x ∷ xs)
  keep-taken e = rw e refl

  pub keep-left_out : p x ≡ false → keep p xs ≡ keep p (x ∷ xs)
  keep-left_out e = rw e refl
