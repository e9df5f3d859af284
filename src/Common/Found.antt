-- ===== src/Common/Found.antt =====
-- What the first entry that passes a test says of other searches.
use mathlib.Core.Path.{◌≡◌, refl, sym, ap, ◌∙◌}
use mathlib.Core.Logic.{inl, inr}
use mathlib.Core.Bool.{Bool, true, false, ◌||◌}
use mathlib.Core.List.{List, [], ◌∷◌, ◌++◌}
use mathlib.Core.Option.{some}
use Prim.Native.Nat.{ℕ}
use native.Mathlib.Omega.{arith}
use umclick.Common.Tests.{◌==◌, Bool-cases}
use umclick.Common.Lists.{find, any, keep}

or_true : (a : Bool) → (a || true) ≡ true
or_true true = refl
or_true false = refl

module _ {ℓ} {A : Type ℓ} where
  some_inj : (x y : A) → some x ≡ some y → x ≡ y
  some_inj x y h = cc

  -- What is found passes the test.
  pub find-test : (p : A → Bool) (xs : List A) (x : A) → find p xs ≡ some x → p x ≡ true
  find-test p [] x e = absurd (cc)
  find-test p (y ∷ ys) x e = elim (Bool-cases (p y)) [
    | inl h ↦ ap p (sym (some_inj y x (rw h at e))) ∙ h
    | inr h ↦ find-test p ys x (rw h at e)
  ]

  pub any-find :
      (p q : A → Bool) (xs : List A) (x : A) → find p xs ≡ some x → q x ≡ true → any q xs ≡ true
  any-find p q [] x e h = absurd (cc)
  any-find p q (y ∷ ys) x e h = elim (Bool-cases (p y)) [
    | inl k ↦ rw (ap q (some_inj y x (rw k at e)) ∙ h) refl
    | inr k ↦ rw (any-find p q ys x (rw k at e) h) (or_true (q y))
  ]

  -- A narrower test that it passes too finds the same entry.
  pub find-narrow :
      (p q : A → Bool) (xs : List A) (x : A)
      → ((y : A) → p y ≡ false → q y ≡ false)
      → find p xs ≡ some x
      → q x ≡ true
      → find q xs ≡ some x
  find-narrow p q [] x f e h = absurd (cc)
  find-narrow p q (y ∷ ys) x f e h = elim (Bool-cases (p y)) [
    | inl k ↦ let same = some_inj y x (rw k at e) in rw (ap q same ∙ h) (ap some same)
    | inr k ↦ rw (f y k) (find-narrow p q ys x f (rw k at e) h)
  ]

pub keep-append {ℓ} :
    {A : Type ℓ} (p : A → Bool) (xs ys : List A) → keep p (xs ++ ys) ≡ keep p xs ++ keep p ys
keep-append p [] ys = refl
keep-append p (x ∷ xs) ys = elim (Bool-cases (p x)) [
  | inl e ↦ rw e (ap (λ zs. x ∷ zs) (keep-append p xs ys))
  | inr e ↦ rw e (keep-append p xs ys)
]

pub eq_same : (n m : ℕ) → n ≡ m → (n == m) ≡ true
eq_same n m h = ground (arith, h)
