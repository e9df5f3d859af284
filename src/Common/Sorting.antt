-- ===== src/Common/Sorting.antt =====
-- What `order_by` leaves as it is: a list in order, and searches that do not see the order.
use Prim.Native.Nat.{ℕ, ◌<◌}
use mathlib.Core.Path.{◌≡◌, refl, sym, ap, ◌∙◌}
use mathlib.Core.Logic.{◌≢◌, inl, inr}
use mathlib.Core.Bool.{Bool, true, false, ◌||◌}
use mathlib.Core.List.{List, [], ◌∷◌, map}
use mathlib.Core.Option.{some}
use native.Mathlib.Omega.{arith}
use umclick.Common.Tests.{◌==◌, ltb, if◌then◌else◌, Bool-cases}
use umclick.Common.Lists.{
  find, any, All, All-map, All-insert_by, All-order_by, insert_by, order_by, DistinctBy,
}

module _ {ℓ} {A : Type ℓ} where
  -- Every entry comes before all that follow it.
  abbrev pub OrderedBy : (A → A → Bool) → List A → Type 0
  OrderedBy le [] = Unit {0}
  OrderedBy le (x ∷ xs) = All (λ y. le x y ≡ true) xs × OrderedBy le xs

  pub order_by-ordered : (le : A → A → Bool) (xs : List A) → OrderedBy le xs → order_by le xs ≡ xs
  order_by-ordered le [] h = refl
  order_by-ordered le (x ∷ []) h = refl
  order_by-ordered le (x ∷ y ∷ ys) h = rw (order_by-ordered le (y ∷ ys) h.1) (rw h.0.0 refl)

  any-insert_by :
      (p : A → Bool) (le : A → A → Bool) (x : A) (xs : List A)
      → any p (insert_by le x xs) ≡ (p x || any p xs)
  any-insert_by p le x [] = refl
  any-insert_by p le x (y ∷ ys) = ground (arith, any-insert_by p le x ys)

  pub any-order_by :
      (p : A → Bool) (le : A → A → Bool) (xs : List A) → any p (order_by le xs) ≡ any p xs
  any-order_by p le [] = refl
  any-order_by p le (x ∷ xs) =
      any-insert_by p le x (order_by le xs) ∙ ap (λ b. p x || b) (any-order_by p le xs)

  find-insert_by :
      (key : A → ℕ) (k : ℕ) (le : A → A → Bool) (x : A) (xs : List A)
      → All (λ y. key y ≢ key x) xs
      → find (λ y. key y == k) (insert_by le x xs) ≡ find (λ y. key y == k) (x ∷ xs)
  find-insert_by key k le x [] h = refl
  find-insert_by key k le x (y ∷ ys) h = ground (arith, h.0, find-insert_by key k le x ys h.1)

  -- Keys that are distinct are found wherever they stand.
  pub find-order_by :
      (key : A → ℕ) (k : ℕ) (le : A → A → Bool) (xs : List A)
      → DistinctBy key xs
      → find (λ y. key y == k) (order_by le xs) ≡ find (λ y. key y == k) xs
  find-order_by key k le [] d = refl
  find-order_by key k le (x ∷ xs) d =
      find-insert_by key k le x (order_by le xs) (All-order_by (λ y. key y ≢ key x) le xs d.0)
      ∙ ap (λ o. if key x == k then some x else o) (find-order_by key k le xs d.1)

  -- Numbers that rise strictly along the list.
  abbrev pub RisingBy : (A → ℕ) → List A → Type 0
  RisingBy key [] = Unit {0}
  RisingBy key (x ∷ xs) = All (λ y. key x < key y) xs × RisingBy key xs

  pub RisingBy-DistinctBy : (key : A → ℕ) (xs : List A) → RisingBy key xs → DistinctBy key xs
  RisingBy-DistinctBy key [] h = tt
  RisingBy-DistinctBy key (x ∷ xs) h =
      (All-map (λ y lt. omega arith) xs h.0, RisingBy-DistinctBy key xs h.1)

  RisingBy-insert_by :
      (key : A → ℕ) (le : A → A → Bool) (x : A) (xs : List A)
      → ((a b : A) → key a ≢ key b → le a b ≡ ltb (key a) (key b))
      → All (λ y. key y ≢ key x) xs
      → RisingBy key xs
      → RisingBy key (insert_by le x xs)
  RisingBy-insert_by key le x [] agree h r = (tt, tt)
  RisingBy-insert_by key le x (y ∷ ys) agree h r = elim (Bool-cases (le x y)) [
    | inl e ↦
        let below : key x < key y = lower x y h.0 (sym (agree x y (λ p. h.0 (sym p))) ∙ e) in
        rw e ((below, All-map (λ z lt. omega arith) ys r.0), r)
    | inr e ↦
        let above : key y < key x = higher x y h.0 (sym (agree x y (λ p. h.0 (sym p))) ∙ e) in
        rw e (
          All-insert_by (λ z. key y < key z) le x ys above r.0,
          RisingBy-insert_by key le x ys agree h.1 r.1,
        )
  ]
    where
      lower : (x y : A) → key y ≢ key x → ltb (key x) (key y) ≡ true → key x < key y
      lower x y n t = ground arith

      higher : (x y : A) → key y ≢ key x → ltb (key x) (key y) ≡ false → key y < key x
      higher x y n t = ground arith

  -- Sorting by a key that tells the entries apart.
  pub RisingBy-order_by :
      (key : A → ℕ) (le : A → A → Bool) (xs : List A)
      → ((a b : A) → key a ≢ key b → le a b ≡ ltb (key a) (key b))
      → DistinctBy key xs
      → RisingBy key (order_by le xs)
  RisingBy-order_by key le [] agree d = tt
  RisingBy-order_by key le (x ∷ xs) agree d =
      RisingBy-insert_by key le x (order_by le xs) agree
        (All-order_by (λ y. key y ≢ key x) le xs d.0) (RisingBy-order_by key le xs agree d.1)

  pub RisingBy-ordered :
      (key : A → ℕ) (le : A → A → Bool) (xs : List A)
      → ((a b : A) → key a ≢ key b → le a b ≡ ltb (key a) (key b))
      → RisingBy key xs
      → order_by le xs ≡ xs
  RisingBy-ordered key le xs agree r = order_by-ordered le xs (ordered xs r)
    where
      before : (x y : A) → key x < key y → le x y ≡ true
      before x y lt = agree x y (λ p. omega arith) ∙ ground arith

      ordered : (xs : List A) → RisingBy key xs → OrderedBy le xs
      ordered [] r = tt
      ordered (x ∷ xs) r = (All-map (λ y lt. before x y lt) xs r.0, ordered xs r.1)

module _ {ℓ κ} {A : Type ℓ} {B : Type κ} where
  pub any-map : (p : B → Bool) (f : A → B) (xs : List A) → any p (map f xs) ≡ any (λ x. p (f x)) xs
  any-map p f [] = refl
  any-map p f (x ∷ xs) = ap (λ b. p (f x) || b) (any-map p f xs)

  pub All-mapped {ι} :
      (P : B → Type ι) (f : A → B) (xs : List A) → All (λ x. P (f x)) xs → All P (map f xs)
  All-mapped P f [] h = tt
  All-mapped P f (x ∷ xs) h = (h.0, All-mapped P f xs h.1)

  pub RisingBy-map :
      (key : B → ℕ) (f : A → B) (xs : List A)
      → RisingBy (λ x. key (f x)) xs
      → RisingBy key (map f xs)
  RisingBy-map key f [] h = tt
  RisingBy-map key f (x ∷ xs) h =
      (All-mapped (λ y. key (f x) < key y) f xs h.0, RisingBy-map key f xs h.1)
