-- ===== src/Quiz/Services/Pins.antt =====
-- How the drawing of a pin in `LiveSession.save` ends.
use umclick.Common.{
  ℕ, zero, suc, ◌+◌, ◌<◌, ◌==◌, ◌≡◌, refl, ap, ◌∙◌, Bool, true, false, List, any, Bool-cases, inl,
  inr, Result, ok, err, arith, if◌then◌else◌,
}
use umclick.Quiz.Refusals.{Refusal, no_free_pin, integrity_error}
use umclick.Quiz.Services.{place_pin}

module _ (draws : ℕ → ℕ) (open_pins : List ℕ) where
  abbrev pub taken : ℕ → Bool
  taken p = any (λ q. q == p) open_pins

  -- So many draws from the draw `i` are all taken.
  abbrev pub AllTaken : ℕ → ℕ → Type 0
  AllTaken zero i = Unit {0}
  AllTaken (suc n) i = (taken (draws i) ≡ true) × AllTaken n (suc i)

  -- The first free one of so many draws.
  abbrev pub FirstFree : ℕ → ℕ → ℕ → Type 0
  FirstFree n i p = (k : ℕ) × (k < n) × (p ≡ draws (i + k)) × (taken p ≡ false) × AllTaken k i

  abbrev pub PinEnds : Bool → ℕ → ℕ → Result Refusal ℕ → Type 0
  PinEnds used n i (ok p) = (used ≡ false) × FirstFree n i p
  PinEnds used n i (err no_free_pin) = AllTaken n i
  PinEnds used n i (err integrity_error) = (used ≡ true) × (p : ℕ) × FirstFree n i p
  PinEnds used n i (err _) = ⊥

  later_free : (n i p : ℕ) → taken (draws i) ≡ true → FirstFree n (suc i) p → FirstFree (suc n) i p
  later_free n i p t (k, lt, e, free, all) =
      (suc k, omega (arith, lt), e ∙ ap draws (omega arith), free, (t, all))

  later :
      (used : Bool) (n i : ℕ) (r : Result Refusal ℕ)
      → taken (draws i) ≡ true
      → PinEnds used n (suc i) r
      → PinEnds used (suc n) i r
  later used n i (ok p) t h = (h.0, later_free n i p t h.1)
  later used n i (err no_free_pin) t h = (t, h)
  later used n i (err integrity_error) t (u, p, free) = (u, p, later_free n i p t free)
  later used n i (err _) t h = elim h [ ]

  at_once : (n i : ℕ) → taken (draws i) ≡ false → FirstFree (suc n) i (draws i)
  at_once n i e = (0, omega arith, ap draws (omega arith), e, tt)

  -- The drawing of a pin, with `n` draws left from the draw `i`, ends with the first of them that no open
  -- session has. If all are taken it gives up, and if the token is used it fails at the first free one.
  pub place_pin-ends :
      (used : Bool) (n i : ℕ) → PinEnds used n i (place_pin draws open_pins used n i)
  unfolding place_pin
  place_pin-ends used zero i = tt
  place_pin-ends used (suc n) i = elim (Bool-cases (taken (draws i))) [
    | inl e ↦ rw e (
        later used n i (place_pin draws open_pins used n (suc i)) e (place_pin-ends used n (suc i)))
    | inr e ↦ rw e (placed e used)
  ]
    where
      placed :
          taken (draws i) ≡ false
          → (b : Bool) → PinEnds b (suc n) i (if b then err integrity_error else ok (draws i))
      placed e true = (refl, draws i, at_once n i e)
      placed e false = (refl, at_once n i e)
