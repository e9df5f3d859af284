-- ===== src/Core/RateLimit/Bucket.antt =====
-- One bucket over time: a refusal is invisible, waiting fills the bucket, and a hash may expire.
use native.Mathlib.Nat.{div-lt_iff_lt-mul, div-add-mod, mod-lt, mul-le-mul_right}
use umclick.Common.{
  ℕ, ◌⊎◌, ◌+◌, ◌-◌, ◌*◌, ◌/◌, ◌≤◌, ◌<◌, min, max, suc, ◌≡◌, refl, ap, ◌∙◌, leb, ltb, true, false,
  not, Option, none, some, inl, inr, ◌↔◌, Bool-cases, arith,
}
use umclick.Core.RateLimit.{
  BucketLimit, token_units, ceil_div, capacity_units, ttl_ms, Stored, BucketState, stored_or_full,
  refill_stored, refill, is_short, bucket_retry_ms, charge,
}

-- A difference of moments is split at a moment between them.
pub sub-split : (l t t' r : ℕ) → t ≤ t' → (t' - l) * r ≡ (t - l) * r + (t' - max l t) * r
sub-split l t t' r h = ap (λ n. n * r) split ∙ omega arith
  where
    split : t' - l ≡ (t - l) + (t' - max l t)
    split = omega (arith, h)

div-lt : (z b n : ℕ) → 1 ≤ b → z < suc n * b → z / b < suc n
div-lt z b n h k = (div-lt_iff_lt-mul {k = b} {x = z} {y = suc n} h).1 k

div-bounds : (z b : ℕ) → 1 ≤ b → (b * (z / b) ≤ z) × (z < b * (z / b) + b)
div-bounds z b h =
    (omega (arith, div-add-mod z b), omega (arith, div-add-mod z b, mod-lt z {m = b} h))

pub ceil_div-le : (a b n : ℕ) → 1 ≤ b → (ceil_div a b ≤ n) ↔ (a ≤ n * b)
ceil_div-le a b n h = (
  λ k. omega (arith, h, mul-le-mul_right b k, div-bounds (a + (b - 1)) b h),
  λ k. omega (arith, div-lt (a + (b - 1)) b n h (omega (arith, h, k))),
)

abbrev bucket_state : ℕ → ℕ → ℕ → ℕ → BucketState
bucket_state x l r f = record { tokens = x; last_ms = l; refill_per_ms = r; future_wait_ms = f }

bucket_state_eq :
    (x y l m r f g : ℕ) → x ≡ y → l ≡ m → f ≡ g → bucket_state x l r f ≡ bucket_state y m r g
bucket_state_eq x y l m r f g a b c = rw (a, b, c) refl

-- Refilling twice is refilling once, whatever is stored.
pub refill-refill :
    (limit : BucketLimit) (stored : Option Stored) (t t' : ℕ)
    → t ≤ t'
    → refill limit t' (some (charge false (refill limit t stored))) ≡ refill limit t' stored
refill-refill limit none t t' h =
    bucket_state_eq _ _ _ _ _ _ _ (omega arith) (omega (arith, h)) (omega (arith, h))
refill-refill limit (some s) t t' h =
    bucket_state_eq _ _ _ _ _ _ _
      (omega (arith, sub-split s.last_ms t t' limit.refill_units_per_ms h)) (omega (arith, h))
      (omega (arith, h))

pub refill_stored-capacity :
    (limit : BucketLimit) (now : ℕ) (s : Stored)
    → (refill_stored limit now s).tokens ≤ capacity_units limit
refill_stored-capacity limit now s = omega arith

waited : (x c r n : ℕ) → 1 ≤ r → x < c → (c ≤ x + n * r) ↔ (ceil_div (c - x) r ≤ n)
waited x c r n h k =
    let (up, down) = ceil_div-le (c - x) r n h in
    (λ e. down (omega (arith, e)), λ e. omega (arith, k, up e))

ceil_div-pos : (a b : ℕ) → 1 ≤ a → 1 ≤ b → 1 ≤ ceil_div a b
ceil_div-pos a b h k = elim (leb-or a b) [
  | inl z ↦ omega (arith, (ceil_div-le a b 0 k).0 z, h)
  | inr p ↦ p
]
  where
    leb-or : (a b : ℕ) → (ceil_div a b ≤ 0) ⊎ (1 ≤ ceil_div a b)
    leb-or a b = ground arith

not-ltb : (y c m k : ℕ) → ((c ≤ y) → m ≤ k) × ((m ≤ k) → c ≤ y) → not (ltb y c) ≡ leb m k
not-ltb y c m k (up, down) = elim (Bool-cases (ltb y c)) [
  | inl e ↦ ground (arith, e, down)
  | inr e ↦ ground (arith, e, up)
]

-- A short bucket that is not charged is short until its wait is over, and no longer.
pub is_short-wait :
    (limit : BucketLimit) (s : Stored) (t t' : ℕ)
    → t ≤ t'
    → 1 ≤ limit.refill_units_per_ms
    → 1 ≤ limit.capacity_operations
    → is_short (refill_stored limit t s) ≡ true
    → not (is_short (refill limit t' (some (charge false (refill_stored limit t s)))))
      ≡ leb (t + bucket_retry_ms (refill_stored limit t s)) t'
is_short-wait limit s t t' h rate room short =
    let x = (refill_stored limit t s).tokens in
    let n = t' - max s.last_ms t in
    let below = short_lt x short in
    let (up, down) = waited x token_units limit.refill_units_per_ms n rate below in
    let pos =
      ceil_div-pos (token_units - x) limit.refill_units_per_ms (omega (arith, below)) rate in
    not-ltb (min (capacity_units limit) (x + n * limit.refill_units_per_ms)) token_units
      (t + bucket_retry_ms (refill_stored limit t s)) t'
      (λ e. ready (up (omega (arith, e))) pos, λ e. omega (arith, room, down (omega (arith, e))))
  where
    short_lt : (x : ℕ) → ltb x token_units ≡ true → x < token_units
    short_lt x e = ground arith

    ready : {w : ℕ} → w ≤ t' - max s.last_ms t → 1 ≤ w → t + (s.last_ms - t + w) ≤ t'
    ready e p = omega (arith, e, p, h)

-- A bucket that is not short stays so while nothing is charged.
pub is_short-later :
    (limit : BucketLimit) (stored : Option Stored) (t t' : ℕ)
    → t ≤ t'
    → 1 ≤ limit.refill_units_per_ms
    → is_short (refill limit t stored) ≡ false
    → is_short (refill limit t' (some (charge false (refill limit t stored)))) ≡ false
is_short-later limit stored t t' h rate e =
    later (refill limit t stored).tokens
      ((t' - (refill limit t stored).last_ms) * limit.refill_units_per_ms)
      (refill_stored-capacity limit t (stored_or_full limit t stored)) e
  where
    later :
        (x k : ℕ)
        → x ≤ capacity_units limit
        → ltb x token_units ≡ false
        → ltb (min (capacity_units limit) (x + k)) token_units ≡ false
    later x k a b = ground arith

-- The hash expires no earlier than its bucket is full again: what a missing hash stands for.
refill-expired :
    (limit : BucketLimit) (s : Stored) (now : ℕ)
    → 1 ≤ limit.refill_units_per_ms
    → s.last_ms + ttl_ms limit ≤ now
    → refill limit now (some s) ≡ refill limit now none
refill-expired limit s now rate h =
    full
      (omega (
        arith,
        (ceil_div-le (capacity_units limit) limit.refill_units_per_ms (now - s.last_ms) rate).0
            (omega (arith, h)),
      ))
      (omega (arith, h))
  where
    full :
        capacity_units limit ≤ (now - s.last_ms) * limit.refill_units_per_ms
        → s.last_ms ≤ now
        → refill limit now (some s) ≡ refill limit now none
    full a b =
        bucket_state_eq _ _ _ _ _ _ _ (omega (arith, a)) (omega (arith, b)) (omega (arith, b))
