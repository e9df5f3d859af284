-- ===== src/Core/RateLimit/Rate.antt =====
-- How many operations one bucket can let through, whatever buckets it is charged with.
use native.Mathlib.Nat.{mul-le-mul_right}
use umclick.Common.{
  ℕ, ◌+◌, ◌-◌, ◌*◌, ◌≤◌, max, ◌≡◌, refl, suc, Bool, true, false, not, Option, none, some, List, [],
  ◌∷◌, All, All-map, arith, ltb, if◌then◌else◌,
}
use umclick.Core.RateLimit.{
  BucketLimit, Buckets, Stored, stored_or_full, refill_stored, charge, all_allowed, token_bucket,
  token_units, capacity_units,
}
use umclick.Core.RateLimit.Bucket.{sub-split, refill_stored-capacity}

-- A call: its moment, and the other buckets that it charges.
abbrev pub Call : Type 0
Call = ℕ × Buckets

-- What the script stores for the first of its buckets.
abbrev pub first_stored : Option Stored → Buckets → Option Stored
first_stored before [] = before
first_stored before ((limit, stored) ∷ rest) = stored

-- How many of the calls, one after another, the bucket of `limit` lets through.
abbrev pub allowed_calls : BucketLimit → Option Stored → List Call → ℕ
allowed_calls limit stored [] = 0
allowed_calls limit stored ((now, others) ∷ calls) =
    let result = token_bucket now ((limit, stored) ∷ others) in
    let later = allowed_calls limit (first_stored stored result.2) calls in
    if result.0 then suc later else later

-- The calls come no later than this.
abbrev pub Until : ℕ → List Call → Type 0
Until end calls = All (λ c. c.0 ≤ end) calls

-- The bucket's clock is not ahead of a moment.
abbrev pub Behind : ℕ → Option Stored → Type 0
Behind end none = Unit {0}
Behind end (some s) = s.last_ms ≤ end

abbrev pub Within : ℕ → ℕ → List Call → Type 0
Within start end calls = All (λ c. (start ≤ c.0) × (c.0 ≤ end)) calls

one_call :
    (refilled n flow : ℕ) (allowed : Bool)
    → (allowed ≡ true → not (ltb refilled token_units) ≡ true)
    → n * token_units ≤ (if allowed then refilled - token_units else refilled) + flow
    → (if allowed then suc n else n) * token_units ≤ refilled + flow
one_call refilled n flow true ready bound = omega (arith, enough (ready refl), bound)
  where
    enough : not (ltb refilled token_units) ≡ true → token_units ≤ refilled
    enough e = ground arith
one_call refilled n flow false ready bound = bound

module _ (limit : BucketLimit) (end : ℕ) where
  -- From a stored bucket, no more than what it holds and what flows in until the end.
  allowed_calls-stored :
      (s : Stored) (calls : List Call)
      → s.last_ms ≤ end
      → Until end calls
      → allowed_calls limit (some s) calls * token_units
        ≤ s.tokens + (end - s.last_ms) * limit.refill_units_per_ms
  unfolding token_bucket
  allowed_calls-stored s [] h k = omega arith
  allowed_calls-stored s ((now, others) ∷ calls) h k =
      let allowed = all_allowed now ((limit, some s) ∷ others) in
      let after = charge allowed (refill_stored limit now s) in
      omega (
        arith,
        sub-split s.last_ms now end limit.refill_units_per_ms k.0,
        one_call (refill_stored limit now s).tokens (allowed_calls limit (some after) calls)
            ((end - max s.last_ms now) * limit.refill_units_per_ms) allowed (λ e. ground (arith, e))
            (allowed_calls-stored after calls (omega (arith, h, k.0)) k.1),
      )

  first_call :
      (start : ℕ) (stored : Option Stored) (now : ℕ) (others : Buckets) (calls : List Call)
      → (stored_or_full limit now stored).last_ms ≤ end
      → start ≤ now
      → now ≤ end
      → Until end calls
      → allowed_calls limit stored ((now, others) ∷ calls) * token_units
        ≤ capacity_units limit + (end - start) * limit.refill_units_per_ms
  unfolding token_bucket
  first_call start stored now others calls h from till k =
      let s = stored_or_full limit now stored in
      let allowed = all_allowed now ((limit, stored) ∷ others) in
      let after = charge allowed (refill_stored limit now s) in
      omega (
        arith,
        mul-le-mul_right limit.refill_units_per_ms (later s from),
        refill_stored-capacity limit now s,
        one_call (refill_stored limit now s).tokens (allowed_calls limit (some after) calls)
            ((end - max s.last_ms now) * limit.refill_units_per_ms) allowed (λ e. ground (arith, e))
            (allowed_calls-stored after calls (omega (arith, h, till)) k),
      )
    where
      later : (s : Stored) → start ≤ now → end - max s.last_ms now ≤ end - start
      later s e = omega (arith, e)

-- The calls that one bucket lets through between two moments cost no more than its capacity and
-- what refills it in between, whatever is stored before, unless by a clock ahead of `end`, and
-- whatever other buckets the calls charge.
pub allowed_calls-rate :
    (limit : BucketLimit) (stored : Option Stored) (start end : ℕ) (calls : List Call)
    → Behind end stored
    → Within start end calls
    → allowed_calls limit stored calls * token_units
      ≤ capacity_units limit + (end - start) * limit.refill_units_per_ms
allowed_calls-rate limit stored start end [] h k = omega arith
allowed_calls-rate limit none start end ((now, others) ∷ calls) h k =
    first_call limit end start none now others calls k.0.1 k.0.0 k.0.1
      (All-map (λ c p. p.1) calls k.1)
allowed_calls-rate limit (some s) start end ((now, others) ∷ calls) h k =
    first_call limit end start (some s) now others calls h k.0.0 k.0.1
      (All-map (λ c p. p.1) calls k.1)
