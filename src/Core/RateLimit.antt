-- ===== src/Core/RateLimit.antt =====
-- backend/apps/core/rate_limit.py: token buckets that live in Redis and a script that charges
-- several of them at once or none. Moments are milliseconds of the server's clock. The script
-- computes in doubles, which are exact for whole numbers below 2 ^ 53. Each limit of a call stands
-- with what is stored under its key; the keys of one call are taken to be different.
pub mod Bucket
pub mod Retry
pub mod Rate
pub mod Check
use umclick.Common.{
  ℕ, zero, suc, ◌+◌, ◌-◌, ◌*◌, ◌/◌, ◌%◌, min, max, ltb, ◌==◌, if◌then◌else◌, Bool, true, false, not,
  ◌&&◌, Option, none, some, List, [], ◌∷◌, any, Result, ok, err, ◌>>=◌, ◌>>◌, raise_if,
}
use umclick.Quiz.Model.{Text}

-- `TOKEN_UNITS`, the price of one operation.
abbrev pub token_units : ℕ
token_units = 60_000

pub record BucketLimit : Type 0 where
  pub operation : Text
  pub subject : Text
  pub refill_units_per_ms : ℕ
  pub capacity_operations : ℕ

pub data LimiterError : Type 0 where
  value_error zero_division limiter_unavailable : LimiterError
  -- what `enforce_rate_limits` raises
  rate_limit_exceeded : ℕ → LimiterError
  limiter_service_unavailable : LimiterError

-- `math.ceil(a / b)`
abbrev pub ceil_div : ℕ → ℕ → ℕ
ceil_div a b = (a + (b - 1)) / b

abbrev pub capacity_units : BucketLimit → ℕ
capacity_units limit = limit.capacity_operations * token_units

abbrev pub ttl_ms : BucketLimit → ℕ
ttl_ms limit = max 120_000 (ceil_div (capacity_units limit) limit.refill_units_per_ms * 2)

-- A limit of so many requests in a period of so many milliseconds.
abbrev limit_per : ℕ → Text → Text → ℕ → ℕ → Result LimiterError BucketLimit
limit_per period operation subject requests burst = do
  raise_if (not (requests * token_units % period == 0)) value_error
  ok (record {
    operation = operation;
    subject = subject;
    refill_units_per_ms = requests * token_units / period;
    capacity_operations = burst;
  })

unfoldable pub limit_per_minute : Text → Text → ℕ → ℕ → Result LimiterError BucketLimit
limit_per_minute operation subject requests burst =
    limit_per 60_000 operation subject requests burst

unfoldable pub limit_per_second : Text → Text → ℕ → ℕ → Result LimiterError BucketLimit
limit_per_second operation subject requests burst = limit_per 1_000 operation subject requests burst

-- The hash of one key.
pub record Stored : Type 0 where
  pub tokens : ℕ
  pub last_ms : ℕ

-- An entry of `states`.
pub record BucketState : Type 0 where
  pub tokens : ℕ
  pub last_ms : ℕ
  pub refill_per_ms : ℕ
  pub future_wait_ms : ℕ

-- A missing hash is a full bucket.
abbrev pub stored_or_full : BucketLimit → ℕ → Option Stored → Stored
stored_or_full limit now none = record { tokens = capacity_units limit; last_ms = now }
stored_or_full limit now (some s) = s

abbrev pub refill_stored : BucketLimit → ℕ → Stored → BucketState
refill_stored limit now s = record {
  tokens = min (capacity_units limit) (s.tokens + (now - s.last_ms) * limit.refill_units_per_ms);
  last_ms = max s.last_ms now;
  refill_per_ms = limit.refill_units_per_ms;
  future_wait_ms = s.last_ms - now;
}

-- The first loop of the script, for one key.
abbrev pub refill : BucketLimit → ℕ → Option Stored → BucketState
refill limit now stored = refill_stored limit now (stored_or_full limit now stored)

abbrev pub is_short : BucketState → Bool
is_short s = ltb s.tokens token_units

abbrev pub bucket_retry_ms : BucketState → ℕ
bucket_retry_ms s = s.future_wait_ms + ceil_div (token_units - s.tokens) s.refill_per_ms

-- The limits of a call, each with what is stored under its key.
abbrev pub Buckets : Type 0
Buckets = List (BucketLimit × Option Stored)

abbrev pub all_allowed : ℕ → Buckets → Bool
all_allowed now [] = true
all_allowed now ((limit, stored) ∷ rest) =
    not (is_short (refill limit now stored)) && all_allowed now rest

abbrev pub retry_ms : ℕ → Buckets → ℕ
retry_ms now [] = 0
retry_ms now ((limit, stored) ∷ rest) =
    let later = retry_ms now rest in
    let state = refill limit now stored in
    if is_short state then max (bucket_retry_ms state) later else later

-- The second loop of the script: what it writes for one key.
abbrev pub charge : Bool → BucketState → Stored
charge allowed s = record {
  tokens = if allowed then s.tokens - token_units else s.tokens;
  last_ms = s.last_ms;
}

abbrev pub charge_all : Bool → ℕ → Buckets → Buckets
charge_all allowed now [] = []
charge_all allowed now ((limit, stored) ∷ rest) =
    (limit, some (charge allowed (refill limit now stored))) ∷ charge_all allowed now rest

-- `LUA_TOKEN_BUCKET`: whether the call is allowed, the wait, and what is stored then.
unfoldable pub token_bucket : ℕ → Buckets → Bool × ℕ × Buckets
token_bucket now buckets =
    let allowed = all_allowed now buckets in
    (allowed, retry_ms now buckets, charge_all allowed now buckets)

pub record LimitDecision : Type 0 where
  pub allowed : Bool
  pub retry_after : Option ℕ

abbrev pub decide : Bool → ℕ → LimitDecision
decide true retry = record { allowed = true; retry_after = none }
decide false retry = record { allowed = false; retry_after = some (max 1 (ceil_div retry 1_000)) }

-- `RedisRateLimiter.check`; `available` says whether the server of the quotas answers.
unfoldable pub check : Bool → ℕ → Buckets → Result LimiterError (Buckets × LimitDecision)
check available now [] = ok ([], record { allowed = true; retry_after = none })
check available now (b ∷ rest) = do
  raise_if (any (λ (x : BucketLimit × Option Stored). x.0.refill_units_per_ms == 0) (b ∷ rest))
      zero_division
  raise_if (not available) limiter_unavailable
  let (allowed, retry, after) = token_bucket now (b ∷ rest)
  ok (after, decide allowed retry)

-- `decision.retry_after or 1`
abbrev pub or_one : Option ℕ → ℕ
or_one none = 1
or_one (some zero) = 1
or_one (some (suc n)) = suc n

-- The end of `enforce_rate_limits`: what is stored then, and what is raised.
abbrev enforced :
    Buckets
    → Result LimiterError (Buckets × LimitDecision)
    → Buckets × Result LimiterError (Unit {0})
enforced buckets (err limiter_unavailable) = (buckets, err limiter_service_unavailable)
enforced buckets (err e) = (buckets, err e)
enforced buckets (ok (after, decision)) = (
  after,
  (if decision.allowed then ok tt else err (rate_limit_exceeded (or_one decision.retry_after))),
)

-- `enabled` is the setting RATE_LIMITS_ENABLED.
unfoldable pub enforce_rate_limits :
    Bool → Bool → ℕ → Buckets → Buckets × Result LimiterError (Unit {0})
enforce_rate_limits enabled available now buckets =
    if enabled then enforced buckets (check available now buckets) else (buckets, ok tt)
