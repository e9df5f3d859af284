-- ===== src/Core/Tests.antt =====
-- Buckets of one and two limits, on which the theorems on quotas are applied.
use umclick.Common.{
  ◌+◌, ◌-◌, ◌*◌, ◌≤◌, ◌≡◌, refl, leb, true, false, none, some, List, [], ◌∷◌, ok, err, arith,
}
use umclick.Core.RateLimit.{
  BucketLimit, Buckets, Stored, token_units, capacity_units, token_bucket, check, limit_per_minute,
  enforce_rate_limits, rate_limit_exceeded,
}
use umclick.Core.RateLimit.Retry.{token_bucket-retry, token_bucket-refused}
use umclick.Core.RateLimit.Rate.{Call, allowed_calls, allowed_calls-rate}
use umclick.Core.RateLimit.Check.{enforce_rate_limits-retry}

-- Thirty requests a minute, five at once.
abbrev slow : BucketLimit
slow = record {
  operation = 1 ∷ [];
  subject = 7 ∷ [];
  refill_units_per_ms = 30;
  capacity_operations = 5;
}

abbrev fast : BucketLimit
fast = record {
  operation = 2 ∷ [];
  subject = 7 ∷ [];
  refill_units_per_ms = 600;
  capacity_operations = 20;
}

slow_test : limit_per_minute (1 ∷ []) (7 ∷ []) 30 5 ≡ ok slow
unfolding limit_per_minute
slow_test = refl

abbrev nearly_empty : Stored
nearly_empty = record { tokens = 30_000; last_ms = 10_000 }

abbrev drained : Buckets
drained = (slow, some nearly_empty) ∷ (fast, none) ∷ []

drained_test : ((token_bucket 10_000 drained).0 ≡ false) × ((token_bucket 10_000 drained).1 ≡ 1_000)
unfolding token_bucket
drained_test = (refl, refl)

token_bucket-retry_example :
    (token_bucket 10_999 (token_bucket 10_000 drained).2).0
    ≡ leb (10_000 + (token_bucket 10_000 drained).1) 10_999
token_bucket-retry_example =
    token_bucket-retry 10_000 10_999 drained (omega arith)
      ((omega arith, omega arith), ((omega arith, omega arith), tt)) drained_test.0

token_bucket-refused_example :
    token_bucket 10_500 (token_bucket 10_000 drained).2 ≡ token_bucket 10_500 drained
token_bucket-refused_example =
    token_bucket-refused 10_000 10_500 drained (omega arith) drained_test.0

enforced_test : (enforce_rate_limits true true 10_000 drained).1 ≡ err (rate_limit_exceeded 1)
unfolding enforce_rate_limits check token_bucket
enforced_test = refl

enforce_rate_limits-retry_example :
    (enforce_rate_limits true true 11_000 (enforce_rate_limits true true 10_000 drained).0).1
    ≡ ok tt
enforce_rate_limits-retry_example =
    enforce_rate_limits-retry 10_000 11_000 1 (slow, some nearly_empty) ((fast, none) ∷ [])
      ((omega arith, omega arith), ((omega arith, omega arith), tt)) enforced_test (omega arith)

abbrev burst : List Call
burst = (10_000, []) ∷ (10_001, (fast, none) ∷ []) ∷ (12_000, []) ∷ []

allowed_calls-rate_example :
    allowed_calls slow (some nearly_empty) burst * token_units
    ≤ capacity_units slow + (12_000 - 10_000) * 30
allowed_calls-rate_example =
    allowed_calls-rate slow (some nearly_empty) 10_000 12_000 burst (omega arith)
      ((omega arith, omega arith), ((omega arith, omega arith), ((omega arith, omega arith), tt)))
