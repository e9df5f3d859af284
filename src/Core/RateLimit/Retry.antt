-- ===== src/Core/RateLimit/Retry.antt =====
-- What the script answers for several buckets, and that its wait is exact.
use umclick.Common.{
  ℕ, ◌+◌, ◌≤◌, max, ◌≡◌, refl, ap, leb, Bool, false, not, ◌&&◌, some, [], ◌∷◌, All, inl, inr,
  Bool-cases, arith, if◌then◌else◌,
}
use umclick.Core.RateLimit.{
  Buckets, BucketState, stored_or_full, refill, refill_stored, is_short, charge, charge_all,
  all_allowed, retry_ms, token_bucket, bucket_retry_ms,
}
use umclick.Core.RateLimit.Bucket.{refill-refill, is_short-wait, is_short-later}

-- Every limit refills, and has room for one operation.
abbrev pub Sensible : Buckets → Type 0
Sensible buckets = All (λ b. (1 ≤ b.0.refill_units_per_ms) × (1 ≤ b.0.capacity_operations)) buckets

wait_both :
    (now now' a b : ℕ) → (leb (now + a) now' && leb (now + b) now') ≡ leb (now + max a b) now'
wait_both now now' a b = ground arith

-- Buckets from which nothing was taken are all ready as soon as the longest wait is over.
all_allowed-later :
    (now now' : ℕ) (buckets : Buckets)
    → now ≤ now'
    → Sensible buckets
    → all_allowed now' (charge_all false now buckets) ≡ leb (now + retry_ms now buckets) now'
all_allowed-later now now' [] h k = ground (arith, h)
all_allowed-later now now' ((limit, stored) ∷ rest) h k =
    let later = all_allowed-later now now' rest h k.1 in
    let s = stored_or_full limit now stored in
    elim (Bool-cases (is_short (refill limit now stored))) [
      | inl short ↦
          rw (short, later, is_short-wait limit s now now' h k.0.0 k.0.1 short)
            (wait_both now now' (bucket_retry_ms (refill_stored limit now s)) (retry_ms now rest))
      | inr ready ↦ rw (is_short-later limit stored now now' h k.0.0 ready, ready, later) refl
    ]

-- A call that the script refuses at `now` with the wait `retry_ms` is, when nothing else charges the
-- buckets, allowed at a later moment `now'` if and only if `now + retry_ms ≤ now'`: the wait is
-- enough, and no part of it can be left out. Every limit has to refill and to have room for one
-- operation.
pub token_bucket-retry :
    (now now' : ℕ) (buckets : Buckets)
    → now ≤ now'
    → Sensible buckets
    → (token_bucket now buckets).0 ≡ false
    → (token_bucket now' (token_bucket now buckets).2).0
      ≡ leb (now + (token_bucket now buckets).1) now'
unfolding token_bucket
token_bucket-retry now now' buckets h k refused =
    rw refused (all_allowed-later now now' buckets h k)

module _ (now now' : ℕ) (h : now ≤ now') where
  all_allowed-refused :
      (buckets : Buckets)
      → all_allowed now' (charge_all false now buckets) ≡ all_allowed now' buckets
  all_allowed-refused [] = refl
  all_allowed-refused ((limit, stored) ∷ rest) = rw (all_allowed-refused rest) (
      ap (λ (s : BucketState). not (is_short s) && all_allowed now' rest)
        (refill-refill limit stored now now' h))

  retry_ms-refused :
      (buckets : Buckets) → retry_ms now' (charge_all false now buckets) ≡ retry_ms now' buckets
  retry_ms-refused [] = refl
  retry_ms-refused ((limit, stored) ∷ rest) = rw (retry_ms-refused rest) (
      ap
        (λ (s : BucketState).
          if is_short s then max (bucket_retry_ms s) (retry_ms now' rest) else retry_ms now' rest)
        (refill-refill limit stored now now' h))

  charge_all-refused :
      (allowed : Bool) (buckets : Buckets)
      → charge_all allowed now' (charge_all false now buckets) ≡ charge_all allowed now' buckets
  charge_all-refused allowed [] = refl
  charge_all-refused allowed ((limit, stored) ∷ rest) = rw (charge_all-refused allowed rest) (
      ap (λ (s : BucketState). (limit, some (charge allowed s)) ∷ charge_all allowed now' rest)
        (refill-refill limit stored now now' h))

-- A refused call leaves no trace: any call on the same keys at the same moment or later has the
-- result, the wait and the stored buckets that it would have had without it.
pub token_bucket-refused :
    (now now' : ℕ) (buckets : Buckets)
    → now ≤ now'
    → (token_bucket now buckets).0 ≡ false
    → token_bucket now' (token_bucket now buckets).2 ≡ token_bucket now' buckets
unfolding token_bucket
token_bucket-refused now now' buckets h refused =
    rw
      (
        refused,
        all_allowed-refused now now' h buckets,
        retry_ms-refused now now' h buckets,
        charge_all-refused now now' h (all_allowed now' buckets) buckets,
      )
      refl
