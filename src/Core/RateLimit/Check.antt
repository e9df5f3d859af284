-- ===== src/Core/RateLimit/Check.antt =====
-- The wait in seconds that a client is told.
use umclick.Common.{
  ℕ, zero, suc, ◌+◌, ◌*◌, ◌≤◌, ◌==◌, max, ◌≡◌, refl, sym, ap, ◌∙◌, leb, Bool, true, false, Option,
  some, [], ◌∷◌, any, any-false, All-map, inl, inr, Bool-cases, arith, Result, ok, err,
}
use umclick.Core.RateLimit.{
  BucketLimit, Buckets, Stored, LimiterError, rate_limit_exceeded, charge_all, decide, token_bucket,
  ceil_div, check, or_one, enforce_rate_limits,
}
use umclick.Core.RateLimit.Retry.{Sensible, token_bucket-retry}

-- What is stored has the limits of the call.
charge_all-Sensible :
    (allowed : Bool) (now : ℕ) (buckets : Buckets)
    → Sensible buckets
    → Sensible (charge_all allowed now buckets)
charge_all-Sensible allowed now [] h = tt
charge_all-Sensible allowed now ((limit, stored) ∷ rest) h =
    (h.0, charge_all-Sensible allowed now rest h.1)

divisible :
    (buckets : Buckets)
    → Sensible buckets
    → any (λ (x : BucketLimit × Option Stored). x.0.refill_units_per_ms == 0) buckets ≡ false
divisible buckets h = any-false _ buckets (All-map (λ b p. ground (arith, p.0)) buckets h)

check-decides :
    (now : ℕ) (b : BucketLimit × Option Stored) (rest : Buckets)
    → Sensible (b ∷ rest)
    → check true now (b ∷ rest)
      ≡ ok (
        (token_bucket now (b ∷ rest)).2,
        decide (token_bucket now (b ∷ rest)).0 (token_bucket now (b ∷ rest)).1,
      )
unfolding check
check-decides now b rest h = rw (divisible (b ∷ rest) h) refl

told : (ms seconds : ℕ) → max 1 (ceil_div ms 1_000) ≡ seconds → ms ≤ seconds * 1_000
told ms seconds e = omega (arith, e)

enforced-allowed :
    (now : ℕ) (b : BucketLimit × Option Stored) (rest : Buckets)
    → Sensible (b ∷ rest)
    → (token_bucket now (b ∷ rest)).0 ≡ true
    → (enforce_rate_limits true true now (b ∷ rest)).1 ≡ ok tt
unfolding enforce_rate_limits
enforced-allowed now b rest h e = rw (check-decides now b rest h, e) refl

or_one_pos : (n : ℕ) → 1 ≤ n → or_one (some n) ≡ n
or_one_pos zero h = absurd (omega (arith, h))
or_one_pos (suc n) h = refl

not_both : (r : Result LimiterError (Unit {0})) (e : LimiterError) → r ≡ ok tt → r ≡ err e → ⊥
not_both r e h k = cc

abbrev told_seconds : Result LimiterError (Unit {0}) → ℕ
told_seconds (err (rate_limit_exceeded n)) = n
told_seconds _ = 0

-- The answer to a refused call, and what it leaves stored.
enforced-refused :
    (now : ℕ) (b : BucketLimit × Option Stored) (rest : Buckets)
    → Sensible (b ∷ rest)
    → (token_bucket now (b ∷ rest)).0 ≡ false
    → enforce_rate_limits true true now (b ∷ rest) ≡ (
      (token_bucket now (b ∷ rest)).2,
      err (rate_limit_exceeded (max 1 (ceil_div (token_bucket now (b ∷ rest)).1 1_000))),
    )
unfolding enforce_rate_limits
enforced-refused now b rest h e =
    rw (check-decides now b rest h, e)
      (ap (λ (n : ℕ). (answered (token_bucket now (b ∷ rest)).2 n))
        (or_one_pos (max 1 (ceil_div (token_bucket now (b ∷ rest)).1 1_000)) (omega arith)))
  where
    answered : Buckets → ℕ → Buckets × Result LimiterError (Unit {0})
    answered bs n = (bs, err (rate_limit_exceeded n))

-- A client that was refused with a number of seconds, and that waits so long, is let through, when
-- nothing else charges its buckets and the server of the quotas answers both times. Every limit has to
-- refill and to have room for one operation.
pub enforce_rate_limits-retry :
    (now now' seconds : ℕ) (b : BucketLimit × Option Stored) (rest : Buckets)
    → Sensible (b ∷ rest)
    → (enforce_rate_limits true true now (b ∷ rest)).1 ≡ err (rate_limit_exceeded seconds)
    → now + seconds * 1_000 ≤ now'
    → (enforce_rate_limits true true now' (enforce_rate_limits true true now (b ∷ rest)).0).1
      ≡ ok tt
unfolding token_bucket
enforce_rate_limits-retry now now' seconds b rest h refused waited =
    elim (Bool-cases (token_bucket now (b ∷ rest)).0) [
      | inl e ↦ absurd (not_both _ _ (enforced-allowed now b rest h e) refused)
      | inr e ↦
          let answer = enforced-refused now b rest h e in
          let same =
            ap told_seconds
              (sym (ap (λ (r : Buckets × Result LimiterError (Unit {0})). r.1) answer) ∙ refused) in
          rw answer (
            enforced-allowed now' _ _
              (charge_all-Sensible (token_bucket now (b ∷ rest)).0 now (b ∷ rest) h)
              (token_bucket-retry now now' (b ∷ rest) (omega (arith, waited)) h e
                ∙ in_time (told (token_bucket now (b ∷ rest)).1 seconds same)))
    ]
  where
    in_time :
        (token_bucket now (b ∷ rest)).1 ≤ seconds * 1_000
        → leb (now + (token_bucket now (b ∷ rest)).1) now' ≡ true
    in_time k = ground (arith, k, waited)
