-- ===== src/Core/Leases/Retry.antt =====
-- The wait that a refused open is told is enough.
use umclick.Common.{
  ℕ, suc, ◌+◌, ◌-◌, ◌*◌, ◌<◌, ◌≤◌, ◌==◌, ◌≡◌, refl, sym, ◌∙◌, subst, if◌then◌else◌, ltb, leb, max,
  min, Bool, true, false, not, ◌&&◌, inl, inr, Option, none, some, List, [], ◌∷◌, length,
  length-keep, Bool-cases, arith,
}
use umclick.Core.RateLimit.{
  BucketLimit, Stored, ceil_div, stored_or_full, refill, is_short, bucket_retry_ms, charge,
}
use umclick.Core.RateLimit.Bucket.{is_short-wait, is_short-later}
use umclick.Core.Leases.{
  Lease, Store, Answer, put, opened, purge, earliest, capacity_retry, is_full, ip_limit,
  stage_limit, full_retry, open_answer, open_lease, decision,
}
use umclick.Core.Leases.Bounds.{Bounded}

-- When the earliest lease is over, there are fewer.
earliest-purged :
    (set : List Lease) (t now : ℕ)
    → earliest set ≡ some t
    → t ≤ now
    → length (purge now set) < length set
earliest-purged [] t now e le = absurd (cc)
earliest-purged (l ∷ ls) t now e le = elim (Bool-cases (ltb now l.expires_ms)) [
  | inr gone ↦ rw gone (shorter (length-keep (λ (x : Lease). ltb now x.expires_ms) ls))
  | inl stays ↦ rw stays (later (earliest ls) refl e stays (λ u f k. earliest-purged ls u now f k))
]
  where
    shorter : {n m : ℕ} → n ≤ m → n < suc m
    shorter h = omega (arith, h)

    longer : {n m : ℕ} → n < m → suc n < suc m
    longer h = omega (arith, h)

    some_eq : {a b : ℕ} → some a ≡ some b → a ≡ b
    some_eq p = cc

    late : (x t : ℕ) → ltb now x ≡ true → min x t ≤ now → t ≤ now
    late x t h k = ground (arith, h, k)

    at_once : (x : ℕ) → ltb now x ≡ true → x ≤ now → ⊥
    at_once x h k = ground (arith, h, k)

    later :
        (o : Option ℕ)
        → earliest ls ≡ o
        → (elim o as (λ _. Option ℕ) [
          | none ↦ some l.expires_ms
          | some u ↦ some (min l.expires_ms u)
        ])
          ≡ some t
        → ltb now l.expires_ms ≡ true
        → ((u : ℕ) → earliest ls ≡ some u → u ≤ now → length (purge now ls) < length ls)
        → suc (length (purge now ls)) < suc (length ls)
    later none f p h rest =
        absurd (at_once l.expires_ms h (subst (λ n. n ≤ now) (sym (some_eq p)) le))
    later (some u) f p h rest =
        longer (rest u f (late l.expires_ms u h (subst (λ n. n ≤ now) (sym (some_eq p)) le)))

earliest-some : (set : List Lease) → 1 ≤ length set → (t : ℕ) × (earliest set ≡ some t)
earliest-some [] h = absurd (omega (arith, h))
earliest-some (l ∷ ls) h = found (earliest ls)
  where
    found :
        (o : Option ℕ)
        → (t : ℕ) × ((elim o as (λ _. Option ℕ) [
          | none ↦ some l.expires_ms
          | some u ↦ some (min l.expires_ms u)
        ])
            ≡ some t)
    found none = (l.expires_ms, refl)
    found (some u) = (min l.expires_ms u, refl)

-- A set within its limit has room after the wait.
purge-room :
    (limit now now' : ℕ) (set : List Lease)
    → 1 ≤ limit
    → length set ≤ limit
    → now + full_retry (is_full limit set) now set ≤ now'
    → is_full limit (purge now' set) ≡ false
purge-room limit now now' set pos bound wait = elim (Bool-cases (is_full limit set)) [
  | inr free ↦ fewer free (length-keep (λ (x : Lease). ltb now' x.expires_ms) set)
  | inl full ↦
      let (t, e) = earliest-some set (some_there full) in
      less (earliest-purged set t now' e (over t (wait_for t e full)))
]
  where
    fewer :
        leb limit (length set) ≡ false
        → length (purge now' set) ≤ length set
        → leb limit (length (purge now' set)) ≡ false
    fewer free le = ground (arith, free, le)

    some_there : leb limit (length set) ≡ true → 1 ≤ length set
    some_there full = ground (arith, full, pos)

    less : length (purge now' set) < length set → leb limit (length (purge now' set)) ≡ false
    less lt = ground (arith, lt, bound)

    wait_for :
        (t : ℕ) → earliest set ≡ some t → is_full limit set ≡ true → now + max 1 (t - now) ≤ now'
    wait_for t e full = rw (full, capacity_retry, e) at wait

    over : (t : ℕ) → now + max 1 (t - now) ≤ now' → t ≤ now'
    over t h = omega (arith, h)

bucket-ready :
    (limit : BucketLimit) (stored : Option Stored) (now now' : ℕ)
    → now ≤ now'
    → 1 ≤ limit.refill_units_per_ms
    → 1 ≤ limit.capacity_operations
    → now
        + (if is_short (refill limit now stored)
            then bucket_retry_ms (refill limit now stored)
            else 0)
      ≤ now'
    → is_short (refill limit now' (some (charge false (refill limit now stored)))) ≡ false
bucket-ready limit stored now now' le rate capacity wait =
    elim (Bool-cases (is_short (refill limit now stored))) [
      | inr ready ↦ is_short-later limit stored now now' le rate ready
      | inl short ↦ flip _ (
          is_short-wait limit (stored_or_full limit now stored) now now' le rate capacity short
          ∙ reached _ (rw short at wait))
    ]
  where
    flip : (b : Bool) → not b ≡ true → b ≡ false
    flip b h = ground arith

    reached : (n : ℕ) → now + n ≤ now' → leb (now + n) now' ≡ true
    reached n h = ground (arith, h)

-- The next open, once the first has been refused or not.
abbrev next_allowed : BucketLimit → ℕ → ℕ → ℕ → ℕ → Store → Bool → Bool
next_allowed limit now now' address id store allowed =
    let ips = put store.by_ip address (opened allowed id now (purge now (store.by_ip address))) in
    let opens =
      put store.opens address (some (charge allowed (refill limit now (store.opens address)))) in
    (open_answer now' (refill limit now' (opens address)) (purge now' (ips address))
      (purge now' (opened allowed id now (purge now store.stage)))).allowed

refused-next :
    (limit : BucketLimit) (now now' address id : ℕ) (store : Store)
    → is_short (refill limit now' (some (charge false (refill limit now (store.opens address)))))
      ≡ false
    → is_full ip_limit (purge now' (purge now (store.by_ip address))) ≡ false
    → is_full stage_limit (purge now' (purge now store.stage)) ≡ false
    → next_allowed limit now now' address id store false ≡ true
refused-next limit now now' address id store ready ip all =
    rw (self address) (all_three _ _ _ ready ip all)
  where
    self : (n : ℕ) → (n == n) ≡ true
    self n = ground arith

    all_three :
        (a b c : Bool) → a ≡ false → b ≡ false → c ≡ false → (not a && not b && not c) ≡ true
    all_three a b c p q r = rw (p, q, r) refl

-- The wait of the script, in milliseconds, is enough.
open_lease-retry :
    (limit : BucketLimit) (now now' address id id' : ℕ) (store : Store)
    → 1 ≤ limit.refill_units_per_ms
    → 1 ≤ limit.capacity_operations
    → Bounded store
    → (open_lease limit now address id store).1.allowed ≡ false
    → now + (open_lease limit now address id store).1.retry_ms ≤ now'
    → (open_lease limit now' address id' (open_lease limit now address id store).0).1.allowed ≡ true
unfolding open_lease
open_lease-retry limit now now' address id id' store rate capacity h no_entry wait =
    let ips = purge now (store.by_ip address) in
    let stage = purge now store.stage in
    let state = refill limit now (store.opens address) in
    let (bucket, ip, all) =
      parts (if is_short state then bucket_retry_ms state else 0)
        (full_retry (is_full ip_limit ips) now ips)
        (full_retry (is_full stage_limit stage) now stage) wait in
    subst (λ b. next_allowed limit now now' address id store b ≡ true) (sym no_entry)
      (refused-next limit now now' address id store
        (bucket-ready limit (store.opens address) now now' (omega (arith, bucket)) rate capacity
          bucket)
        (purge-room ip_limit now now' ips (omega arith)
          (omega (
            arith,
            h.by_ip address,
            length-keep (λ (l : Lease). ltb now l.expires_ms) (store.by_ip address),
          ))
          ip)
        (purge-room stage_limit now now' stage (omega arith)
          (omega (arith, h.stage, length-keep (λ (l : Lease). ltb now l.expires_ms) store.stage))
          all))
  where
    parts :
        (a b c : ℕ)
        → now + max (max a b) c ≤ now'
        → (now + a ≤ now') × (now + b ≤ now') × (now + c ≤ now')
    parts a b c w = (omega (arith, w), omega (arith, w), omega (arith, w))

-- What a client is told is a refusal, and at least the wait of the script.
decision-told :
    (a : Answer) (seconds : ℕ)
    → (decision a).retry_after ≡ some seconds
    → (a.allowed ≡ false) × (a.retry_ms ≤ seconds * 1_000)
unfolding decision
decision-told a seconds e = elim (Bool-cases a.allowed) [
  | inl yes_in ↦ absurd (no_wait (rw yes_in at e))
  | inr out ↦ (out, told a.retry_ms seconds (some_eq (rw out at e)))
]
  where
    no_wait : none ≡ some seconds → ⊥
    no_wait p = cc

    some_eq : {a b : ℕ} → some a ≡ some b → a ≡ b
    some_eq p = cc

    told : (ms seconds : ℕ) → max 1 (ceil_div (max 1 ms) 1_000) ≡ seconds → ms ≤ seconds * 1_000
    told ms seconds e = omega (arith, e)

-- A client whose open is refused on a store within the limits, and who is told to wait for so many
-- seconds, is let in when it comes back then or later, if nothing else was stored in between and the
-- limit of its address has a positive rate and capacity.
pub open_lease-told :
    (limit : BucketLimit) (now now' address id id' seconds : ℕ) (store : Store)
    → 1 ≤ limit.refill_units_per_ms
    → 1 ≤ limit.capacity_operations
    → Bounded store
    → (decision (open_lease limit now address id store).1).retry_after ≡ some seconds
    → now + seconds * 1_000 ≤ now'
    → (decision
        (open_lease limit now' address id' (open_lease limit now address id store).0).1).allowed
      ≡ true
unfolding decision
open_lease-told limit now now' address id id' seconds store rate capacity h e late =
    let (out, wait) = decision-told (open_lease limit now address id store).1 seconds e in
    rw
      (open_lease-retry limit now now' address id id' store rate capacity h out
        (omega (arith, wait, late)))
      refl
