-- ===== src/Core/Leases/Bounds.antt =====
-- How many leases there can be, and for how long one can last.
use umclick.Common.{
  ℕ, suc, ◌+◌, ◌<◌, ◌≤◌, ◌==◌, ◌≡◌, ◌∙◌, ap, refl, ltb, Bool, true, false, not, ◌||◌, some, keep,
  inl, inr, Option, List, [], ◌∷◌, length, length-keep, All, All-map, All-keep, Bool-cases, arith,
}
use umclick.Core.RateLimit.{BucketLimit}
use umclick.Core.Leases.{
  Lease, Store, purge, holds, drop, lease_ttl_ms, ip_limit, stage_limit, access_limit,
}
use umclick.Core.Leases.Calls.{
  Call, run, run_all, renewed_by, SetStep, untouched, purged, dropped, renewed,
}
use umclick.Core.Leases.Steps.{run-StoreStep}

drop-shorter : (id : ℕ) (set : List Lease) → holds id set ≡ true → length (drop id set) < length set
drop-shorter id [] h = absurd (cc)
drop-shorter id (l ∷ ls) h = elim (Bool-cases (l.id == id)) [
  | inl e ↦ rw e (shorter (length-keep (λ (x : Lease). not (x.id == id)) ls))
  | inr e ↦ rw e (longer (drop-shorter id ls (rw e at h)))
]
  where
    shorter : {n m : ℕ} → n ≤ m → n < suc m
    shorter h = omega (arith, h)

    longer : {n m : ℕ} → n < m → suc n < suc m
    longer h = omega (arith, h)

SetStep-length :
    {released renews : Option ℕ} {now limit : ℕ} (before after : List Lease)
    → SetStep released renews now limit before after
    → length before ≤ limit
    → length after ≤ limit
SetStep-length before _ untouched h = h
SetStep-length {now = now} before _ purged h =
    omega (arith, length-keep (λ (l : Lease). ltb now l.expires_ms) before, h)
SetStep-length before _ (dropped id e) h =
    omega (arith, length-keep (λ (l : Lease). not (l.id == id)) before, h)
SetStep-length {now = now} before _ (renewed id _ (inl e)) h = omega (
  arith,
  drop-shorter id (purge now before) e,
  length-keep (λ (l : Lease). ltb now l.expires_ms) before,
  h,
)
SetStep-length {now = now} before _ (renewed id _ (inr lt)) h =
    omega (arith, lt, length-keep (λ (l : Lease). not (l.id == id)) (purge now before))

-- No more leases than the limits allow.
pub record Bounded (store : Store) : Type 0 where
  pub by_ip : (a : ℕ) → length (store.by_ip a) ≤ ip_limit
  pub stage : length store.stage ≤ stage_limit
  pub by_access : (a : ℕ) → length (store.by_access a) ≤ access_limit

-- Whatever calls are made at whatever moments, there are never more than 120 leases of one address, 240
-- in all and 3 of one access, if there were not more at the start.
pub run_all-Bounded :
    (limit : BucketLimit) (calls : List (ℕ × Call)) (store : Store)
    → Bounded store
    → Bounded (run_all limit calls store)
unfolding run_all
run_all-Bounded limit [] store h = h
run_all-Bounded limit ((now, call) ∷ calls) store h =
    let s = run-StoreStep limit now call store in
    run_all-Bounded limit calls (run limit now call store) (record {
      by_ip = λ a. SetStep-length (store.by_ip a) _ (s.by_ip a) (h.by_ip a);
      stage = SetStep-length store.stage _ s.stage h.stage;
      by_access = λ a. SetStep-length (store.by_access a) _ (s.by_access a) (h.by_access a);
    })

-- Every lease of the connection is over by so long after the moment `last`.
abbrev pub OverBy : ℕ → ℕ → List Lease → Type 0
OverBy id last = All λ (l : Lease). l.id ≡ id → l.expires_ms ≤ last + lease_ttl_ms

keep-OverBy :
    (id last : ℕ) (p : Lease → Bool) (set : List Lease)
    → OverBy id last set
    → OverBy id last (keep p set)
keep-OverBy id last p set h =
    All-map (λ l k. k.0) _
      (All-keep (λ (l : Lease). l.id ≡ id → l.expires_ms ≤ last + lease_ttl_ms) p set h)

SetStep-OverBy :
    {released renews : Option ℕ} {now limit : ℕ} (id last : ℕ) (before after : List Lease)
    → (renews ≡ some id → now ≤ last)
    → SetStep released renews now limit before after
    → OverBy id last before
    → OverBy id last after
SetStep-OverBy id last before _ lt untouched h = h
SetStep-OverBy {now = now} id last before _ lt purged h = keep-OverBy id last _ before h
SetStep-OverBy id last before _ lt (dropped other e) h = keep-OverBy id last _ before h
SetStep-OverBy {now = now} id last before _ lt (renewed other e room) h = (
  λ same. omega (arith, lt (e ∙ ap (λ k. some k) same)),
  keep-OverBy id last _ (purge now before) (keep-OverBy id last _ before h),
)

pub record AllOverBy (id last : ℕ) (store : Store) : Type 0 where
  pub by_ip : (a : ℕ) → OverBy id last (store.by_ip a)
  pub stage : OverBy id last store.stage
  pub by_access : (a : ℕ) → OverBy id last (store.by_access a)

run_all-AllOverBy :
    (limit : BucketLimit) (id last : ℕ) (calls : List (ℕ × Call)) (store : Store)
    → All (λ (c : ℕ × Call). renewed_by c.1 ≡ some id → c.0 ≤ last) calls
    → AllOverBy id last store
    → AllOverBy id last (run_all limit calls store)
unfolding run_all
run_all-AllOverBy limit id last [] store lt h = h
run_all-AllOverBy limit id last ((now, call) ∷ calls) store lt h =
    let s = run-StoreStep limit now call store in
    run_all-AllOverBy limit id last calls (run limit now call store) lt.1 (record {
      by_ip = λ a. SetStep-OverBy id last (store.by_ip a) _ lt.0 (s.by_ip a) (h.by_ip a);
      stage = SetStep-OverBy id last store.stage _ lt.0 s.stage h.stage;
      by_access =
          λ a. SetStep-OverBy id last (store.by_access a) _ lt.0 (s.by_access a) (h.by_access a);
    })

OverBy-purge :
    (id last now : ℕ) (set : List Lease)
    → last + lease_ttl_ms ≤ now
    → OverBy id last set
    → holds id (purge now set) ≡ false
OverBy-purge id last now [] lt h = refl
OverBy-purge id last now (l ∷ ls) lt h = elim (Bool-cases (ltb now l.expires_ms)) [
  | inr over ↦ rw over (OverBy-purge id last now ls lt h.1)
  | inl live ↦
      rw live
        (behind (l.id == id) (another (l.id == id) refl live) (OverBy-purge id last now ls lt h.1))
]
  where
    behind : (b : Bool) {c : Bool} → b ≡ false → c ≡ false → (b || c) ≡ false
    behind b e k = ground (arith, e, k)

    late : l.expires_ms ≤ last + lease_ttl_ms → ltb now l.expires_ms ≡ true → ⊥
    late k live = ground (arith, lt, k, live)

    another : (b : Bool) → (l.id == id) ≡ b → ltb now l.expires_ms ≡ true → b ≡ false
    another false e live = refl
    another true e live = absurd (late (h.0 (ground (arith, e))) live)

-- If a connection is not opened, given access or heartbeated after the moment `last`, forty-five seconds
-- later it has no lease left in any set of the store, whatever calls other connections make meanwhile and
-- later. At the start its leases, if any, are over by then.
pub run_all-abandoned :
    (limit : BucketLimit) (id last now : ℕ) (calls : List (ℕ × Call)) (store : Store)
    → All (λ (c : ℕ × Call). renewed_by c.1 ≡ some id → c.0 ≤ last) calls
    → AllOverBy id last store
    → last + lease_ttl_ms ≤ now
    → let after = run_all limit calls store in
      ((a : ℕ) → holds id (purge now (after.by_ip a)) ≡ false)
      × (holds id (purge now after.stage) ≡ false)
      × ((a : ℕ) → holds id (purge now (after.by_access a)) ≡ false)
run_all-abandoned limit id last now calls store before h late =
    let o = run_all-AllOverBy limit id last calls store before h in
    (
      λ a. OverBy-purge id last now ((run_all limit calls store).by_ip a) late (o.by_ip a),
      OverBy-purge id last now (run_all limit calls store).stage late o.stage,
      λ a. OverBy-purge id last now ((run_all limit calls store).by_access a) late (o.by_access a),
    )
