-- ===== src/Core/Leases/Heartbeat.antt =====
-- What an accepted access or heartbeat grants, and for how long.
use umclick.Common.{
  ℕ, ◌+◌, ◌<◌, ◌≤◌, ◌==◌, ◌≡◌, ◌≢◌, ◌⊎◌, ap, subst, true, false, inl, inr, some, List, All, All-map,
  Bool-cases, arith,
}
use umclick.Core.RateLimit.{BucketLimit}
use umclick.Core.Leases.{
  Store, Sets, Answer, accepted, purge, holds, is_full, lease_ttl_ms, access_limit, sets_of,
  with_sets, purge_sets, renew_sets, access_sets, acquire_access, heartbeat_sets, heartbeat,
}
use umclick.Core.Leases.Calls.{Call, run_all, released_by}
use umclick.Core.Leases.Kept.{AllHeld, renew-Held, run_all-AllHeld, heartbeat-accepted}

-- A call that is allowed leaves its lease for the whole period.
abbrev Grants : ℕ → ℕ → Sets × Answer → Type 0
Grants id now r = r.1.allowed ≡ true → AllHeld id (now + lease_ttl_ms) r.0

refused : {P : Type 0} → false ≡ true → P
refused h = absurd (cc)

renew_sets-AllHeld :
    (id now : ℕ) (sets : Sets) → AllHeld id (now + lease_ttl_ms) (renew_sets id now sets)
renew_sets-AllHeld id now sets = record {
  ip = renew-Held id now sets.ip;
  all = renew-Held id now sets.all;
  access = renew-Held id now sets.access;
}

access_sets-Grants : (id now : ℕ) (sets : Sets) → Grants id now (access_sets id now sets)
access_sets-Grants id now sets = elim (Bool-cases (holds id sets.ip)) [
  | inr e ↦ rw e refused
  | inl e ↦ elim (Bool-cases (holds id sets.all)) [
    | inr k ↦ rw (e, k) refused
    | inl k ↦ elim (Bool-cases (is_full access_limit sets.access)) [
      | inl full ↦ rw (e, k, full) refused
      | inr free ↦ rw (e, k, free) (λ h. renew_sets-AllHeld id now sets)
    ]
  ]
]

heartbeat_sets-Grants : (id now : ℕ) (sets : Sets) → Grants id now (heartbeat_sets id now sets)
heartbeat_sets-Grants id now sets = elim (Bool-cases (holds id (purge now sets.ip))) [
  | inr e ↦ rw e refused
  | inl e ↦ elim (Bool-cases (holds id (purge now sets.all))) [
    | inr k ↦ rw (e, k) refused
    | inl k ↦ elim (Bool-cases (holds id (purge now sets.access))) [
      | inr j ↦ rw (e, k, j) refused
      | inl j ↦ rw (e, k, j) (λ h. renew_sets-AllHeld id now (purge_sets now sets))
    ]
  ]
]

-- The sets of a connection are what was just written for it.
with_sets-AllHeld :
    (id until address subject : ℕ) (store : Store) (sets : Sets)
    → AllHeld id until sets
    → AllHeld id until (sets_of (with_sets store address subject sets) address subject)
with_sets-AllHeld id until address subject store sets h = record {
  ip = rw (self address) h.ip;
  all = h.all;
  access = rw (self subject) h.access;
}
  where
    self : (n : ℕ) → (n == n) ≡ true
    self n = ground arith

-- The call was accepted and left `after`.
abbrev pub Granted : ℕ → ℕ → ℕ → ℕ → Store → Store → Type 0
Granted id now address subject before after =
    (acquire_access now address subject id before ≡ (after, accepted))
    ⊎ (heartbeat now address subject id before ≡ (after, accepted))

Granted-AllHeld :
    (id now address subject : ℕ) (before after : Store)
    → Granted id now address subject before after
    → AllHeld id (now + lease_ttl_ms) (sets_of after address subject)
unfolding acquire_access heartbeat
Granted-AllHeld id now address subject before after (inl e) =
    subst (λ (s : Store). AllHeld id (now + lease_ttl_ms) (sets_of s address subject))
      (ap (λ (r : Store × Answer). r.0) e)
      (with_sets-AllHeld id (now + lease_ttl_ms) address subject before _ (
        access_sets-Grants id now (purge_sets now (sets_of before address subject))
          (ap (λ (r : Store × Answer). r.1.allowed) e)))
Granted-AllHeld id now address subject before after (inr e) =
    subst (λ (s : Store). AllHeld id (now + lease_ttl_ms) (sets_of s address subject))
      (ap (λ (r : Store × Answer). r.0) e)
      (with_sets-AllHeld id (now + lease_ttl_ms) address subject before _ (
        heartbeat_sets-Grants id now (sets_of before address subject)
          (ap (λ (r : Store × Answer). r.1.allowed) e)))

-- After an access or a heartbeat that was accepted, whatever calls follow of this and other connections
-- at moments of the next forty-five seconds, if none of them releases the lease, a heartbeat of the
-- same connection within that time is accepted.
pub heartbeat-kept :
    (limit : BucketLimit) (id granted now address subject : ℕ) (before start : Store)
    (calls : List (ℕ × Call))
    → Granted id granted address subject before start
    → All
        (λ (c : ℕ × Call).
          (c.0 < granted + lease_ttl_ms) × (granted ≤ c.0) × (released_by c.1 ≢ some id))
        calls
    → now < granted + lease_ttl_ms
    → (heartbeat now address subject id (run_all limit calls start)).1 ≡ accepted
heartbeat-kept limit id granted now address subject before start calls g between lt =
    heartbeat-accepted id (granted + lease_ttl_ms) now address subject (run_all limit calls start)
      lt
      (run_all-AllHeld limit id (granted + lease_ttl_ms) address subject calls start
        (All-map (λ (c : ℕ × Call) b. (b.0, omega (arith, b.1), b.2)) calls between)
        (Granted-AllHeld id granted address subject before start g))
