-- ===== src/Core/Leases/Calls.antt =====
-- The calls of `RedisWebSocketGuard` that change leases, one after another, and what each may do to
-- one set of leases.
use umclick.Common.{
  ℕ, ◌<◌, ◌==◌, ◌≡◌, ◌⊎◌, inl, inr, refl, sym, subst, leb, Bool, true, false, Option, none, some,
  List, [], ◌∷◌, length, Bool-cases, arith,
}
use umclick.Core.RateLimit.{BucketLimit}
use umclick.Core.Leases.{
  Lease, Store, put, purge, holds, drop, renew, opened, is_full, ip_limit, stage_limit,
  access_limit, open_lease, acquire_access, heartbeat, release,
}

pub data Call : Type 0 where
  open_call : (address id : ℕ) → Call
  access_call heartbeat_call : (address subject id : ℕ) → Call
  release_call : (address : ℕ) (subject : Option ℕ) (id : ℕ) → Call

unfoldable pub run : BucketLimit → ℕ → Call → Store → Store
run limit now (open_call address id) store = (open_lease limit now address id store).0
run limit now (access_call address subject id) store =
    (acquire_access now address subject id store).0
run limit now (heartbeat_call address subject id) store = (heartbeat now address subject id store).0
run limit now (release_call address subject id) store = release address subject id store

-- Each call stands with its moment.
unfoldable pub run_all : BucketLimit → List (ℕ × Call) → Store → Store
run_all limit [] store = store
run_all limit ((now, call) ∷ calls) store = run_all limit calls (run limit now call store)

abbrev pub released_by : Call → Option ℕ
released_by (open_call address id) = none
released_by (access_call address subject id) = none
released_by (heartbeat_call address subject id) = none
released_by (release_call address subject id) = some id

-- The lease that a call may write.
abbrev pub renewed_by : Call → Option ℕ
renewed_by (open_call address id) = some id
renewed_by (access_call address subject id) = some id
renewed_by (heartbeat_call address subject id) = some id
renewed_by (release_call address subject id) = none

-- What may become of a set with so much room: it is left alone, purged, loses the lease that is
-- released, or gets the lease that the call writes, if it has it or has room.
pub data SetStep (released renews : Option ℕ) (now limit : ℕ) (set : List Lease)
    : List Lease → Type 0 where
  untouched : SetStep released renews now limit set set
  purged : SetStep released renews now limit set (purge now set)
  dropped : (id : ℕ) → released ≡ some id → SetStep released renews now limit set (drop id set)
  renewed :
      (id : ℕ)
      → renews ≡ some id
      → (holds id (purge now set) ≡ true) ⊎ (length (purge now set) < limit)
      → SetStep released renews now limit set (renew id now (purge now set))

pub record StoreStep (released renews : Option ℕ) (now : ℕ) (before after : Store) : Type 0 where
  pub by_ip : (a : ℕ) → SetStep released renews now ip_limit (before.by_ip a) (after.by_ip a)
  pub stage : SetStep released renews now stage_limit before.stage after.stage
  pub by_access :
      (a : ℕ) → SetStep released renews now access_limit (before.by_access a) (after.by_access a)

-- A family of sets in which one is written.
pub put_step :
    {released renews : Option ℕ} {now limit : ℕ} (f : ℕ → List Lease) (k : ℕ) (set : List Lease)
    → SetStep released renews now limit (f k) set
    → (a : ℕ) → SetStep released renews now limit (f a) (put f k set a)
put_step {released} {renews} {now} {limit} f k set step a = elim (Bool-cases (a == k)) [
  | inl e ↦ rw e (subst (λ j. SetStep released renews now limit (f j) set) (sym (same e)) step)
  | inr e ↦ rw e untouched
]
  where
    same : (a == k) ≡ true → a ≡ k
    same e = ground (arith, e)

pub opened_step :
    {released : Option ℕ} {limit : ℕ} (allowed : Bool) (id now : ℕ) (set : List Lease)
    → (allowed ≡ true → is_full limit (purge now set) ≡ false)
    → SetStep released (some id) now limit set (opened allowed id now (purge now set))
opened_step true id now set h = renewed id refl (inr (room (h refl)))
  where
    room : {n m : ℕ} → leb n m ≡ false → m < n
    room e = ground (arith, e)
opened_step false id now set h = purged
