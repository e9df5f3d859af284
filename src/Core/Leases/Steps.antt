-- ===== src/Core/Leases/Steps.antt =====
-- Every call takes one step on each set that it touches, and none on the others.
use umclick.Common.{
  ℕ, ◌<◌, ◌≡◌, inl, inr, refl, leb, Bool, true, false, not, ◌&&◌, none, some, List, Bool-cases,
  arith,
}
use umclick.Core.RateLimit.{BucketLimit, BucketState, refill, is_short}
use umclick.Core.Leases.{
  Lease, Store, Sets, purge, holds, opened, is_full, ip_limit, stage_limit, access_limit,
  open_answer, open_lease, sets_of, with_sets, purge_sets, access_sets, acquire_access,
  heartbeat_sets, heartbeat, release,
}
use umclick.Core.Leases.Calls.{
  Call, open_call, access_call, heartbeat_call, release_call, run, released_by, renewed_by, SetStep,
  untouched, purged, dropped, renewed, StoreStep, put_step, opened_step,
}

record SetsStep (id now : ℕ) (before after : Sets) : Type 0 where
  ip : SetStep none (some id) now ip_limit before.ip after.ip
  all : SetStep none (some id) now stage_limit before.all after.all
  access : SetStep none (some id) now access_limit before.access after.access

with_sets-StoreStep :
    (id now address subject : ℕ) (store : Store) (after : Sets)
    → SetsStep id now (sets_of store address subject) after
    → StoreStep none (some id) now store (with_sets store address subject after)
with_sets-StoreStep id now address subject store after s = record {
  by_ip = put_step store.by_ip address after.ip s.ip;
  stage = s.all;
  by_access = put_step store.by_access subject after.access s.access;
}

access_sets-SetsStep :
    (id now : ℕ) (sets : Sets) → SetsStep id now sets (access_sets id now (purge_sets now sets)).0
access_sets-SetsStep id now sets = elim (Bool-cases (holds id (purge now sets.ip))) [
  | inr e ↦ rw e nothing
  | inl e ↦ elim (Bool-cases (holds id (purge now sets.all))) [
    | inr k ↦ rw (e, k) nothing
    | inl k ↦ elim (Bool-cases (is_full access_limit (purge now sets.access))) [
      | inl full ↦ rw (e, k, full) nothing
      | inr free ↦
          rw (e, k, free)
            (record {
              ip = renewed id refl (inl e);
              all = renewed id refl (inl k);
              access = renewed id refl (inr (room free));
            })
    ]
  ]
]
  where
    nothing : SetsStep id now sets (purge_sets now sets)
    nothing = record { ip = purged; all = purged; access = purged }

    room : {n m : ℕ} → leb n m ≡ false → m < n
    room e = ground (arith, e)

heartbeat_sets-SetsStep :
    (id now : ℕ) (sets : Sets) → SetsStep id now sets (heartbeat_sets id now sets).0
heartbeat_sets-SetsStep id now sets = elim (Bool-cases (holds id (purge now sets.ip))) [
  | inr e ↦ rw e (record { ip = purged; all = untouched; access = untouched })
  | inl e ↦ elim (Bool-cases (holds id (purge now sets.all))) [
    | inr k ↦ rw (e, k) (record { ip = purged; all = purged; access = untouched })
    | inl k ↦ elim (Bool-cases (holds id (purge now sets.access))) [
      | inr j ↦ rw (e, k, j) (record { ip = purged; all = purged; access = purged })
      | inl j ↦
          rw (e, k, j)
            (record {
              ip = renewed id refl (inl e);
              all = renewed id refl (inl k);
              access = renewed id refl (inl j);
            })
    ]
  ]
]

allowed-free :
    (now : ℕ) (state : BucketState) (ips stage : List Lease)
    → (open_answer now state ips stage).allowed ≡ true
    → (is_full ip_limit ips ≡ false) × (is_full stage_limit stage ≡ false)
allowed-free now state ips stage e =
    both (is_short state) (is_full ip_limit ips) (is_full stage_limit stage) e
  where
    both : (a b c : Bool) → (not a && not b && not c) ≡ true → (b ≡ false) × (c ≡ false)
    both false false false e = (refl, refl)
    both true b c e = absurd (cc)
    both false true c e = absurd (cc)
    both false false true e = absurd (cc)

pub run-StoreStep :
    (limit : BucketLimit) (now : ℕ) (call : Call) (store : Store)
    → StoreStep (released_by call) (renewed_by call) now store (run limit now call store)
unfolding run open_lease acquire_access heartbeat release
run-StoreStep limit now (open_call address id) store =
    let ips = purge now (store.by_ip address) in
    let stage = purge now store.stage in
    let answer = open_answer now (refill limit now (store.opens address)) ips stage in
    let free = allowed-free now (refill limit now (store.opens address)) ips stage in
    record {
      by_ip =
          put_step store.by_ip address (opened answer.allowed id now ips)
            (opened_step answer.allowed id now (store.by_ip address) (λ e. (free e).0));
      stage = opened_step answer.allowed id now store.stage (λ e. (free e).1);
      by_access = λ a. untouched;
    }
run-StoreStep limit now (access_call address subject id) store =
    with_sets-StoreStep id now address subject store _
      (access_sets-SetsStep id now (sets_of store address subject))
run-StoreStep limit now (heartbeat_call address subject id) store =
    with_sets-StoreStep id now address subject store _
      (heartbeat_sets-SetsStep id now (sets_of store address subject))
run-StoreStep limit now (release_call address none id) store = record {
  by_ip = put_step store.by_ip address _ (dropped id refl);
  stage = dropped id refl;
  by_access = λ a. untouched;
}
run-StoreStep limit now (release_call address (some subject) id) store = record {
  by_ip = put_step store.by_ip address _ (dropped id refl);
  stage = dropped id refl;
  by_access = put_step store.by_access subject _ (dropped id refl);
}
