-- ===== src/Core/Leases.antt =====
-- backend/apps/core/websocket_limits.py: the leases of WebSocket connections, which live in sorted
-- sets of Redis, and the scripts that open, hold and release them. Moments are milliseconds of the
-- server's clock. A set whose key has expired holds only leases that are over.
pub mod Calls
pub mod Steps
pub mod Bounds
pub mod Kept
pub mod Heartbeat
pub mod Retry
mod Tests
use umclick.Common.{
  ℕ, zero, suc, ◌+◌, ◌-◌, min, max, ltb, leb, ◌==◌, if◌then◌else◌, Bool, true, false, not, ◌&&◌,
  ◌||◌, Option, none, some, List, [], ◌∷◌, length, keep, any, Result, ok, err, ◌>>=◌,
}
use umclick.Quiz.Model.{Text}
use umclick.Core.RateLimit.{
  BucketLimit, Stored, BucketState, ceil_div, refill, is_short, bucket_retry_ms, charge,
  LimiterError, Buckets, LimitDecision, limit_per_second, check,
}

-- `LEASE_TTL_MS`, and the limits that `open` and `acquire_access` pass.
abbrev pub lease_ttl_ms : ℕ
lease_ttl_ms = 45_000

abbrev pub ip_limit : ℕ
ip_limit = 120

abbrev pub stage_limit : ℕ
stage_limit = 240

abbrev pub access_limit : ℕ
access_limit = 3

-- A member of a sorted set with its score.
pub record Lease : Type 0 where
  pub id : ℕ
  pub expires_ms : ℕ

-- What is stored under the keys of the guard; addresses and access subjects are numbers.
pub record Store : Type 0 where
  pub opens : ℕ → Option Stored
  pub by_ip : ℕ → List Lease
  pub stage : List Lease
  pub by_access : ℕ → List Lease

abbrev pub put {ℓ} : {A : Type ℓ} → (ℕ → A) → ℕ → A → ℕ → A
put f k a j = if j == k then a else f j

-- `ZREMRANGEBYSCORE key -inf now`, `ZSCORE`, `ZREM` and `ZADD`
abbrev pub purge : ℕ → List Lease → List Lease
purge now = keep λ (l : Lease). ltb now l.expires_ms

abbrev pub holds : ℕ → List Lease → Bool
holds id = any λ (l : Lease). l.id == id

abbrev pub drop : ℕ → List Lease → List Lease
drop id = keep λ (l : Lease). not (l.id == id)

abbrev pub renew : ℕ → ℕ → List Lease → List Lease
renew id now set = record { id = id; expires_ms = now + lease_ttl_ms } ∷ drop id set

-- `ZRANGE key 0 0 WITHSCORES`: the least score.
abbrev pub earliest : List Lease → Option ℕ
earliest [] = none
earliest (l ∷ ls) =
    let later = earliest ls in
    elim later [ none ↦ some l.expires_ms | some t ↦ some (min l.expires_ms t) ]

-- `capacity_retry`
abbrev pub capacity_retry : ℕ → List Lease → ℕ
capacity_retry now set = elim (earliest set) [ none ↦ 1 | some t ↦ max 1 (t - now) ]

-- What a script returns.
pub record Answer : Type 0 where
  pub allowed : Bool
  pub reason : ℕ
  pub retry_ms : ℕ

abbrev pub accepted : Answer
accepted = record { allowed = true; reason = 0; retry_ms = 0 }

-- A lease that is missing.
abbrev pub lost : Answer
lost = record { allowed = false; reason = 3; retry_ms = 3_000 }

abbrev pub is_full : ℕ → List Lease → Bool
is_full limit set = leb limit (length set)

abbrev pub full_retry : Bool → ℕ → List Lease → ℕ
full_retry full now set = if full then capacity_retry now set else 0

abbrev pub open_reason : Bool → Bool → ℕ
open_reason short full = if short then 1 else if full then 2 else 0

-- The answer of `LUA_WS_OPEN` on the refilled bucket and on the purged sets.
abbrev pub open_answer : ℕ → BucketState → List Lease → List Lease → Answer
open_answer now state ips stage =
    let short = is_short state in
    let ip_full = is_full ip_limit ips in
    let stage_full = is_full stage_limit stage in
    record {
      allowed = not short && not ip_full && not stage_full;
      reason = open_reason short (ip_full || stage_full);
      retry_ms =
          max (max (if short then bucket_retry_ms state else 0) (full_retry ip_full now ips))
            (full_retry stage_full now stage);
    }

-- A set after an open: purged, and with the lease if the open is allowed.
abbrev pub opened : Bool → ℕ → ℕ → List Lease → List Lease
opened allowed id now set = if allowed then renew id now set else set

-- `LUA_WS_OPEN`
unfoldable pub open_lease : BucketLimit → ℕ → ℕ → ℕ → Store → Store × Answer
open_lease limit now address id store =
    let ips = purge now (store.by_ip address) in
    let stage = purge now store.stage in
    let state = refill limit now (store.opens address) in
    let answer = open_answer now state ips stage in
    (
      record store {
        opens = put store.opens address (some (charge answer.allowed state));
        by_ip = put store.by_ip address (opened answer.allowed id now ips);
        stage = opened answer.allowed id now stage;
      },
      answer,
    )

-- The three sets of one connection.
pub record Sets : Type 0 where
  pub ip : List Lease
  pub all : List Lease
  pub access : List Lease

abbrev pub sets_of : Store → ℕ → ℕ → Sets
sets_of store address subject = record {
  ip = store.by_ip address;
  all = store.stage;
  access = store.by_access subject;
}

abbrev pub with_sets : Store → ℕ → ℕ → Sets → Store
with_sets store address subject sets = record store {
  by_ip = put store.by_ip address sets.ip;
  stage = sets.all;
  by_access = put store.by_access subject sets.access;
}

abbrev pub purge_sets : ℕ → Sets → Sets
purge_sets now sets = record {
  ip = purge now sets.ip;
  all = purge now sets.all;
  access = purge now sets.access;
}

abbrev pub renew_sets : ℕ → ℕ → Sets → Sets
renew_sets id now sets = record {
  ip = renew id now sets.ip;
  all = renew id now sets.all;
  access = renew id now sets.access;
}

-- `LUA_WS_ACCESS` on the purged sets
abbrev pub access_sets : ℕ → ℕ → Sets → Sets × Answer
access_sets id now sets =
    if not (holds id sets.ip) || not (holds id sets.all)
    then (sets, lost)
    else if is_full access_limit sets.access
    then (sets, record { allowed = false; reason = 2; retry_ms = capacity_retry now sets.access })
    else (renew_sets id now sets, accepted)

unfoldable pub acquire_access : ℕ → ℕ → ℕ → ℕ → Store → Store × Answer
acquire_access now address subject id store =
    let (sets, answer) = access_sets id now (purge_sets now (sets_of store address subject)) in
    (with_sets store address subject sets, answer)

-- `LUA_WS_HEARTBEAT`: the sets are purged one after another, up to the first that lacks the lease.
abbrev pub heartbeat_sets : ℕ → ℕ → Sets → Sets × Answer
heartbeat_sets id now sets =
    let ip = purge now sets.ip in
    let all = purge now sets.all in
    let access = purge now sets.access in
    if not (holds id ip)
    then (record sets { ip = ip }, lost)
    else if not (holds id all)
    then (record sets { ip = ip; all = all }, lost)
    else if not (holds id access)
    then (purge_sets now sets, lost)
    else (renew_sets id now (purge_sets now sets), accepted)

unfoldable pub heartbeat : ℕ → ℕ → ℕ → ℕ → Store → Store × Answer
heartbeat now address subject id store =
    let (sets, answer) = heartbeat_sets id now (sets_of store address subject) in
    (with_sets store address subject sets, answer)

-- `LUA_WS_RELEASE`, over two keys or over three.
unfoldable pub release : ℕ → Option ℕ → ℕ → Store → Store
release address none id store = record store {
  by_ip = put store.by_ip address (drop id (store.by_ip address));
  stage = drop id store.stage;
}
release address (some subject) id store = record store {
  by_ip = put store.by_ip address (drop id (store.by_ip address));
  stage = drop id store.stage;
  by_access = put store.by_access subject (drop id (store.by_access subject));
}

pub data Reason : Type 0 where
  rate_limited connection_limit limiter_unavailable : Reason

pub record Decision : Type 0 where
  pub allowed : Bool
  pub reason : Option Reason
  pub retry_after : Option ℕ

abbrev pub reason_of : ℕ → Reason
reason_of code =
    if code == 1 then rate_limited else if code == 2 then connection_limit else limiter_unavailable

-- `_decision`
unfoldable pub decision : Answer → Decision
decision a =
    if a.allowed then record { allowed = true; reason = none; retry_after = none } else record {
      allowed = false;
      reason = some (reason_of a.reason);
      retry_after = some (max 1 (ceil_div (max 1 a.retry_ms) 1_000));
    }

-- `open`: `operation` and `subject` are the name and the address in the key of the bucket.
unfoldable pub open_connection :
    Text → Text → ℕ → ℕ → ℕ → Store → Result LimiterError (Store × Decision)
open_connection operation subject now address id store = do
  limit ← limit_per_second operation subject 10 60
  let (after, answer) = open_lease limit now address id store
  ok (after, decision answer)

-- `check_message`, with what is stored under the key of the lease
unfoldable pub check_message :
    Bool → Text → Text → ℕ → Option Stored → Result LimiterError (Buckets × LimitDecision)
check_message available operation lease now stored = do
  limit ← limit_per_second operation lease 5 20
  check available now ((limit, stored) ∷ [])
