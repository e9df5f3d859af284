-- ===== src/Core/Leases/Tests.antt =====
-- Connections of one address, on which the theorems on leases are applied.
use umclick.Common.{ℕ, suc, ◌≡◌, refl, inl, ◌≤◌, true, false, none, some, List, [], ◌∷◌, arith}
use umclick.Core.RateLimit.{BucketLimit}
use umclick.Core.Leases.{
  Store, Answer, accepted, lost, purge, holds, open_lease, acquire_access, heartbeat, release,
  decision, connection_limit,
}
use umclick.Core.Leases.Calls.{
  Call, open_call, access_call, heartbeat_call, release_call, run_all, renewed_by,
}
use umclick.Core.Leases.Bounds.{Bounded, run_all-Bounded, run_all-abandoned}
use umclick.Core.Leases.Heartbeat.{heartbeat-kept}
use umclick.Core.Leases.Retry.{open_lease-told}

-- One open at once, ten a second.
abbrev limit : BucketLimit
limit = record {
  operation = 1 ∷ [];
  subject = 7 ∷ [];
  refill_units_per_ms = 600;
  capacity_operations = 1;
}

abbrev empty : Store
empty = record { opens = λ a. none; by_ip = λ a. []; stage = []; by_access = λ a. [] }

empty-Bounded : Bounded empty
empty-Bounded = record {
  by_ip = λ a. omega arith;
  stage = omega arith;
  by_access = λ a. omega arith;
}

abbrev calls : List (ℕ × Call)
calls = (1_000, open_call 7 1) ∷ (1_200, access_call 7 5 1) ∷ (1_300, open_call 7 2) ∷ []

-- A connection that never opened has no access, and one that did has.
stranger_test : (acquire_access 1_400 7 5 9 (run_all limit calls empty)).1 ≡ lost
unfolding run_all umclick.Core.Leases.Calls.run open_lease acquire_access
stranger_test = refl

run_all-Bounded_example : Bounded (run_all limit calls empty)
run_all-Bounded_example = run_all-Bounded limit calls empty empty-Bounded

-- The first connection is lost after 1.2 s; the second goes on, long after.
abbrev later_calls : List (ℕ × Call)
later_calls =
    (1_000, open_call 7 1)
    ∷ (1_200, access_call 7 5 1)
    ∷ (2_300, open_call 7 2)
    ∷ (2_400, access_call 7 6 2)
    ∷ (32_400, heartbeat_call 7 6 2)
    ∷ []

going_on_test : holds 2 (purge 46_200 (run_all limit later_calls empty).stage) ≡ true
unfolding run_all umclick.Core.Leases.Calls.run open_lease acquire_access heartbeat
going_on_test = refl

run_all-abandoned_example :
    let after = run_all limit later_calls empty in
    ((a : ℕ) → holds 1 (purge 46_200 (after.by_ip a)) ≡ false)
    × (holds 1 (purge 46_200 after.stage) ≡ false)
    × ((a : ℕ) → holds 1 (purge 46_200 (after.by_access a)) ≡ false)
run_all-abandoned_example =
    run_all-abandoned limit 1 1_200 46_200 later_calls empty
      ((λ _. omega arith), ((λ _. omega arith), (not_first, (not_first, (not_first, tt)))))
      (record { by_ip = λ a. tt; stage = tt; by_access = λ a. tt }) (omega arith)
  where
    not_first : {t : ℕ} → renewed_by (open_call 7 2) ≡ some 1 → t ≤ 1_200
    not_first e = absurd (cc)

abbrev opened_store : Store
opened_store = run_all limit ((1_000, open_call 7 1) ∷ []) empty

opened_store-Bounded : Bounded opened_store
opened_store-Bounded = run_all-Bounded limit ((1_000, open_call 7 1) ∷ []) empty empty-Bounded

open_lease-told_example :
    (decision (open_lease limit 2_000 7 2 (open_lease limit 1_000 7 2 opened_store).0).1).allowed
    ≡ true
unfolding run_all umclick.Core.Leases.Calls.run open_lease decision
open_lease-told_example =
    open_lease-told limit 1_000 2_000 7 2 2 1 opened_store (omega arith) (omega arith)
      opened_store-Bounded refl (omega arith)

abbrev granted_store : Store
granted_store = (acquire_access 1_200 7 5 1 opened_store).0

granted : acquire_access 1_200 7 5 1 opened_store ≡ (granted_store, accepted)
unfolding run_all umclick.Core.Leases.Calls.run open_lease acquire_access
granted = refl

abbrev others : List (ℕ × Call)
others = (1_300, open_call 7 2) ∷ (20_000, release_call 7 none 2) ∷ []

heartbeat-kept_example : (heartbeat 40_000 7 5 1 (run_all limit others granted_store)).1 ≡ accepted
heartbeat-kept_example =
    heartbeat-kept limit 1 1_200 40_000 7 5 opened_store granted_store others (inl granted)
      (
        (omega arith, omega arith, λ p. absurd (cc)),
        ((omega arith, omega arith, λ p. apart {a = 0} p), tt),
      )
      (omega arith)
  where
    some_eq : {a b : ℕ} → some a ≡ some b → a ≡ b
    some_eq p = cc

    apart : {a : ℕ} → some (suc (suc a)) ≡ some 1 → ⊥
    apart {a} p = omega (arith, some_eq p)
