-- ===== src/Core/Leases/Kept.antt =====
-- A connection that keeps its heartbeat keeps its leases.
use umclick.Common.{
  ℕ, ◌+◌, ◌<◌, ◌≤◌, ◌==◌, ◌≡◌, ◌≢◌, refl, ap, ◌∙◌, ltb, leb, Bool, true, false, ◌&&◌, ◌||◌, inl,
  inr, Option, some, List, [], ◌∷◌, any, All, Bool-cases, arith,
}
use umclick.Core.RateLimit.{BucketLimit}
use umclick.Core.Leases.{
  Lease, Store, Sets, accepted, purge, holds, drop, renew, lease_ttl_ms, sets_of, heartbeat,
}
use umclick.Core.Leases.Calls.{
  Call, run, run_all, released_by, SetStep, untouched, purged, dropped, renewed,
}
use umclick.Core.Leases.Steps.{run-StoreStep}

-- The lease is there, and not over before the moment `until`.
abbrev pub Held : ℕ → ℕ → List Lease → Type 0
Held id until set = any (λ (l : Lease). l.id == id && leb until l.expires_ms) set ≡ true

or_map : (b c d : Bool) → (b || c) ≡ true → (c ≡ true → d ≡ true) → (b || d) ≡ true
or_map true c d h f = refl
or_map false c d h f = f h

purge-Held :
    (id until now : ℕ) (set : List Lease)
    → now < until
    → Held id until set
    → Held id until (purge now set)
purge-Held id until now [] lt h = absurd (cc)
purge-Held id until now (l ∷ ls) lt h = elim (Bool-cases (ltb now l.expires_ms)) [
  | inl e ↦
      rw e (or_map (l.id == id && leb until l.expires_ms) _ _ h (purge-Held id until now ls lt))
  | inr e ↦ rw e (purge-Held id until now ls lt (rest l.id l.expires_ms _ e h))
]
  where
    rest :
        (k x : ℕ) (c : Bool) → ltb now x ≡ false → ((k == id && leb until x) || c) ≡ true → c ≡ true
    rest k x c e h = ground (arith, lt, e, h)

drop-Held :
    (id until other : ℕ) (set : List Lease)
    → other ≢ id
    → Held id until set
    → Held id until (drop other set)
drop-Held id until other [] ne h = absurd (cc)
drop-Held id until other (l ∷ ls) ne h = elim (Bool-cases (l.id == other)) [
  | inl e ↦ rw e (drop-Held id until other ls ne (rest l.id (leb until l.expires_ms) _ e h))
  | inr e ↦
      rw e (or_map (l.id == id && leb until l.expires_ms) _ _ h (drop-Held id until other ls ne))
]
  where
    rest : (k : ℕ) (b c : Bool) → (k == other) ≡ true → ((k == id && b) || c) ≡ true → c ≡ true
    rest k b c e h = ground (arith, ne, e, h)

pub renew-Held : (id now : ℕ) (set : List Lease) → Held id (now + lease_ttl_ms) (renew id now set)
renew-Held id now set = ground arith

SetStep-Held :
    {released renews : Option ℕ} {now limit : ℕ} (id until : ℕ) (before after : List Lease)
    → released ≢ some id
    → now < until
    → until ≤ now + lease_ttl_ms
    → SetStep released renews now limit before after
    → Held id until before
    → Held id until after
SetStep-Held id until before _ kept lt le untouched h = h
SetStep-Held {now = now} id until before _ kept lt le purged h = purge-Held id until now before lt h
SetStep-Held id until before _ kept lt le (dropped other e) h =
    drop-Held id until other before (λ p. kept (e ∙ ap (λ k. some k) p)) h
SetStep-Held {now = now} id until before _ kept lt le (renewed other _ e) h =
    elim (Bool-cases (other == id)) [
      | inl same ↦ front same _
      | inr differ ↦ behind _ (
          drop-Held id until other (purge now before) (apart differ)
            (purge-Held id until now before lt h))
    ]
  where
    front :
        (other == id) ≡ true
        → (c : Bool) → ((other == id && leb until (now + lease_ttl_ms)) || c) ≡ true
    front same c = ground (arith, same, le)

    behind : (b : Bool) {c : Bool} → c ≡ true → (b || c) ≡ true
    behind true h = refl
    behind false h = h

    apart : (other == id) ≡ false → other ≢ id
    apart e = λ p. ground (arith, e, p)

-- The three leases of a connection.
pub record AllHeld (id until : ℕ) (sets : Sets) : Type 0 where
  pub ip : Held id until sets.ip
  pub all : Held id until sets.all
  pub access : Held id until sets.access

pub run_all-AllHeld :
    (limit : BucketLimit) (id until address subject : ℕ) (calls : List (ℕ × Call)) (store : Store)
    → All
        (λ (c : ℕ × Call).
          (c.0 < until) × (until ≤ c.0 + lease_ttl_ms) × (released_by c.1 ≢ some id))
        calls
    → AllHeld id until (sets_of store address subject)
    → AllHeld id until (sets_of (run_all limit calls store) address subject)
unfolding run_all
run_all-AllHeld limit id until address subject [] store between h = h
run_all-AllHeld limit id until address subject ((now, call) ∷ calls) store (b, between) h =
    let s = run-StoreStep limit now call store in
    run_all-AllHeld limit id until address subject calls (run limit now call store) between
      (record {
        ip = SetStep-Held id until (store.by_ip address) _ b.2 b.0 b.1 (s.by_ip address) h.ip;
        all = SetStep-Held id until store.stage _ b.2 b.0 b.1 s.stage h.all;
        access =
            SetStep-Held id until (store.by_access subject) _ b.2 b.0 b.1 (s.by_access subject)
              h.access;
      })

Held-holds :
    (id until now : ℕ) (set : List Lease)
    → now < until
    → Held id until set
    → holds id (purge now set) ≡ true
Held-holds id until now set lt h = weaken (purge now set) (purge-Held id until now set lt h)
  where
    weaken : (set : List Lease) → Held id until set → holds id set ≡ true
    weaken [] h = h
    weaken (l ∷ ls) h = ground (arith, h, weaken ls)

-- A heartbeat on leases that are held is accepted.
pub heartbeat-accepted :
    (id until now address subject : ℕ) (store : Store)
    → now < until
    → AllHeld id until (sets_of store address subject)
    → (heartbeat now address subject id store).1 ≡ accepted
unfolding heartbeat
heartbeat-accepted id until now address subject store lt h =
    rw
      (
        Held-holds id until now (store.by_ip address) lt h.ip,
        Held-holds id until now store.stage lt h.all,
        Held-holds id until now (store.by_access subject) lt h.access,
      )
      refl
