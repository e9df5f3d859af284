-- ===== src/Session/Consumer/Once.antt =====
-- How often a connection reports an error, closes, and takes and gives back its lease.
use umclick.Common.{
  ℕ, ◌+◌, ◌≤◌, ◌≡◌, refl, Bool, true, false, Option, none, some, List, [], ◌∷◌, All, count_if,
  length, is_some, Bool-cases, inl, inr, arith,
}
use umclick.Session.Consumer.Connection.{Connection, release_lease, disconnect}
use umclick.Session.Consumer.Handlers.{
  Guarded, FrameContent, not_json, not_auth, auth, known, unknown, unhashable, connect,
}
use umclick.Session.Consumer.Steps.{
  Step, frame, first_reading, second_reading, watching, lease_answer, event, deadline, deadline_end,
  finishing, leaving, expiry, heartbeat_round, World, steps,
}
use umclick.Session.Consumer.Sound.{Sound, is_error, is_opened, is_released, bit, disconnect-Sound}
use umclick.Session.Consumer.Always.{ContentPresents}
use umclick.Session.Consumer.Runs.{Presents, connect-Sound, steps-Sound}

content_any : (content : FrameContent) → ContentPresents (λ _. Unit) content
content_any not_json = tt
content_any not_auth = tt
content_any (auth unknown token) = tt
content_any (auth unhashable token) = tt
content_any (auth (known type) none) = tt
content_any (auth (known type) (some secret)) = tt

Presents-any : (s : Step) → Presents (λ _. Unit) s
Presents-any (frame size guarded content) = content_any content
Presents-any (first_reading now) = tt
Presents-any (second_reading now) = tt
Presents-any (watching now) = tt
Presents-any (lease_answer guarded) = tt
Presents-any (event now name) = tt
Presents-any deadline = tt
Presents-any deadline_end = tt
Presents-any finishing = tt
Presents-any leaving = tt
Presents-any (expiry expected) = tt
Presents-any (heartbeat_round guarded) = tt

All-Presents : (ss : List Step) → All (Presents (λ _. Unit)) ss
All-Presents [] = tt
All-Presents (s ∷ ss) = (Presents-any s, All-Presents ss)

run-Sound :
    (w : World) (guarded : Option Guarded) (ss : List Step)
    → Sound w (λ _. Unit) (steps w ss (connect guarded))
run-Sound w guarded ss =
    steps-Sound w (λ _. Unit) ss (connect guarded) (All-Presents ss)
      (connect-Sound w (λ _. Unit) guarded)

disconnect-lease : (c : Connection) → (disconnect c).open_lease_acquired ≡ false
unfolding disconnect release_lease
disconnect-lease c = elim (Bool-cases c.open_lease_acquired) [
  | inl e ↦ rw e refl
  | inr e ↦ rw e refl
]

-- After any steps a connection has told its client of one error at most, and has closed no more often
-- than that; and when it is disconnected then, it has released its lease just as often as it has
-- opened one.
pub steps-once :
    (w : World) (guarded : Option Guarded) (ss : List Step)
    → (count_if is_error (steps w ss (connect guarded)).sent ≤ 1)
      × (length (steps w ss (connect guarded)).closed
          ≤ count_if is_error (steps w ss (connect guarded)).sent)
      × (count_if is_opened (disconnect (steps w ss (connect guarded))).calls
          ≡ count_if is_released (disconnect (steps w ss (connect guarded))).calls)
steps-once w guarded ss =
    let c = steps w ss (connect guarded) in
    let h = run-Sound w guarded ss in
    (
      at_most _ c.closing h.one_error,
      no_more _ (bit (is_some c.pending)) _ (bit c.closing) h.one_error h.one_close,
      balanced _ _ (disconnect c).open_lease_acquired (disconnect-lease c)
          (disconnect-Sound w (λ _. Unit) c h).lease_held,
    )
  where
    at_most : (n : ℕ) (b : Bool) → n ≡ bit b → n ≤ 1
    at_most n true h = omega (arith, h)
    at_most n false h = omega (arith, h)

    no_more : (n m k l : ℕ) → k ≡ l → n + m ≤ l → n ≤ k
    no_more n m k l e h = omega (arith, e, h)

    balanced : (n m : ℕ) (b : Bool) → b ≡ false → n ≡ m + bit b → n ≡ m
    balanced n m true e h = absurd (cc)
    balanced n m false e h = omega (arith, h)
