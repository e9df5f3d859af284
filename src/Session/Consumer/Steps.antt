-- ===== src/Session/Consumer/Steps.antt =====
-- One connection in the course of time: frames, events and tasks in any order, with a database that
-- others change.
use umclick.Common.{ℕ, if◌then◌else◌, Bool, Option, none, some, List, [], ◌∷◌, is_some}
use umclick.Quiz.Model.{Text}
use umclick.Session.Consumer.{Claim, Database, Services, Grant, state_if_allowed, access_is_allowed}
use umclick.Session.Consumer.Connection.{
  Stage, idle, reading_state, taking_lease, rereading_state, Connection, finish_closing, disconnect,
}
use umclick.Session.Consumer.Handlers.{
  Guarded, FrameContent, wait_for_auth, deadline_ended, receive, state_read, lease_answered,
  state_reread, session_event, watch_access, expire_access, heartbeat_lease,
}

-- A step has its moment, if it reads anything then, and what the guard answers.
pub data Step : Type 0 where
  frame : (size : ℕ) → Option Guarded → FrameContent → Step
  first_reading second_reading watching : (now : ℕ) → Step
  lease_answer : Option Guarded → Step
  event : (now : ℕ) → Text → Step
  deadline deadline_end finishing leaving : Step
  expiry : (expected : ℕ) → Step
  heartbeat_round : Guarded → Step

-- What does not change: the session that the address names, the services, the limits, and the
-- database at each moment.
pub record World : Type 0 where
  pub session_uuid : ℕ
  pub services : Services
  pub limits : Bool
  pub database : ℕ → Database

abbrev pub read_first : World → ℕ → Connection → Stage → Connection
read_first w now c (reading_state claim) =
    state_read claim (state_if_allowed w.services (w.database now) now w.session_uuid claim) c
read_first w now c _ = c

abbrev pub answer_lease : Option Guarded → Connection → Stage → Connection
answer_lease guarded c (taking_lease claim grant) = lease_answered claim grant guarded c
answer_lease guarded c _ = c

abbrev pub read_again : World → ℕ → Connection → Stage → Connection
read_again w now c (rereading_state claim grant) =
    state_reread w.limits claim
      (state_if_allowed w.services (w.database now) now w.session_uuid claim) c
read_again w now c _ = c

-- Events come to the members of a group.
abbrev pub read_event : World → ℕ → Text → Connection → Option Claim → Connection
read_event w now name c none = c
read_event w now name c (some claim) =
    if is_some c.group
    then session_event name (state_if_allowed w.services (w.database now) now w.session_uuid claim)
        c
    else c

abbrev pub watch : World → ℕ → Connection → Option Claim → Option Grant → Connection
watch w now c (some claim) (some grant) =
    watch_access (access_is_allowed w.services (w.database now) now claim grant) c
watch w now c _ _ = c

-- A frame waits until `receive_json` is done with the last one.
abbrev pub take_frame : ℕ → Option Guarded → FrameContent → Connection → Stage → Connection
take_frame size guarded content c idle = receive size guarded content c
take_frame size guarded content c _ = c

unfoldable pub step : World → Step → Connection → Connection
step w (frame size guarded content) c = take_frame size guarded content c c.stage
step w (first_reading now) c = read_first w now c c.stage
step w (lease_answer guarded) c = answer_lease guarded c c.stage
step w (second_reading now) c = read_again w now c c.stage
step w (event now name) c = read_event w now name c c.claim
step w deadline c = wait_for_auth c
step w deadline_end c = deadline_ended c
step w (watching now) c = watch w now c c.claim c.grant
step w (expiry expected) c = expire_access expected c
step w (heartbeat_round guarded) c = heartbeat_lease guarded c
step w finishing c = finish_closing c
step w leaving c = disconnect c

-- The first step is taken first.
unfoldable pub steps : World → List Step → Connection → Connection
steps w [] c = c
steps w (s ∷ rest) c = steps w rest (step w s c)
