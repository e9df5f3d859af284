-- ===== src/Session/Consumer/Runs.antt =====
-- What holds of a connection after any steps.
use umclick.Common.{ℕ, refl, true, not, Option, none, some, List, [], ◌∷◌, All, is_some, arith}
use umclick.Quiz.Model.{Text}
use umclick.Session.Consumer.{Claim, Grant}
use umclick.Session.Consumer.Connection.{
  Stage, idle, reading_state, taking_lease, rereading_state, opened, Connection,
  accepted_connection,
}
use umclick.Session.Consumer.Handlers.{Guarded, unavailable, decided, FrameContent, connect}
use umclick.Session.Consumer.Steps.{
  Step, frame, first_reading, second_reading, watching, lease_answer, event, deadline, deadline_end,
  finishing, leaving, expiry, heartbeat_round, World, read_first, answer_lease, read_again,
  read_event, watch, take_frame, step, steps,
}
use umclick.Session.Consumer.Entitled.{state_if_allowed-MaySee}
use umclick.Session.Consumer.Sound.{
  IsAllowed, ClaimPresented, StagePresented, Sound, either-Sound, close_with_error-Sound,
  finish_closing-Sound, disconnect-Sound,
}
use umclick.Session.Consumer.Always.{
  ContentPresents, wait_for_auth-Sound, receive-Sound, state_read-Sound, lease_answered-Sound,
  state_reread-Sound, session_event-Sound, watch_access-Sound, expire_access-Sound,
  heartbeat_lease-Sound,
}

-- The claims that a step brings.
abbrev pub Presents : (Claim → Type 0) → Step → Type 0
Presents P (frame size guarded content) = ContentPresents P content
Presents P _ = Unit

module _ (w : World) (P : Claim → Type 0) where
  accepted-Sound : Sound w P accepted_connection
  accepted-Sound = record {
    claim_presented = tt;
    stage_presented = tt;
    sent_allowed = tt;
    one_error = refl;
    one_close = omega arith;
    lease_held = refl;
    lease_over = λ e. absurd (cc);
  }

  pub connect-Sound : (guarded : Option Guarded) → Sound w P (connect guarded)
  unfolding connect
  connect-Sound none = accepted-Sound
  connect-Sound (some unavailable) =
      close_with_error-Sound w P _ _ _ _ accepted_connection accepted-Sound
  connect-Sound (some (decided d)) =
      either-Sound w P (not d.allowed) _
        (record accepted_connection { open_lease_acquired = true; calls = opened ∷ [] })
        (λ _. close_with_error-Sound w P _ _ _ _ accepted_connection accepted-Sound)
        λ _. record {
          claim_presented = tt;
          stage_presented = tt;
          sent_allowed = tt;
          one_error = refl;
          one_close = omega arith;
          lease_held = refl;
          lease_over = λ e. absurd (cc);
        }

  read_first-Sound :
      (now : ℕ) (c : Connection) (stage : Stage)
      → StagePresented w P stage
      → Sound w P c
      → Sound w P (read_first w now c stage)
  read_first-Sound now c idle k h = h
  read_first-Sound now c (reading_state claim) k h = state_read-Sound w P claim _ c k h
  read_first-Sound now c (taking_lease claim grant) k h = h
  read_first-Sound now c (rereading_state claim grant) k h = h

  answer_lease-Sound :
      (guarded : Option Guarded) (c : Connection) (stage : Stage)
      → StagePresented w P stage
      → Sound w P c
      → Sound w P (answer_lease guarded c stage)
  answer_lease-Sound guarded c idle k h = h
  answer_lease-Sound guarded c (reading_state claim) k h = h
  answer_lease-Sound guarded c (taking_lease claim grant) k h =
      lease_answered-Sound w P claim grant guarded c k h
  answer_lease-Sound guarded c (rereading_state claim grant) k h = h

  read_again-Sound :
      (now : ℕ) (c : Connection) (stage : Stage)
      → StagePresented w P stage
      → Sound w P c
      → Sound w P (read_again w now c stage)
  read_again-Sound now c idle k h = h
  read_again-Sound now c (reading_state claim) k h = h
  read_again-Sound now c (taking_lease claim grant) k h = h
  read_again-Sound now c (rereading_state claim grant) k h =
      state_reread-Sound w P now claim _ c k
        (state_if_allowed-MaySee w.services (w.database now) now w.session_uuid claim) h

  read_event-Sound :
      (now : ℕ) (name : Text) (c : Connection) (claim : Option Claim)
      → ClaimPresented w P claim
      → Sound w P c
      → Sound w P (read_event w now name c claim)
  read_event-Sound now name c none k h = h
  read_event-Sound now name c (some claim) k h =
      either-Sound w P (is_some c.group) _ c
        (λ _.
          session_event-Sound w P now name claim _ c k
            (state_if_allowed-MaySee w.services (w.database now) now w.session_uuid claim) h)
        (λ _. h)

  watch-Sound :
      (now : ℕ) (c : Connection) (claim : Option Claim) (grant : Option Grant)
      → Sound w P c
      → Sound w P (watch w now c claim grant)
  watch-Sound now c none grant h = h
  watch-Sound now c (some claim) none h = h
  watch-Sound now c (some claim) (some grant) h = watch_access-Sound w P _ c h

  take_frame-Sound :
      (size : ℕ) (guarded : Option Guarded) (content : FrameContent) (c : Connection)
      (stage : Stage)
      → ContentPresents P content
      → Sound w P c
      → Sound w P (take_frame size guarded content c stage)
  take_frame-Sound size guarded content c idle k h = receive-Sound w P size guarded content c k h
  take_frame-Sound size guarded content c (reading_state claim) k h = h
  take_frame-Sound size guarded content c (taking_lease claim grant) k h = h
  take_frame-Sound size guarded content c (rereading_state claim grant) k h = h

  step-Sound : (s : Step) (c : Connection) → Presents P s → Sound w P c → Sound w P (step w s c)
  unfolding step
  step-Sound (frame size guarded content) c k h =
      take_frame-Sound size guarded content c c.stage k h
  step-Sound (first_reading now) c k h = read_first-Sound now c c.stage h.stage_presented h
  step-Sound (second_reading now) c k h = read_again-Sound now c c.stage h.stage_presented h
  step-Sound (watching now) c k h = watch-Sound now c c.claim c.grant h
  step-Sound (lease_answer guarded) c k h = answer_lease-Sound guarded c c.stage h.stage_presented h
  step-Sound (event now name) c k h = read_event-Sound now name c c.claim h.claim_presented h
  step-Sound deadline c k h = wait_for_auth-Sound w P c h
  step-Sound deadline_end c k h = h
  step-Sound finishing c k h = finish_closing-Sound w P c h
  step-Sound leaving c k h = disconnect-Sound w P c h
  step-Sound (expiry expected) c k h = expire_access-Sound w P expected c h
  step-Sound (heartbeat_round guarded) c k h = heartbeat_lease-Sound w P guarded c h

  pub steps-Sound :
      (ss : List Step) (c : Connection)
      → All (Presents P) ss
      → Sound w P c
      → Sound w P (steps w ss c)
  unfolding steps
  steps-Sound [] c k h = h
  steps-Sound (s ∷ ss) c k h = steps-Sound ss (step w s c) k.1 (step-Sound s c k.0 h)

  -- Every snapshot that a connection has sent, after any steps, was read at some moment for a claim
  -- that one of its frames brought, from rows which at that moment entitle the claim to it: the
  -- participation or the valid display that the secret belongs to, or an account that may manage the
  -- session, in the session of the connection.
  pub steps-MaySee :
      (guarded : Option Guarded) (ss : List Step)
      → All (Presents P) ss
      → All (IsAllowed w P) (steps w ss (connect guarded)).sent
  steps-MaySee guarded ss k =
      (steps-Sound ss (connect guarded) k (connect-Sound guarded)).sent_allowed
