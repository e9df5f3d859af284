-- ===== src/Session/Consumer/Always.antt =====
-- Every handler keeps what holds of a connection.
use umclick.Common.{ℕ, refl, ltb, false, not, ◌||◌, Option, none, some, ◌∷◌}
use umclick.Quiz.Model.{Text}
use umclick.Session.Access.{access_expired}
use umclick.Session.Consumer.{
  access_failed, Claim, CloseReason, Grant, Reading, granted, refused, raised,
}
use umclick.Session.Consumer.Connection.{
  close_with_error, by_expiry, session_state, session_message, idle, taking_lease, rereading_state,
  acquired, Connection, cancel, is_by_deadline, is_by_expiry,
}
use umclick.Session.Consumer.Handlers.{
  Guarded, unavailable, decided, known, unknown, unhashable, FrameContent, not_json, not_auth, auth,
  wait_for_auth, begin_auth, receive_json, tested_auth, checked_frame, beaten, max_message_bytes,
  receive, subject_of, state_read, authorize, lease_answered, state_reread, session_event,
  watch_access, expiry_due, expire_access, heartbeat_lease,
}
use umclick.Session.Consumer.Steps.{World}
use umclick.Session.Consumer.Entitled.{MaySee, Allows}
use umclick.Session.Consumer.Sound.{
  Sound, either-Sound, at_stage-Sound, close_with_error-Sound, cancel-Sound, sent-Sound,
}

-- The claims that the frames bring.
abbrev pub ContentPresents : (Claim → Type 0) → FrameContent → Type 0
ContentPresents P (auth (known type) (some secret)) =
    P (record { access_type = type; secret = secret })
ContentPresents P _ = Unit

module _ (w : World) (P : Claim → Type 0) where
  pub wait_for_auth-Sound : (c : Connection) → Sound w P c → Sound w P (wait_for_auth c)
  unfolding wait_for_auth
  wait_for_auth-Sound c h =
      either-Sound w P (c.deadline_done || c.authorized) _ _ (λ _. h)
        λ _. close_with_error-Sound w P _ _ _ _ c h

  begin_auth-Sound :
      (content : FrameContent) (c : Connection)
      → ContentPresents P content
      → Sound w P c
      → Sound w P (begin_auth content c)
  begin_auth-Sound not_json c k h = close_with_error-Sound w P _ _ _ _ c h
  begin_auth-Sound not_auth c k h = close_with_error-Sound w P _ _ _ _ c h
  begin_auth-Sound (auth unhashable token) c k h = close_with_error-Sound w P _ _ _ _ c h
  begin_auth-Sound (auth unknown token) c k h = close_with_error-Sound w P _ _ _ _ c h
  begin_auth-Sound (auth (known type) none) c k h = close_with_error-Sound w P _ _ _ _ c h
  begin_auth-Sound (auth (known type) (some secret)) c k h = record {
    claim_presented = k;
    stage_presented = k;
    sent_allowed = h.sent_allowed;
    one_error = h.one_error;
    one_close = h.one_close;
    lease_held = h.lease_held;
    lease_over = h.lease_over;
  }

  tested-Sound :
      (content : FrameContent) (c : Connection)
      → ContentPresents P content
      → Sound w P c
      → Sound w P (tested_auth content c)
  tested-Sound content c k h =
      either-Sound w P c.authorized _ _ (λ _. close_with_error-Sound w P _ _ _ _ c h)
        λ _. begin_auth-Sound content c k h

  receive_json-Sound :
      (content : FrameContent) (c : Connection)
      → ContentPresents P content
      → Sound w P c
      → Sound w P (receive_json content c)
  unfolding receive_json
  receive_json-Sound not_json c k h = close_with_error-Sound w P _ _ _ _ c h
  receive_json-Sound not_auth c k h = tested-Sound not_auth c k h
  receive_json-Sound (auth type token) c k h = tested-Sound (auth type token) c k h

  checked_frame-Sound :
      (guarded : Option Guarded) (content : FrameContent) (c : Connection)
      → ContentPresents P content
      → Sound w P c
      → Sound w P (checked_frame guarded content c)
  checked_frame-Sound none content c k h = receive_json-Sound content c k h
  checked_frame-Sound (some unavailable) content c k h = close_with_error-Sound w P _ _ _ _ c h
  checked_frame-Sound (some (decided d)) content c k h =
      either-Sound w P (not d.allowed) _ _ (λ _. close_with_error-Sound w P _ _ _ _ c h)
        λ _. receive_json-Sound content c k h

  pub receive-Sound :
      (size : ℕ) (guarded : Option Guarded) (content : FrameContent) (c : Connection)
      → ContentPresents P content
      → Sound w P c
      → Sound w P (receive size guarded content c)
  unfolding receive
  receive-Sound size guarded content c k h =
      either-Sound w P (ltb max_message_bytes size) _ _
        (λ _. close_with_error-Sound w P _ _ _ _ c h) λ _. checked_frame-Sound guarded content c k h

  pub state_read-Sound :
      (claim : Claim) (r : Reading) (c : Connection)
      → P claim
      → Sound w P c
      → Sound w P (state_read claim r c)
  unfolding state_read
  state_read-Sound claim (raised e) c k h = at_stage-Sound w P c idle h tt
  state_read-Sound claim (refused reason) c k h =
      close_with_error-Sound w P _ _ _ _ _ (at_stage-Sound w P c idle h tt)
  state_read-Sound claim (granted grant snapshot) c k h =
      either-Sound w P c.deadline_done _ _
        (λ _.
          close_with_error-Sound w P _ _ _ _ _
            (at_stage-Sound w P (record c { grant = some grant }) idle h tt))
        λ _.
          at_stage-Sound w P
            (record c { grant = some grant; access_subject = some (subject_of claim grant) })
            (taking_lease claim grant) h k

  authorize-Sound :
      (claim : Claim) (grant : Grant) (c : Connection)
      → P claim
      → Sound w P c
      → Sound w P (authorize claim grant c)
  authorize-Sound claim grant c k h =
      at_stage-Sound w P (record c { pending = cancel is_by_deadline c.pending })
        (rereading_state claim grant) (cancel-Sound w P is_by_deadline c h) k

  acquired-Sound :
      (claim : Claim) (grant : Grant) (c : Connection)
      → Sound w P c
      → Sound w P (record c { calls = acquired (subject_of claim grant) ∷ c.calls })
  acquired-Sound claim grant c h = record {
    claim_presented = h.claim_presented;
    stage_presented = h.stage_presented;
    sent_allowed = h.sent_allowed;
    one_error = h.one_error;
    one_close = h.one_close;
    lease_held = h.lease_held;
    lease_over = h.lease_over;
  }

  pub lease_answered-Sound :
      (claim : Claim) (grant : Grant) (guarded : Option Guarded) (c : Connection)
      → P claim
      → Sound w P c
      → Sound w P (lease_answered claim grant guarded c)
  unfolding lease_answered
  lease_answered-Sound claim grant none c k h = authorize-Sound claim grant c k h
  lease_answered-Sound claim grant (some unavailable) c k h =
      close_with_error-Sound w P _ _ _ _ _ (at_stage-Sound w P c idle h tt)
  lease_answered-Sound claim grant (some (decided d)) c k h =
      either-Sound w P (not d.allowed) _ _
        (λ _. close_with_error-Sound w P _ _ _ _ _ (at_stage-Sound w P c idle h tt))
        λ _.
          authorize-Sound claim grant
            (record c { calls = acquired (subject_of claim grant) ∷ c.calls }) k
            (acquired-Sound claim grant c h)

  -- What a reading at a moment has given.
  abbrev pub Read : ℕ → Claim → Reading → Type 0
  Read now claim =
      Allows w.services (w.database now) now w.session_uuid claim
        (λ _. MaySee w.services (w.database now) now w.session_uuid claim)

  pub state_reread-Sound :
      (now : ℕ) (claim : Claim) (r : Reading) (c : Connection)
      → P claim
      → Read now claim r
      → Sound w P c
      → Sound w P (state_reread w.limits claim r c)
  unfolding state_reread
  state_reread-Sound now claim (raised e) c k m h = at_stage-Sound w P c idle h tt
  state_reread-Sound now claim (refused reason) c k m h =
      close_with_error-Sound w P _ _ _ _ _ (at_stage-Sound w P c idle h tt)
  state_reread-Sound now claim (granted grant snapshot) c k m h =
      sent-Sound w P (record c { stage = idle; pending = cancel is_by_expiry c.pending })
        (session_state snapshot)
        (at_stage-Sound w P (record c { pending = cancel is_by_expiry c.pending }) idle
          (cancel-Sound w P is_by_expiry c h) tt)
        refl (record { now = now; claim = claim; presented = k; may_see = m })

  pub session_event-Sound :
      (now : ℕ) (name : Text) (claim : Claim) (r : Reading) (c : Connection)
      → P claim
      → Read now claim r
      → Sound w P c
      → Sound w P (session_event name r c)
  unfolding session_event
  session_event-Sound now name claim (raised e) c k m h = h
  session_event-Sound now name claim (refused reason) c k m h =
      close_with_error-Sound w P _ _ _ _ c h
  session_event-Sound now name claim (granted grant snapshot) c k m h =
      sent-Sound w P (record c { pending = cancel is_by_expiry c.pending })
        (session_message name snapshot) (cancel-Sound w P is_by_expiry c h) refl
        (record { now = now; claim = claim; presented = k; may_see = m })

  pub watch_access-Sound :
      (reason : Option CloseReason) (c : Connection)
      → Sound w P c
      → Sound w P (watch_access reason c)
  unfolding watch_access
  watch_access-Sound none c h = h
  watch_access-Sound (some reason) c h =
      either-Sound w P c.access_task _ _
        (λ _. close_with_error-Sound w P _ _ _ _ (record c { access_task = false }) h) (λ _. h)

  pub expire_access-Sound :
      (expected : ℕ) (c : Connection) → Sound w P c → Sound w P (expire_access expected c)
  unfolding expire_access
  expire_access-Sound expected c h =
      either-Sound w P (expiry_due expected c)
        (close_with_error by_expiry 4003 (access_failed access_expired) none
          (record c { expiry_task = none }))
        c (λ _. close_with_error-Sound w P _ _ _ _ (record c { expiry_task = none }) h) (λ _. h)

  beaten-Sound : (guarded : Guarded) (c : Connection) → Sound w P c → Sound w P (beaten guarded c)
  beaten-Sound unavailable c h =
      close_with_error-Sound w P _ _ _ _ (record c { lease_task = false }) h
  beaten-Sound (decided d) c h =
      either-Sound w P (not d.allowed) _ _
        (λ _. close_with_error-Sound w P _ _ _ _ (record c { lease_task = false }) h) (λ _. h)

  pub heartbeat_lease-Sound :
      (guarded : Guarded) (c : Connection) → Sound w P c → Sound w P (heartbeat_lease guarded c)
  unfolding heartbeat_lease
  heartbeat_lease-Sound guarded c h =
      either-Sound w P c.lease_task _ _ (λ _. beaten-Sound guarded c h) (λ _. h)
