-- ===== src/Session/Consumer/Handlers.antt =====
-- The handlers of a `SessionConsumer` and its tasks. A handler that waits for the database or for
-- the guard is cut there, so that a task may run in between.
use umclick.Common.{
  ℕ, ◌*◌, ltb, if◌then◌else◌, Bool, true, false, not, ◌&&◌, ◌||◌, Option, none, some, [], ◌∷◌,
  option_eq,
}
use umclick.Quiz.Model.{Text}
use umclick.Session.Access.{access_expired}
use umclick.Core.RateLimit.{or_one}
use umclick.Core.Leases.{Reason, rate_limited, limiter_unavailable, Decision}
use umclick.Session.Consumer.{
  AccessType, Claim, CloseReason, protocol_error, auth_timeout, access_malformed,
  access_scope_mismatch, message_too_large, access_failed, limited, Grant, Reading, granted,
  refused, raised,
}
use umclick.Session.Consumer.Connection.{
  Closer, by_handler, by_deadline, by_watch, by_expiry, by_heartbeat, is_by_deadline, cancel,
  Subject, session_state, session_message, idle, reading_state, taking_lease, rereading_state,
  opened, acquired, Connection, accepted_connection, close_with_error, access_expires_at,
  reschedule_access_expiry,
}

-- What the guard answers, if it is there.
pub data Guarded : Type 0 where
  unavailable : Guarded
  decided : Decision → Guarded

abbrev pub unavailable_closed : Closer → Connection → Connection
unavailable_closed closer = close_with_error closer 4503 (limited limiter_unavailable) (some 3)

abbrev pub reason_or : Reason → Option Reason → Reason
reason_or r none = r
reason_or r (some given) = given

-- The part of `connect` after `accept`; without limits the guard is not asked.
unfoldable pub connect : Option Guarded → Connection
connect none = accepted_connection
connect (some unavailable) = unavailable_closed by_handler accepted_connection
connect (some (decided d)) =
    if not d.allowed
    then close_with_error by_handler 4429 (limited (reason_or rate_limited d.reason))
        (some (or_one d.retry_after)) accepted_connection
    else record accepted_connection { open_lease_acquired = true; calls = opened ∷ [] }

-- `_wait_for_auth`, when its time is over, and the end of that task.
unfoldable pub wait_for_auth : Connection → Connection
wait_for_auth c =
    if c.deadline_done || c.authorized
    then c
    else close_with_error by_deadline 4001 auth_timeout none c

abbrev pub deadline_ended : Connection → Connection
deadline_ended c = record c { deadline_done = true }

-- What a frame brings. A list or an object as the type of access has no hash.
pub data ClaimedType : Type 0 where
  known : AccessType → ClaimedType
  unknown unhashable : ClaimedType

pub data FrameContent : Type 0 where
  not_json not_auth : FrameContent
  auth : ClaimedType → (token : Option Text) → FrameContent

-- The tests of `receive_json` up to its first wait.
abbrev pub begin_auth : FrameContent → Connection → Connection
begin_auth not_json c = close_with_error by_handler 4000 protocol_error none c
begin_auth not_auth c = close_with_error by_handler 4000 protocol_error none c
begin_auth (auth unhashable token) c = close_with_error by_handler 4000 protocol_error none c
begin_auth (auth unknown token) c = close_with_error by_handler 4003 access_scope_mismatch none c
begin_auth (auth (known type) none) c = close_with_error by_handler 4003 access_malformed none c
begin_auth (auth (known type) (some secret)) c = record c {
  claim = some (record { access_type = type; secret = secret });
  stage = reading_state (record { access_type = type; secret = secret });
}

abbrev pub tested_auth : FrameContent → Connection → Connection
tested_auth content c =
    if c.authorized
    then close_with_error by_handler 4003 access_scope_mismatch none c
    else begin_auth content c

-- A frame that is no JSON fails before `receive_json`.
unfoldable pub receive_json : FrameContent → Connection → Connection
receive_json not_json c = close_with_error by_handler 4000 protocol_error none c
receive_json not_auth c = tested_auth not_auth c
receive_json (auth type token) c = tested_auth (auth type token) c

abbrev pub max_message_bytes : ℕ
max_message_bytes = 16 * 1024

abbrev pub checked_frame : Option Guarded → FrameContent → Connection → Connection
checked_frame none content c = receive_json content c
checked_frame (some unavailable) content c = unavailable_closed by_handler c
checked_frame (some (decided d)) content c =
    if not d.allowed
    then close_with_error by_handler 4429 (limited rate_limited) (some (or_one d.retry_after)) c
    else receive_json content c

-- `receive`, with what `check_message` answers
unfoldable pub receive : ℕ → Option Guarded → FrameContent → Connection → Connection
receive size guarded content c =
    if ltb max_message_bytes size
    then close_with_error by_handler 1009 message_too_large none c
    else checked_frame guarded content c

abbrev pub subject_of : Claim → Grant → Subject
subject_of claim grant = record { access_type = claim.access_type; record_id = grant.record_id }

-- `receive_json` after its first reading
unfoldable pub state_read : Claim → Reading → Connection → Connection
state_read claim (raised e) c = record c { stage = idle }
state_read claim (refused reason) c =
    close_with_error by_handler 4003 reason none (record c { stage = idle })
state_read claim (granted grant snapshot) c =
    if c.deadline_done
    then close_with_error by_handler 4001 auth_timeout none
        (record c { grant = some grant; stage = idle })
    else record c {
      grant = some grant;
      access_subject = some (subject_of claim grant);
      stage = taking_lease claim grant;
    }

-- From `self.authorized = True` to the second reading.
abbrev pub authorize : Claim → Grant → Connection → Connection
authorize claim grant c = record c {
  authorized = true;
  deadline_done = true;
  pending = cancel is_by_deadline c.pending;
  group = some (record { session_id = grant.session_id; access_type = claim.access_type });
  stage = rereading_state claim grant;
}

abbrev pub is_unavailable : Option Reason → Bool
is_unavailable (some limiter_unavailable) = true
is_unavailable _ = false

-- `receive_json` after `acquire_access`
unfoldable pub lease_answered : Claim → Grant → Option Guarded → Connection → Connection
lease_answered claim grant none c = authorize claim grant c
lease_answered claim grant (some unavailable) c =
    unavailable_closed by_handler (record c { stage = idle })
lease_answered claim grant (some (decided d)) c =
    if not d.allowed
    then close_with_error by_handler (if is_unavailable d.reason then 4503 else 4429)
        (limited (reason_or limiter_unavailable d.reason)) (some (or_one d.retry_after))
        (record c { stage = idle })
    else authorize claim grant (record c { calls = acquired (subject_of claim grant) ∷ c.calls })

-- `receive_json` after its second reading; `limits` is `WS_LIMITS_ENABLED`.
unfoldable pub state_reread : Bool → Claim → Reading → Connection → Connection
state_reread limits claim (raised e) c = record c { stage = idle }
state_reread limits claim (refused reason) c =
    close_with_error by_handler 4003 reason none (record c { stage = idle })
state_reread limits claim (granted grant snapshot) c =
    record (reschedule_access_expiry (record c { grant = some grant; stage = idle })) {
      sent = session_state snapshot ∷ c.sent;
      access_task = true;
      lease_task = limits || c.lease_task;
    }

-- `session_event` after its reading
unfoldable pub session_event : Text → Reading → Connection → Connection
session_event event (raised e) c = c
session_event event (refused reason) c = close_with_error by_handler 4003 reason none c
session_event event (granted grant snapshot) c =
    record (reschedule_access_expiry (record c { grant = some grant })) {
      sent = session_message event snapshot ∷ c.sent;
    }

-- One round of `_watch_access`, with the reason of a refused access.
unfoldable pub watch_access : Option CloseReason → Connection → Connection
watch_access none c = c
watch_access (some reason) c =
    if c.access_task
    then close_with_error by_watch 4003 reason none (record c { access_task = false })
    else c

-- The task for this moment is there, and the access still expires then.
abbrev pub expiry_due : ℕ → Connection → Bool
expiry_due expected_expiry c =
    option_eq c.expiry_task (some expected_expiry)
    && (c.authorized && option_eq (access_expires_at c) (some expected_expiry))

-- `_expire_access`, when its time is over
unfoldable pub expire_access : ℕ → Connection → Connection
expire_access expected_expiry c =
    if expiry_due expected_expiry c
    then close_with_error by_expiry 4003 (access_failed access_expired) none
        (record c { expiry_task = none })
    else c

abbrev pub lease_lost : Connection → Connection
lease_lost c = unavailable_closed by_heartbeat (record c { lease_task = false })

abbrev pub beaten : Guarded → Connection → Connection
beaten unavailable c = lease_lost c
beaten (decided d) c = if not d.allowed then lease_lost c else c

-- One round of `_heartbeat_lease`
unfoldable pub heartbeat_lease : Guarded → Connection → Connection
heartbeat_lease guarded c = if c.lease_task then beaten guarded c else c
