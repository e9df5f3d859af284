-- ===== src/Session/Consumer/Connection.antt =====
-- The state of a `SessionConsumer`, and how it closes and schedules.
use umclick.Common.{ℕ, if◌then◌else◌, Bool, true, false, Option, none, some, List, [], ◌∷◌}
use umclick.Quiz.Model.{Text}
use umclick.Session.Consumer.{AccessType, Claim, CloseReason, Snapshot, Grant}

-- `f'{access_type}:{access_record_id}'`
pub record Subject : Type 0 where
  pub access_type : AccessType
  pub record_id : ℕ

-- `session_group_name`
pub record Group : Type 0 where
  pub session_id : ℕ
  pub access_type : AccessType

pub data ServerMessage : Type 0 where
  connection_error : (code : CloseReason) (retry_after : Option ℕ) → ServerMessage
  session_state : Snapshot → ServerMessage
  session_message : (event : Text) → Snapshot → ServerMessage

-- Where `receive_json` waits: not at all, for the first reading, for the lease, for the second
-- reading.
pub data Stage : Type 0 where
  idle : Stage
  reading_state : Claim → Stage
  taking_lease : Claim → Grant → Stage
  rereading_state : Claim → Grant → Stage

-- Who has begun to close the connection: a handler, or one of the tasks.
pub data Closer : Type 0 where
  by_handler by_deadline by_watch by_expiry by_heartbeat : Closer

-- A closing that has still to release the lease and to close with this code.
pub record Pending : Type 0 where
  pub closer : Closer
  pub close_code : ℕ

-- What the guard is told that changes leases.
pub data GuardCall : Type 0 where
  opened : GuardCall
  acquired : Subject → GuardCall
  released : Option Subject → GuardCall

-- The newest of `sent`, `closed` and `calls` comes first. `claim` and `grant` hold what the checks
-- of the access have read and noted down last.
pub record Connection : Type 0 where
  pub authorized : Bool
  pub closing : Bool
  pub open_lease_acquired : Bool
  pub access_subject : Option Subject
  pub claim : Option Claim
  pub grant : Option Grant
  pub stage : Stage
  pub deadline_done : Bool
  pub expiry_task : Option ℕ
  pub access_task : Bool
  pub lease_task : Bool
  pub group : Option Group
  pub pending : Option Pending
  pub sent : List ServerMessage
  pub closed : List ℕ
  pub calls : List GuardCall

-- An accepted connection, before the guard is asked.
abbrev pub accepted_connection : Connection
accepted_connection = record {
  authorized = false;
  closing = false;
  open_lease_acquired = false;
  access_subject = none;
  claim = none;
  grant = none;
  stage = idle;
  deadline_done = false;
  expiry_task = none;
  access_task = false;
  lease_task = false;
  group = none;
  pending = none;
  sent = [];
  closed = [];
  calls = [];
}

-- `_release_lease`
unfoldable pub release_lease : Connection → Connection
release_lease c =
    if c.open_lease_acquired
    then record c { open_lease_acquired = false; calls = released c.access_subject ∷ c.calls }
    else c

-- `_close_with_error` up to its first wait, which is for the message.
unfoldable pub close_with_error : Closer → ℕ → CloseReason → Option ℕ → Connection → Connection
close_with_error closer close_code reason retry_after c = if c.closing then c else record c {
  closing = true;
  sent = connection_error reason retry_after ∷ c.sent;
  pending = some (record { closer = closer; close_code = close_code });
}

-- The rest of `_close_with_error`
unfoldable pub finish_closing : Connection → Connection
finish_closing c = finish c.pending
  where
    finish : Option Pending → Connection
    finish none = c
    finish (some p) = release_lease (record c { pending = none; closed = p.close_code ∷ c.closed })

abbrev pub is_by_deadline : Closer → Bool
is_by_deadline by_deadline = true
is_by_deadline _ = false

abbrev pub is_by_expiry : Closer → Bool
is_by_expiry by_expiry = true
is_by_expiry _ = false

-- A task that is cancelled while it closes the connection leaves that undone.
abbrev pub cancel : (Closer → Bool) → Option Pending → Option Pending
cancel cancelled none = none
cancel cancelled (some p) = if cancelled p.closer then none else some p

-- `access_expires_at`
abbrev pub access_expires_at : Connection → Option ℕ
access_expires_at c = elim c.grant [ none ↦ none | some grant ↦ grant.expires_at ]

-- `_reschedule_access_expiry`
abbrev pub reschedule_access_expiry : Connection → Connection
reschedule_access_expiry c = record c {
  expiry_task = access_expires_at c;
  pending = cancel is_by_expiry c.pending;
}

-- `disconnect`: the tasks are cancelled, and the group is left.
unfoldable pub disconnect : Connection → Connection
disconnect c = release_lease (record c {
  deadline_done = true;
  expiry_task = none;
  access_task = false;
  lease_task = false;
  stage = idle;
  group = none;
  pending = none;
})
