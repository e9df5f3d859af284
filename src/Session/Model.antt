-- ===== src/Session/Model.antt =====
-- The rows of backend/apps/session/models.py that one live session owns. Moments are microseconds,
-- UUIDs and digests are numbers. Foreign keys to the session are implied: a `Game` holds the row of
-- one session and the rows that refer to it.
use umclick.Common.{ℕ, ◌==◌, Bool, true, false, Option, List, find}
use umclick.Quiz.Model.{QuizVersion}

pub data Status : Type 0 where
  waiting live finished aborted : Status

pub data Phase : Type 0 where
  lobby reading answering delivery results final : Phase

pub data GameplaySchema : Type 0 where
  legacy v2 : GameplaySchema

-- The columns that `LiveSession.save` never lets change.
pub record Origin : Type 0 where
  pub quiz_version_id : ℕ
  pub created_by_id : ℕ
  pub join_token : ℕ
  pub pin : ℕ
  pub created_at : ℕ
  pub gameplay_schema : GameplaySchema

pub record LiveSession : Type 0 where
  pub pk : ℕ
  pub origin : Origin
  pub open origin use *
  pub host_name : List ℕ
  pub status : Status
  pub phase : Phase
  pub state_revision : ℕ
  pub current_question_id : Option ℕ
  pub current_run_id : Option ℕ
  pub revealed_question_id : Option ℕ
  pub phase_started_at : Option ℕ
  pub question_started_at : Option ℕ
  pub started_at : Option ℕ
  pub finished_at : Option ℕ

pub record SessionParticipant : Type 0 where
  pub pk : ℕ
  pub participant_id : ℕ
  pub token_digest : ℕ
  pub name_snapshot : List ℕ

pub record SessionQuestionRun : Type 0 where
  pub pk : ℕ
  pub question_id : ℕ
  pub ordinal : ℕ
  pub reading_started_at : ℕ
  pub reading_ends_at : ℕ
  pub answering_started_at : ℕ
  pub planned_answer_deadline_at : ℕ
  pub planned_delivery_deadline_at : ℕ
  pub answer_deadline_at : ℕ
  pub delivery_deadline_at : ℕ
  pub finalized_at : Option ℕ
  pub results_started_at : Option ℕ
  pub results_ends_at : Option ℕ

pub record AnswerAttempt : Type 0 where
  pub pk : ℕ
  pub run_id : ℕ
  pub session_participant_id : ℕ
  pub choice_id : ℕ
  pub submission_id : ℕ
  pub payload_digest : ℕ
  pub admitted_at : ℕ
  pub ordinal : ℕ

pub data Outcome : Type 0 where
  answered unanswered : Outcome

pub record FinalAnswer : Type 0 where
  pub run_id : ℕ
  pub session_participant_id : ℕ
  pub selected_attempt : Option AnswerAttempt
  pub timing_attempt : Option AnswerAttempt
  pub outcome : Outcome
  pub is_correct : Bool
  pub actual_elapsed_ms : Option ℕ
  pub ranking_elapsed_ms : Option ℕ
  pub finalized_at : ℕ

-- The kinds of command: the five that a host sends and the five that the timer records.
pub data CommandKind : Type 0 where
  start_session start_quiz end_question next_question abort_session : CommandKind
  auto_finalize_question auto_start_answering auto_start_delivery : CommandKind
  auto_finish_session auto_next_question : CommandKind

-- What `_basic_state` returns.
pub record BasicState : Type 0 where
  pub schema_version : ℕ
  pub session_id : ℕ
  pub status : Status
  pub phase : Phase
  pub state_revision : ℕ
  pub question_id : Option ℕ
  pub question_run_id : Option ℕ
  pub reading_ends_at : Option ℕ
  pub answer_deadline_at : Option ℕ
  pub delivery_deadline_at : Option ℕ
  pub results_ends_at : Option ℕ

pub record SessionCommand : Type 0 where
  pub command_id : ℕ
  pub kind : CommandKind
  pub expected_revision : ℕ
  pub payload_digest : ℕ
  pub applied_revision : ℕ
  pub response : BasicState

-- The name of a broadcast, and whether it goes to the account alone.
pub data Event : Type 0 where
  session_started question_reading_started question_answering_started : Event
  answer_delivery_started question_results_opened session_finished session_aborted : Event
  answer_state_changed : Event

-- Runs and commands are kept newest first, attempts and final answers in the order of their keys.
-- `events` are the broadcasts of committed transactions, newest first.
pub record Game : Type 0 where
  pub session : LiveSession
  pub version : QuizVersion
  pub runs : List SessionQuestionRun
  pub participants : List SessionParticipant
  pub attempts : List AnswerAttempt
  pub finals : List FinalAnswer
  pub commands : List SessionCommand
  pub events : List Event
  pub next_run_pk : ℕ
  pub next_attempt_pk : ℕ

pub data Reason : Type 0 where
  not_open_lobby not_live_lobby no_first_question not_answering no_active_run : Reason
  deadline_passed not_in_results run_not_finalized last_question already_over : Reason
  unknown_command command_id_reused stale_revision stale_context : Reason
  not_current_question session_moved_on foreign_participation submission_reused : Reason

pub data Error : Type 0 where
  -- `StateConflict`: a refusal with a snapshot of the stored state
  state_conflict : Reason → BasicState → Error
  -- `Conflict`: a refusal of an answer
  conflict : Reason → Error
  validation_error : Error
  -- a guard of a model's `save`
  history_conflict : Error
  -- a database constraint
  integrity_error : Error
  does_not_exist : Error

-- What `_digest` is applied to.
pub data Payload : Type 0 where
  command_facts : CommandKind → ℕ → Phase → Option ℕ → Payload
  automatic_facts : CommandKind → ℕ → Option ℕ → ℕ → Payload
  answer_facts : ℕ → ℕ → Payload

-- Code that the repository calls: SHA-256 of the JSON text, `uuid5`, the server's clock, and the
-- milliseconds that `int(td.total_seconds() * 1000)` makes of microseconds in floating point.
pub record Env : Type 0 where
  pub digest : Payload → ℕ
  pub uuid5 : ℕ → ℕ → CommandKind → ℕ → ℕ
  pub timezone_now : ℕ
  pub float_ms : ℕ → ℕ

-- The equality tests on the enumerations.
abbrev pub status_is : Status → Status → Bool
status_is waiting waiting = true
status_is live live = true
status_is finished finished = true
status_is aborted aborted = true
status_is _ _ = false

abbrev pub phase_is : Phase → Phase → Bool
phase_is lobby lobby = true
phase_is reading reading = true
phase_is answering answering = true
phase_is delivery delivery = true
phase_is results results = true
phase_is final final = true
phase_is _ _ = false

abbrev pub kind_code : CommandKind → ℕ
kind_code start_session = 0
kind_code start_quiz = 1
kind_code end_question = 2
kind_code next_question = 3
kind_code abort_session = 4
kind_code auto_finalize_question = 5
kind_code auto_start_answering = 6
kind_code auto_start_delivery = 7
kind_code auto_finish_session = 8
kind_code auto_next_question = 9

abbrev pub kind_is : CommandKind → CommandKind → Bool
kind_is a b = kind_code a == kind_code b

-- `status in {FINISHED, ABORTED}`
abbrev pub is_over : Status → Bool
is_over finished = true
is_over aborted = true
is_over _ = false

abbrev pub find_run : ℕ → List SessionQuestionRun → Option SessionQuestionRun
find_run k = find (λ r. r.pk == k)
