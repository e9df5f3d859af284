-- ===== src/Session/Transition.antt =====
-- `_apply_transition` of backend/apps/session/gameplay.py: what each command of the host does.
pub mod Moved
pub mod Opening
pub mod Stopping
pub mod Outcomes
use umclick.Common.{
  ℕ, ◌+◌, leb, is_some, if◌then◌else◌, Bool, true, false, not, ◌&&◌, ◌||◌, Option, none, some,
  Result, ok, err, ◌>>=◌, ◌>>◌, raise_if, or_raise,
}
use umclick.Session.Model.{
  Game, SessionQuestionRun, CommandKind, start_session, start_quiz, end_question, next_question,
  abort_session, Error, state_conflict, Reason, not_open_lobby, not_live_lobby, no_first_question,
  not_answering, no_active_run, deadline_passed, not_in_results, run_not_finalized, last_question,
  already_over, unknown_command, Env, Event, session_started, answer_delivery_started, waiting,
  live, lobby, answering, delivery, results, status_is, phase_is, is_over,
}
use umclick.Session.Save.{seconds, update_run}
use umclick.Session.Run.{
  basic_state, next_question_of, lock_current_run, save_session, start_question, finish_session,
  delivery_window_seconds,
}

-- `_conflict`
abbrev pub refuse : Game → Reason → Error
refuse g reason = state_conflict reason (basic_state g)

abbrev pub unless_in : Game → Bool → Reason → Result Error (Unit {0})
unless_in g test reason = raise_if (not test) (refuse g reason)

unfoldable pub apply_start_session : Env → Game → ℕ → Result Error (Game × Event)
apply_start_session env g now = do
  unless_in g (status_is g.session.status waiting && phase_is g.session.phase lobby) not_open_lobby
  g' ← save_session env g (record (g.session) { status = live; started_at = some now })
  ok (g', session_started)

unfoldable pub apply_start_quiz : Env → Game → ℕ → Result Error (Game × Event)
apply_start_quiz env g now = do
  unless_in g (status_is g.session.status live && phase_is g.session.phase lobby) not_live_lobby
  question ← or_raise (next_question_of g) (refuse g no_first_question)
  start_question env g question now

-- The run after the host has closed the answering early.
abbrev pub shortened_run : SessionQuestionRun → ℕ → SessionQuestionRun
shortened_run run now = record run {
  answer_deadline_at = now;
  delivery_deadline_at = now + seconds delivery_window_seconds;
}

unfoldable pub apply_end_question : Env → Game → ℕ → Result Error (Game × Event)
apply_end_question env g now = do
  unless_in g (status_is g.session.status live && phase_is g.session.phase answering) not_answering
  locked ← lock_current_run g
  run ← or_raise locked (refuse g no_active_run)
  raise_if (is_some run.finalized_at) (refuse g no_active_run)
  raise_if (leb run.planned_answer_deadline_at now) (refuse g deadline_passed)
  g' ← update_run g (shortened_run run now)
  g'' ← save_session env g' (record (g'.session) { phase = delivery; phase_started_at = some now })
  ok (g'', answer_delivery_started)

unfoldable pub apply_next_question : Env → Game → ℕ → Result Error (Game × Event)
apply_next_question env g now = do
  unless_in g (status_is g.session.status live && phase_is g.session.phase results) not_in_results
  locked ← lock_current_run g
  run ← or_raise locked (refuse g run_not_finalized)
  raise_if (not (is_some run.finalized_at)) (refuse g run_not_finalized)
  question ← or_raise (next_question_of g) (refuse g last_question)
  start_question env g question now

unfoldable pub apply_abort_session : Env → Game → ℕ → Result Error (Game × Event)
apply_abort_session env g now = do
  raise_if (is_over g.session.status) (refuse g already_over)
  finish_session env g now true

-- `_apply_transition`
unfoldable pub apply_transition : Env → Game → CommandKind → ℕ → Result Error (Game × Event)
apply_transition env g start_session now = apply_start_session env g now
apply_transition env g start_quiz now = apply_start_quiz env g now
apply_transition env g end_question now = apply_end_question env g now
apply_transition env g next_question now = apply_next_question env g now
apply_transition env g abort_session now = apply_abort_session env g now
apply_transition env g _ now = err (refuse g unknown_command)
