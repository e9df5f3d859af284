-- ===== src/Session/Run.antt =====
-- The parts of backend/apps/session/gameplay.py that open a question run, finalize it and close the
-- session. Each function returns the game it leaves behind, or raises.
pub mod Select
pub mod Store
pub mod Streak
use mathlib.Core.List.{reverse}
use umclick.Common.{
  ℕ, suc, ◌+◌, ◌-◌, ◌==◌, leb, ltb, min, is_some, if◌then◌else◌, Bool, true, false, not, ◌&&◌, ◌||◌,
  Option, none, some, List, [], ◌∷◌, length, keep, order_by, Result, ok, err, ◌>>=◌, ◌>>◌, raise_if,
  or_raise,
}
use umclick.Quiz.Model.{Question, ordered_questions, find_choice}
use umclick.Session.Model.{
  Game, LiveSession, SessionQuestionRun, SessionParticipant, AnswerAttempt, FinalAnswer, answered,
  unanswered, BasicState, Error, does_not_exist, Env, Event, question_reading_started,
  session_aborted, session_finished, question_results_opened, live, finished, aborted, lobby,
  reading, results, final, find_run,
}
use umclick.Session.Save.{seconds, save_live_session, insert_run, update_run, insert_final}
use Select.{select_final_attempts}

abbrev pub delivery_window_seconds : ℕ
delivery_window_seconds = 3

-- The row behind `session.current_run`.
abbrev pub current_run : Game → Option SessionQuestionRun
current_run g = elim g.session.current_run_id [ none ↦ none | some k ↦ find_run k g.runs ]

abbrev pub results_end : Option SessionQuestionRun → Option ℕ
results_end none = none
results_end (some r) = r.results_ends_at

abbrev pub on_run : (SessionQuestionRun → ℕ) → Option SessionQuestionRun → Option ℕ
on_run f none = none
on_run f (some r) = some (f r)

-- `_basic_state`
abbrev pub basic_state : Game → BasicState
basic_state g = record {
  schema_version = 2;
  session_id = g.session.join_token;
  status = g.session.status;
  phase = g.session.phase;
  state_revision = g.session.state_revision;
  question_id = g.session.current_question_id;
  question_run_id = g.session.current_run_id;
  reading_ends_at = on_run (λ r. r.reading_ends_at) (current_run g);
  answer_deadline_at = on_run (λ r. r.answer_deadline_at) (current_run g);
  delivery_deadline_at = on_run (λ r. r.delivery_deadline_at) (current_run g);
  results_ends_at = results_end (current_run g);
}

abbrev pub first_question : List Question → Option Question
first_question [] = none
first_question (q ∷ qs) = some q

abbrev pub question_after : ℕ → List Question → Option Question
question_after k [] = none
question_after k (q ∷ qs) = if q.pk == k then first_question qs else question_after k qs

-- `_next_question`
unfoldable pub next_question_of : Game → Option Question
next_question_of g = elim g.session.current_question_id [
  | none ↦ first_question (ordered_questions g.version)
  | some k ↦ question_after k (ordered_questions g.version)
]

-- `_lock_current_run`
unfoldable pub lock_current_run : Game → Result Error (Option SessionQuestionRun)
lock_current_run g = elim g.session.current_run_id [
  | none ↦ ok none
  | some k ↦ or_raise (find_run k g.runs) does_not_exist >>= λ r. ok (some r)
]

-- `_save_session`
unfoldable pub save_session : Env → Game → LiveSession → Result Error Game
save_session env g s = save_live_session env g (record s { state_revision = s.state_revision + 1 })

-- The row that `_start_question` creates.
abbrev pub planned_run : Game → Question → ℕ → SessionQuestionRun
planned_run g question now =
    let reading_ends_at = now + seconds g.version.reading_time_sec in
    let answer_deadline_at = reading_ends_at + seconds question.time_limit_sec in
    let delivery_deadline_at = answer_deadline_at + seconds delivery_window_seconds in
    record {
      pk = g.next_run_pk;
      question_id = question.pk;
      ordinal = length g.runs + 1;
      reading_started_at = now;
      reading_ends_at = reading_ends_at;
      answering_started_at = reading_ends_at;
      planned_answer_deadline_at = answer_deadline_at;
      planned_delivery_deadline_at = delivery_deadline_at;
      answer_deadline_at = answer_deadline_at;
      delivery_deadline_at = delivery_deadline_at;
      finalized_at = none;
      results_started_at = none;
      results_ends_at = none;
    }

-- `_start_question`
unfoldable pub start_question : Env → Game → Question → ℕ → Result Error (Game × Event)
start_question env g question now = do
  let run = planned_run g question now
  g' ← insert_run g run
  g'' ← save_session env g' (record (g'.session) {
    current_question_id = some question.pk;
    current_run_id = some run.pk;
    revealed_question_id = none;
    phase = reading;
    phase_started_at = some now;
    question_started_at = some run.answering_started_at;
  })
  ok (g'', question_reading_started)

-- `_finish_session`
unfoldable pub finish_session : Env → Game → ℕ → Bool → Result Error (Game × Event)
finish_session env g now stopped = do
  _ ← lock_current_run g
  g' ← save_session env g (record (g.session) {
    status = if stopped then aborted else finished;
    phase = final;
    current_question_id = none;
    current_run_id = none;
    revealed_question_id = none;
    phase_started_at = some now;
    question_started_at = none;
    finished_at = some now;
  })
  ok (g', if stopped then session_aborted else session_finished)

-- `order_by('session_participant_id', 'admitted_at', 'id')`
abbrev pub attempt_before : AnswerAttempt → AnswerAttempt → Bool
attempt_before a b =
    ltb a.session_participant_id b.session_participant_id
    || (a.session_participant_id == b.session_participant_id
        && (ltb a.admitted_at b.admitted_at || (a.admitted_at == b.admitted_at && ltb a.pk b.pk)))

-- The attempts that count for a run: those admitted by its delivery deadline.
abbrev pub counted_attempts : Game → SessionQuestionRun → List AnswerAttempt
counted_attempts g run =
    order_by attempt_before
      (keep (λ a. a.run_id == run.pk && leb a.admitted_at run.delivery_deadline_at) g.attempts)

abbrev pub attempts_of : List AnswerAttempt → ℕ → List AnswerAttempt
attempts_of attempts participant = keep (λ a. a.session_participant_id == participant) attempts

-- `int(max(0, (until - since).total_seconds() * 1000))`
abbrev pub elapsed_ms : Env → ℕ → ℕ → ℕ
elapsed_ms env since until = if leb since until then env.float_ms (until - since) else 0

abbrev pub unanswered_final : SessionQuestionRun → ℕ → ℕ → FinalAnswer
unanswered_final run participant now = record {
  run_id = run.pk;
  session_participant_id = participant;
  selected_attempt = none;
  timing_attempt = none;
  outcome = unanswered;
  is_correct = false;
  actual_elapsed_ms = none;
  ranking_elapsed_ms = none;
  finalized_at = now;
}

abbrev pub answered_final :
    Env → SessionQuestionRun → ℕ → ℕ → AnswerAttempt → AnswerAttempt → Bool → FinalAnswer
answered_final env run participant now selected timing is_correct =
    let actual = elapsed_ms env run.answering_started_at timing.admitted_at in
    let window = elapsed_ms env run.answering_started_at run.answer_deadline_at in
    record {
      run_id = run.pk;
      session_participant_id = participant;
      selected_attempt = some selected;
      timing_attempt = some timing;
      outcome = answered;
      is_correct = is_correct;
      actual_elapsed_ms = some actual;
      ranking_elapsed_ms = some (min actual window);
      finalized_at = now;
    }

-- One round of the loop over the participants.
unfoldable pub finalize_participant :
    Env → SessionQuestionRun → ℕ → List AnswerAttempt → Game → ℕ → Result Error Game
finalize_participant env run now attempts g participant =
    elim (select_final_attempts (attempts_of attempts participant)) [
      | none ↦ insert_final g (unanswered_final run participant now)
      | some (selected, timing) ↦
          or_raise (find_choice g.version.questions selected.choice_id) does_not_exist >>= λ choice.
          insert_final g (answered_final env run participant now selected timing choice.is_correct)
    ]

unfoldable pub finalize_participants :
    Env
    → SessionQuestionRun
    → ℕ
    → List AnswerAttempt
    → Game
    → List SessionParticipant
    → Result Error Game
finalize_participants env run now attempts g [] = ok g
finalize_participants env run now attempts g (p ∷ ps) =
    finalize_participant env run now attempts g p.pk >>= λ g'.
    finalize_participants env run now attempts g' ps

-- `order_by('pk')`
abbrev pub participant_before : SessionParticipant → SessionParticipant → Bool
participant_before a b = ltb a.pk b.pk

abbrev pub closed_run : SessionQuestionRun → ℕ → ℕ → SessionQuestionRun
closed_run run now results_time_sec = record run {
  finalized_at = some now;
  results_started_at = some now;
  results_ends_at = some (now + seconds results_time_sec);
}

abbrev pub revealed : LiveSession → SessionQuestionRun → ℕ → LiveSession
revealed s run now = record s {
  phase = results;
  revealed_question_id = some run.question_id;
  phase_started_at = some now;
}

unfoldable pub close_run : Env → Game → SessionQuestionRun → ℕ → Result Error (Game × Option Event)
close_run env g run now = do
  g' ←
      finalize_participants env run now (counted_attempts g run) g
        (order_by participant_before g.participants)
  g'' ← update_run g' (closed_run run now g.version.results_time_sec)
  g''' ← save_session env g'' (revealed g.session run now)
  ok (g''', some question_results_opened)

-- `_finalize_locked`
unfoldable pub finalize_locked :
    Env → Game → SessionQuestionRun → ℕ → Result Error (Game × Option Event)
finalize_locked env g run now =
    if is_some run.finalized_at
    then ok (g, none)
    else if leb now run.delivery_deadline_at
    then ok (g, none)
    else close_run env g run now
