-- ===== src/Session/Save.antt =====
-- The `save` methods of backend/apps/session/models.py with the database constraints of their
-- tables: every write of a game goes through these functions.
pub mod Laws
use umclick.Common.{
  ◌*◌, ℕ, suc, ◌+◌, ◌==◌, leb, ltb, option_eq, is_some, is_none, if◌then◌else◌, Bool, true, false,
  not, ◌&&◌, ◌||◌, Option, none, some, List, [], ◌∷◌, ◌++◌, any, Result, ok, err, ◌>>=◌, ◌>>◌,
  raise_if, or_raise,
}
use umclick.Quiz.Model.{QuizVersion, Question, choice_of_question}
use umclick.Session.Model.{
  Game, LiveSession, Origin, GameplaySchema, legacy, v2, Status, waiting, live, SessionQuestionRun,
  AnswerAttempt, FinalAnswer, answered, unanswered, SessionCommand, SessionParticipant, Error,
  history_conflict, integrity_error, does_not_exist, Env, status_is, phase_is, is_over, find_run,
}

abbrev pub seconds : ℕ → ℕ
seconds n = n * 1_000_000

-- `Question.objects.filter(pk=…, quiz_version_id=…).exists()`, true for no question
abbrev pub question_belongs : QuizVersion → ℕ → Option ℕ → Bool
question_belongs v version_id none = true
question_belongs v version_id (some q) = v.pk == version_id && any (λ x. x.pk == q) v.questions

-- `SessionQuestionRun.objects.filter(pk=…, session_id=…, question_id=…).exists()`
abbrev pub run_matches : List SessionQuestionRun → LiveSession → Bool
run_matches runs s = elim s.current_run_id [
  | none ↦ true
  | some k ↦ any (λ r. r.pk == k && option_eq (some r.question_id) s.current_question_id) runs
]

abbrev pub schema_is : GameplaySchema → GameplaySchema → Bool
schema_is legacy legacy = true
schema_is v2 v2 = true
schema_is _ _ = false

abbrev pub text_eq : List ℕ → List ℕ → Bool
text_eq [] [] = true
text_eq (a ∷ xs) (b ∷ ys) = a == b && text_eq xs ys
text_eq _ _ = false

abbrev pub same_origin : Origin → Origin → Bool
same_origin a b =
    a.quiz_version_id == b.quiz_version_id
    && a.created_by_id == b.created_by_id
    && a.join_token == b.join_token
    && a.pin == b.pin
    && a.created_at == b.created_at
    && schema_is a.gameplay_schema b.gameplay_schema

-- Every column of two rows with one key.
abbrev pub same_row : LiveSession → LiveSession → Bool
same_row a b =
    same_origin a.origin b.origin
    && text_eq a.host_name b.host_name
    && status_is a.status b.status
    && phase_is a.phase b.phase
    && a.state_revision == b.state_revision
    && option_eq a.current_question_id b.current_question_id
    && option_eq a.current_run_id b.current_run_id
    && option_eq a.revealed_question_id b.revealed_question_id
    && option_eq a.phase_started_at b.phase_started_at
    && option_eq a.question_started_at b.question_started_at
    && option_eq a.started_at b.started_at
    && option_eq a.finished_at b.finished_at

-- The three refusals of a change to a stored row.
abbrev pub change_refused : LiveSession → LiveSession → Bool
change_refused old s =
    not (if is_over old.status then same_row old s else same_origin old.origin s.origin)
    || (not (status_is old.status waiting) && status_is s.status waiting)
    || (is_some old.started_at && not (option_eq s.started_at old.started_at))

abbrev pub or_now : Bool → Option ℕ → ℕ → Option ℕ
or_now due none now = if due then some now else none
or_now due (some t) now = some t

-- The moments that `save` fills in itself.
abbrev pub stamp : ℕ → LiveSession → LiveSession
stamp now s = record s {
  started_at = or_now (status_is s.status live) s.started_at now;
  finished_at = or_now (is_over s.status) s.finished_at now;
}

-- `LiveSession.save` of a stored row. The pin does not change, so no constraint can fail.
unfoldable pub save_live_session : Env → Game → LiveSession → Result Error Game
save_live_session env g s = do
  raise_if (not (question_belongs g.version s.quiz_version_id s.current_question_id))
      history_conflict
  raise_if (not (run_matches g.runs s)) history_conflict
  raise_if (change_refused g.session s) history_conflict
  ok (record g { session = stamp env.timezone_now s })

-- The check constraints of the table of runs.
abbrev pub results_dates_complete : SessionQuestionRun → Bool
results_dates_complete r =
    (is_none r.finalized_at && is_none r.results_started_at && is_none r.results_ends_at)
    || (is_some r.finalized_at && is_some r.results_started_at && is_some r.results_ends_at)

abbrev pub results_dates_ordered : Option ℕ → Option ℕ → Bool
results_dates_ordered (some a) (some b) = leb a b
results_dates_ordered _ _ = true

abbrev pub run_constraints : SessionQuestionRun → Bool
run_constraints r =
    leb r.reading_started_at r.reading_ends_at
    && leb r.reading_ends_at r.answering_started_at
    && leb r.answering_started_at r.planned_answer_deadline_at
    && r.planned_delivery_deadline_at == r.planned_answer_deadline_at + seconds 3
    && leb r.answering_started_at r.answer_deadline_at
    && leb r.answer_deadline_at r.delivery_deadline_at
    && r.delivery_deadline_at == r.answer_deadline_at + seconds 3
    && leb r.answer_deadline_at r.planned_answer_deadline_at
    && leb r.delivery_deadline_at r.planned_delivery_deadline_at
    && results_dates_complete r
    && results_dates_ordered r.results_started_at r.results_ends_at

-- `SessionQuestionRun.objects.create(…)`
unfoldable pub insert_run : Game → SessionQuestionRun → Result Error Game
insert_run g r = do
  raise_if (not (question_belongs g.version g.session.quiz_version_id (some r.question_id)))
      history_conflict
  raise_if (any (λ x. x.question_id == r.question_id || x.ordinal == r.ordinal) g.runs)
      integrity_error
  raise_if (not (run_constraints r)) integrity_error
  ok (record g { runs = r ∷ g.runs; next_run_pk = suc g.next_run_pk })

abbrev pub same_schedule : SessionQuestionRun → SessionQuestionRun → Bool
same_schedule a b =
    a.question_id == b.question_id
    && a.ordinal == b.ordinal
    && a.reading_started_at == b.reading_started_at
    && a.reading_ends_at == b.reading_ends_at
    && a.answering_started_at == b.answering_started_at
    && a.planned_answer_deadline_at == b.planned_answer_deadline_at
    && a.planned_delivery_deadline_at == b.planned_delivery_deadline_at

abbrev pub same_outcome : SessionQuestionRun → SessionQuestionRun → Bool
same_outcome a b =
    a.answer_deadline_at == b.answer_deadline_at
    && a.delivery_deadline_at == b.delivery_deadline_at
    && option_eq a.finalized_at b.finalized_at
    && option_eq a.results_started_at b.results_started_at
    && option_eq a.results_ends_at b.results_ends_at

abbrev pub replace_run : SessionQuestionRun → List SessionQuestionRun → List SessionQuestionRun
replace_run r [] = []
replace_run r (x ∷ xs) = if x.pk == r.pk then r ∷ xs else x ∷ replace_run r xs

-- `run.save(update_fields=…)`
unfoldable pub update_run : Game → SessionQuestionRun → Result Error Game
update_run g r = do
  raise_if (not (question_belongs g.version g.session.quiz_version_id (some r.question_id)))
      history_conflict
  previous ← or_raise (find_run r.pk g.runs) does_not_exist
  raise_if (not (same_schedule previous r)) history_conflict
  raise_if (is_some previous.finalized_at && not (same_outcome previous r)) history_conflict
  raise_if (not (run_constraints r)) integrity_error
  ok (record g { runs = replace_run r g.runs })

-- `AnswerAttempt.objects.create(…)`
unfoldable pub insert_attempt : Game → AnswerAttempt → Result Error Game
insert_attempt g a = do
  run ← or_raise (find_run a.run_id g.runs) does_not_exist
  raise_if (not (any (λ p. p.pk == a.session_participant_id) g.participants)) does_not_exist
  raise_if (is_none (choice_of_question g.version.questions run.question_id a.choice_id))
      history_conflict
  raise_if (not (leb 1 a.ordinal && leb a.ordinal 20)) history_conflict
  raise_if
      (any
        (λ x.
          x.run_id == a.run_id
          && x.session_participant_id == a.session_participant_id
          && (x.submission_id == a.submission_id || x.ordinal == a.ordinal))
        g.attempts)
      integrity_error
  ok (record g { attempts = g.attempts ++ (a ∷ []); next_attempt_pk = suc g.next_attempt_pk })

abbrev pub attempt_fits : FinalAnswer → Option AnswerAttempt → Bool
attempt_fits f none = true
attempt_fits f (some a) =
    a.run_id == f.run_id && a.session_participant_id == f.session_participant_id

-- The check constraint `final_outcome_fields_match`.
abbrev pub outcome_fields_match : FinalAnswer → Bool
outcome_fields_match f = elim f.outcome [
  | answered ↦
      is_some f.selected_attempt
      && is_some f.timing_attempt
      && is_some f.actual_elapsed_ms
      && is_some f.ranking_elapsed_ms
  | unanswered ↦
      is_none f.selected_attempt
      && is_none f.timing_attempt
      && is_none f.actual_elapsed_ms
      && is_none f.ranking_elapsed_ms
      && not f.is_correct
]

-- `FinalAnswer.objects.create(…)`
unfoldable pub insert_final : Game → FinalAnswer → Result Error Game
insert_final g f = do
  raise_if (not (any (λ p. p.pk == f.session_participant_id) g.participants)) does_not_exist
  raise_if (not (attempt_fits f f.selected_attempt && attempt_fits f f.timing_attempt))
      history_conflict
  raise_if
      (any (λ x. x.run_id == f.run_id && x.session_participant_id == f.session_participant_id)
        g.finals)
      integrity_error
  raise_if (not (outcome_fields_match f)) integrity_error
  ok (record g { finals = g.finals ++ (f ∷ []) })

-- `SessionCommand.objects.create(…)`
unfoldable pub insert_command : Game → SessionCommand → Result Error Game
insert_command g c = do
  raise_if (any (λ x. x.command_id == c.command_id) g.commands) integrity_error
  raise_if (not (c.applied_revision == c.expected_revision + 1)) integrity_error
  ok (record g { commands = c ∷ g.commands })
