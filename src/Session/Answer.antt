-- ===== src/Session/Answer.antt =====
-- `record_answer_attempt` of backend/apps/session/gameplay.py: one press of an answer button.
pub mod Storing
pub mod Outcomes
use umclick.Common.{
  ℕ, ◌+◌, ◌==◌, leb, option_eq, if◌then◌else◌, Bool, true, false, not, ◌&&◌, ◌||◌, Option, none,
  some, List, [], ◌∷◌, find, any, count_if, Result, ok, err, ◌>>=◌, ◌>>◌, raise_if, or_raise,
}
use umclick.Quiz.Model.{choice_of_question}
use umclick.Session.Model.{
  Game, GameplaySchema, v2, SessionQuestionRun, AnswerAttempt, Phase, Error, conflict,
  validation_error, not_current_question, session_moved_on, foreign_participation,
  submission_reused, Env, answer_state_changed, answer_facts, live, answering, delivery, results,
  status_is, find_run,
}
use umclick.Session.Save.{schema_is, insert_attempt}
use umclick.Session.Run.{current_run}
use umclick.Session.Command.{broadcast}

-- The validated body of the request, with the participation that its token stands for.
pub record AnswerInput : Type 0 where
  pub participation_id : ℕ
  pub question_id : ℕ
  pub choice_id : ℕ
  pub submission_id : ℕ

abbrev pub accepts_answers : Phase → Bool
accepts_answers answering = true
accepts_answers delivery = true
accepts_answers results = true
accepts_answers _ = false

-- `_lock_trusted_current_run_for_answer`
unfoldable pub trusted_current_run : Game → ℕ → Option SessionQuestionRun
trusted_current_run g question_id =
    if schema_is g.session.gameplay_schema v2
      && status_is g.session.status live
      && accepts_answers g.session.phase
      && option_eq g.session.current_question_id (some question_id)
    then elim (current_run g) [
      | none ↦ none
      | some run ↦ if run.question_id == question_id then some run else none
    ]
    else none

abbrev pub of_participant : ℕ → ℕ → AnswerAttempt → Bool
of_participant run_id participant a = a.run_id == run_id && a.session_participant_id == participant

abbrev pub existing_attempt : Game → ℕ → AnswerInput → Option AnswerAttempt
existing_attempt g run_id input =
    find
      (λ a.
        of_participant run_id input.participation_id a && a.submission_id == input.submission_id)
      g.attempts

abbrev pub attempts_count : Game → ℕ → ℕ → ℕ
attempts_count g run_id participant = count_if (of_participant run_id participant) g.attempts

abbrev pub answer_digest : Env → AnswerInput → ℕ
answer_digest env input = env.digest (answer_facts input.question_id input.choice_id)

abbrev pub new_attempt : Env → Game → ℕ → AnswerInput → ℕ → AnswerAttempt
new_attempt env g run_id input admitted_at = record {
  pk = g.next_attempt_pk;
  run_id = run_id;
  session_participant_id = input.participation_id;
  choice_id = input.choice_id;
  submission_id = input.submission_id;
  payload_digest = answer_digest env input;
  admitted_at = admitted_at;
  ordinal = attempts_count g run_id input.participation_id + 1;
}

-- A press that is stored already: the stored row, unless it was for another answer.
unfoldable pub repeat_attempt :
    Env → Game → AnswerInput → AnswerAttempt → Result Error (Game × Option AnswerAttempt × Bool)
repeat_attempt env g input existing = do
  raise_if (not (existing.payload_digest == answer_digest env input)) (conflict submission_reused)
  ok (g, some existing, true)

-- A new press: the twenty-first and those after it are dropped in silence.
unfoldable pub store_attempt :
    Env → Game → ℕ → AnswerInput → ℕ → Result Error (Game × Option AnswerAttempt × Bool)
store_attempt env g run_id input admitted_at =
    if leb 20 (attempts_count g run_id input.participation_id)
    then ok (g, none, false)
    else insert_attempt g (new_attempt env g run_id input admitted_at) >>= λ g'. ok (
      broadcast g' answer_state_changed,
      some (new_attempt env g run_id input admitted_at),
      false,
    )

-- A press for a run that is known to be current.
unfoldable pub press :
    Env → Game → ℕ → AnswerInput → ℕ → Result Error (Game × Option AnswerAttempt × Bool)
press env g run_id input admitted_at = elim (existing_attempt g run_id input) [
  | some existing ↦ repeat_attempt env g input existing
  | none ↦ store_attempt env g run_id input admitted_at
]

-- `trusted` is the game as the locking query read it, `g` the game as the later queries read it.
unfoldable pub record_answer_attempt :
    Env → Game → Game → AnswerInput → ℕ → Result Error (Game × Option AnswerAttempt × Bool)
record_answer_attempt env trusted g input admitted_at = do
  run ← or_raise (trusted_current_run trusted input.question_id) (conflict not_current_question)
  raise_if
      (not (
        status_is g.session.status live
        && option_eq g.session.current_run_id (some run.pk)
        && option_eq g.session.current_question_id (some input.question_id)))
      (conflict session_moved_on)
  raise_if (not (any (λ p. p.pk == input.participation_id) g.participants))
      (conflict foreign_participation)
  _ ←
      or_raise (choice_of_question g.version.questions input.question_id input.choice_id)
        validation_error
  press env g run.pk input admitted_at
