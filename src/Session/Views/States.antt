-- ===== src/Session/Views/States.antt =====
-- What all snapshots share, and those of the host and of the display.
use umclick.Common.{
  ℕ, suc, ◌==◌, if◌then◌else◌, Bool, true, false, ◌&&◌, Option, none, some, List, [], ◌∷◌, length,
  any, keep, count_if, is_some,
}
use umclick.Quiz.Model.{Text}
use umclick.Session.Model.{
  Game, Status, Phase, reading, answering, delivery, results, SessionQuestionRun, AnswerAttempt,
  FinalAnswer, Outcome, answered, unanswered, is_over,
}
use umclick.Session.Run.{current_run, on_run}
use umclick.Session.Results.Legacy.{Leaderboard, build_leaderboard}
use umclick.Session.Views.Questions.{
  Outlook, DisplayQuestion, TechnicalQuestion, asked_question, serialize_question_for_display,
  technical_question,
}
use umclick.Session.Views.Reveal.{Reveal, build_answer_reveal_payload}

abbrev pub phase_end : Phase → SessionQuestionRun → Option ℕ
phase_end reading r = some r.reading_ends_at
phase_end answering r = some r.answer_deadline_at
phase_end delivery r = some r.delivery_deadline_at
phase_end results r = r.results_ends_at
phase_end _ r = none

abbrev pub phase_ends_at : Option SessionQuestionRun → Phase → Option ℕ
phase_ends_at none phase = none
phase_ends_at (some r) phase = phase_end phase r

-- `compute_phase_ends_at`
abbrev pub compute_phase_ends_at : Game → Option ℕ
compute_phase_ends_at g = phase_ends_at (current_run g) g.session.phase

-- `run and run.finalized_at`
abbrev pub is_finalized : Option SessionQuestionRun → Bool
is_finalized none = false
is_finalized (some r) = is_some r.finalized_at

pub record BaseState : Type 0 where
  pub schema_version : ℕ
  pub session_id : ℕ
  pub status : Status
  pub phase : Phase
  pub state_revision : ℕ
  pub pin : ℕ
  pub participants_count : ℕ
  pub question_run_id : Option ℕ
  pub phase_started_at : Option ℕ
  pub phase_ends_at : Option ℕ
  pub answering_started_at : Option ℕ
  pub is_answer_revealed : Bool
  pub reading_time_sec : ℕ
  pub results_time_sec : ℕ

abbrev pub base_state : Game → BaseState
base_state g = record {
  schema_version = 2;
  session_id = g.session.join_token;
  status = g.session.status;
  phase = g.session.phase;
  state_revision = g.session.state_revision;
  pin = g.session.pin;
  participants_count = length g.participants;
  question_run_id = on_run (λ r. r.pk) (current_run g);
  phase_started_at = g.session.phase_started_at;
  phase_ends_at = compute_phase_ends_at g;
  answering_started_at = on_run (λ r. r.answering_started_at) (current_run g);
  is_answer_revealed = is_finalized (current_run g);
  reading_time_sec = g.version.reading_time_sec;
  results_time_sec = g.version.results_time_sec;
}

-- The keys `reveal` and `leaderboard` of a snapshot.
abbrev pub reveal_if : Outlook → Game → Bool → Option Reveal
reveal_if o g for_display =
    if is_finalized (current_run g)
    then some (build_answer_reveal_payload o g for_display)
    else none

abbrev pub leaderboard_if : Outlook → Game → Option Leaderboard
leaderboard_if o g =
    if is_over g.session.status then some (build_leaderboard o.legacy_answers g) else none

abbrev pub distinct_people : List AnswerAttempt → ℕ
distinct_people [] = 0
distinct_people (a ∷ attempts) =
    let rest = distinct_people attempts in
    if any (λ (b : AnswerAttempt). b.session_participant_id == a.session_participant_id) attempts
    then rest
    else suc rest

abbrev pub answered_participants_count : Game → Option SessionQuestionRun → ℕ
answered_participants_count g none = 0
answered_participants_count g (some run) =
    if is_some run.finalized_at
    then count_if (λ (f : FinalAnswer). f.run_id == run.pk && is_answered f.outcome) g.finals
    else distinct_people (keep (λ (a : AnswerAttempt). a.run_id == run.pk) g.attempts)
  where
    is_answered : Outcome → Bool
    is_answered answered = true
    is_answered unanswered = false

pub record AccountState : Type 0 where
  pub base : BaseState
  pub current_question : Option TechnicalQuestion
  pub reading_ends_at : Option ℕ
  pub answer_deadline_at : Option ℕ
  pub delivery_deadline_at : Option ℕ
  pub results_ends_at : Option ℕ
  pub answered_participants_count : ℕ
  pub reveal : Option Reveal
  pub leaderboard : Option Leaderboard

abbrev pub run_results_end : Option SessionQuestionRun → Option ℕ
run_results_end none = none
run_results_end (some r) = r.results_ends_at

unfoldable pub build_account_session_state : Outlook → Game → AccountState
build_account_session_state o g = record {
  base = base_state g;
  current_question = technical_question (asked_question g);
  reading_ends_at = on_run (λ r. r.reading_ends_at) (current_run g);
  answer_deadline_at = on_run (λ r. r.answer_deadline_at) (current_run g);
  delivery_deadline_at = on_run (λ r. r.delivery_deadline_at) (current_run g);
  results_ends_at = run_results_end (current_run g);
  answered_participants_count = answered_participants_count g (current_run g);
  reveal = reveal_if o g true;
  leaderboard = leaderboard_if o g;
}

pub record QuizHeader : Type 0 where
  pub id : ℕ
  pub title : Text
  pub description : Text
  pub reading_time_sec : ℕ
  pub results_time_sec : ℕ
  pub question_only_on_display : Bool
  pub show_choices_on_participant : Bool

pub record DisplayState : Type 0 where
  pub base : BaseState
  pub display_question : Option DisplayQuestion
  pub quiz : QuizHeader
  pub reveal : Option Reveal
  pub leaderboard : Option Leaderboard

unfoldable pub build_display_session_state : Outlook → Game → DisplayState
build_display_session_state o g = record {
  base = base_state g;
  display_question =
      serialize_question_for_display o g (is_finalized (current_run g)) (asked_question g);
  quiz = record {
    id = g.version.quiz_id;
    title = g.version.title;
    description = g.version.description;
    reading_time_sec = g.version.reading_time_sec;
    results_time_sec = g.version.results_time_sec;
    question_only_on_display = g.version.question_only_on_display;
    show_choices_on_participant = g.version.show_choices_on_participant;
  };
  reveal = reveal_if o g true;
  leaderboard = leaderboard_if o g;
}
