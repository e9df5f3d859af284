-- ===== src/Session/Views/Participant.antt =====
-- The snapshot of a participant.
use umclick.Common.{
  ℕ, zero, suc, ◌==◌, ltb, max, if◌then◌else◌, Bool, true, false, ◌&&◌, ◌||◌, Option, none, some,
  List, [], ◌∷◌, find, keep, order_by, is_some,
}
use umclick.Session.Model.{
  Game, SessionQuestionRun, AnswerAttempt, FinalAnswer, Outcome, answered, unanswered,
}
use umclick.Session.Run.{current_run}
use umclick.Session.Results.Legacy.{Leaderboard}
use umclick.Session.Views.Questions.{
  Outlook, QuestionView, asked_question, serialize_question_for_participants,
}
use umclick.Session.Views.Reveal.{Reveal}
use umclick.Session.Views.States.{BaseState, base_state, reveal_if, leaderboard_if}

-- `order_by('admitted_at', 'id')`
abbrev pub admitted_before : AnswerAttempt → AnswerAttempt → Bool
admitted_before a b =
    ltb a.admitted_at b.admitted_at || (a.admitted_at == b.admitted_at && ltb a.pk b.pk)

abbrev pub first_entries {ℓ} : {A : Type ℓ} → ℕ → List A → List A
first_entries zero xs = []
first_entries (suc n) [] = []
first_entries (suc n) (x ∷ xs) = x ∷ first_entries n xs

abbrev pub last_entry {ℓ} : {A : Type ℓ} → List A → Option A
last_entry [] = none
last_entry (x ∷ []) = some x
last_entry (x ∷ y ∷ ys) = last_entry (y ∷ ys)

-- `_materialize_participant_attempts`
unfoldable pub materialize_participant_attempts : Game → ℕ → ℕ → List AnswerAttempt
materialize_participant_attempts g run_id participation_id = first_entries 20 (
    order_by admitted_before (
      keep
        (λ (a : AnswerAttempt). a.run_id == run_id && a.session_participant_id == participation_id)
        g.attempts))

abbrev pub greatest_ordinal : List AnswerAttempt → ℕ
greatest_ordinal [] = 0
greatest_ordinal (a ∷ attempts) = max a.ordinal (greatest_ordinal attempts)

abbrev pub choice_of : Option AnswerAttempt → Option ℕ
choice_of none = none
choice_of (some a) = some a.choice_id

pub record FinalView : Type 0 where
  pub outcome : Outcome
  pub choice_id : Option ℕ
  pub is_correct : Bool
  pub actual_elapsed_ms : Option ℕ
  pub ranking_elapsed_ms : Option ℕ

-- The key `final` is missing, null, or a final answer.
pub data FinalKey : Type 0 where
  no_key null_key : FinalKey
  final_key : FinalView → FinalKey

pub record AnswerState : Type 0 where
  pub has_answer : Bool
  pub selected_choice_id : Option ℕ
  pub answer_version : ℕ
  pub final : FinalKey

abbrev pub no_answer : AnswerState
no_answer = record {
  has_answer = false;
  selected_choice_id = none;
  answer_version = 0;
  final = no_key;
}

abbrev pub finalized_state : ℕ → Option FinalAnswer → AnswerState
finalized_state version none = record {
  has_answer = false;
  selected_choice_id = none;
  answer_version = version;
  final = null_key;
}
finalized_state version (some f) = record {
  has_answer = elim f.outcome [ answered ↦ true | unanswered ↦ false ];
  selected_choice_id = choice_of f.selected_attempt;
  answer_version = version;
  final = final_key (record {
    outcome = f.outcome;
    choice_id = choice_of f.selected_attempt;
    is_correct = f.is_correct;
    actual_elapsed_ms = f.actual_elapsed_ms;
    ranking_elapsed_ms = f.ranking_elapsed_ms;
  });
}

abbrev pub answer_on_run : Game → SessionQuestionRun → ℕ → AnswerState
answer_on_run g run participation_id =
    let attempts = materialize_participant_attempts g run.pk participation_id in
    if is_some run.finalized_at
    then finalized_state (greatest_ordinal attempts) (
        find
          (λ (f : FinalAnswer). f.run_id == run.pk && f.session_participant_id == participation_id)
          g.finals)
    else record {
      has_answer = is_some (last_entry attempts);
      selected_choice_id = choice_of (last_entry attempts);
      answer_version = greatest_ordinal attempts;
      final = no_key;
    }

abbrev pub answer_state : Game → Option SessionQuestionRun → Option ℕ → AnswerState
answer_state g none participation_id = no_answer
answer_state g (some run) none = no_answer
answer_state g (some run) (some participation_id) = answer_on_run g run participation_id

-- `_participant_answer_state`
abbrev pub participant_answer_state : Game → Option ℕ → AnswerState
participant_answer_state g participation_id = answer_state g (current_run g) participation_id

pub record ParticipantState : Type 0 where
  pub base : BaseState
  pub current_question : Option QuestionView
  pub answer : AnswerState
  pub reveal : Option Reveal
  pub leaderboard : Option Leaderboard

unfoldable pub build_participant_session_state : Outlook → Game → Option ℕ → ParticipantState
build_participant_session_state o g participation_id = record {
  base = base_state g;
  current_question = serialize_question_for_participants o g (asked_question g);
  answer = participant_answer_state g participation_id;
  reveal = reveal_if o g false;
  leaderboard = leaderboard_if o g;
}
