-- ===== src/Session/Views/Reveal.antt =====
-- `build_answer_reveal_payload`: the correct answers with how often each was given.
use umclick.Common.{
  ℕ, suc, ◌==◌, if◌then◌else◌, Bool, false, not, ◌&&◌, ◌||◌, Option, none, some, List, [], ◌∷◌,
  count_if, is_some,
}
use umclick.Quiz.Model.{Text, Choice, Question}
use umclick.Session.Model.{Game, Status, Phase, SessionQuestionRun, AnswerAttempt, FinalAnswer}
use umclick.Session.Run.{current_run}
use umclick.Session.Results.Legacy.{Leaderboard, build_leaderboard}
use umclick.Session.Views.Questions.{
  Outlook, ChoiceView, ordered_choices_for_session, asked_question, text_if,
}

pub record RevealedChoice : Type 0 where
  pub choice : ChoiceView
  pub is_correct : Bool
  pub answers_count : ℕ
  pub answers_percent : ℕ

pub record RevealedQuestion : Type 0 where
  pub id : ℕ
  pub text : Text
  pub text_hidden : Bool
  pub order : ℕ
  pub time_limit_sec : ℕ

pub data Reveal : Type 0 where
  -- without a question, without choices
  nothing_revealed : (session_id : ℕ) (phase : Phase) → Reveal
  answers_revealed :
      (session_id : ℕ) (status : Status) (phase : Phase) (state_revision : ℕ)
      (question : RevealedQuestion) (choices : List RevealedChoice) (total_answers : ℕ)
      (leaderboard : Leaderboard)
      → Reveal

abbrev pub chose : ℕ → Option AnswerAttempt → Bool
chose choice none = false
chose choice (some a) = a.choice_id == choice

-- `by_choice.get(choice.pk, 0)`
abbrev pub answers_count : Game → SessionQuestionRun → ℕ → ℕ
answers_count g run choice =
    count_if (λ (f : FinalAnswer). f.run_id == run.pk && chose choice f.selected_attempt) g.finals

-- `sum(by_choice.values())`
abbrev pub total_answers : Game → SessionQuestionRun → ℕ
total_answers g run =
    count_if (λ (f : FinalAnswer). f.run_id == run.pk && is_some f.selected_attempt) g.finals

abbrev pub revealed_choices :
    Outlook → Game → SessionQuestionRun → Bool → ℕ → List Choice → List RevealedChoice
revealed_choices o g run shown order [] = []
revealed_choices o g run shown order (c ∷ cs) =
    record {
      choice = record {
        id = c.pk;
        text = text_if shown c.text;
        order = order;
        original_order = c.order;
      };
      is_correct = c.is_correct;
      answers_count = answers_count g run c.pk;
      answers_percent =
          if total_answers g run == 0
          then 0
          else o.percent (answers_count g run c.pk) (total_answers g run);
    }
    ∷ revealed_choices o g run shown (suc order) cs

abbrev pub reveal_of : Outlook → Game → Bool → Option Question → Option SessionQuestionRun → Reveal
reveal_of o g for_display none run = nothing_revealed g.session.join_token g.session.phase
reveal_of o g for_display (some q) none = nothing_revealed g.session.join_token g.session.phase
reveal_of o g for_display (some q) (some run) =
    if is_some run.finalized_at
    then answers_revealed g.session.join_token g.session.status g.session.phase
        g.session.state_revision
        (record {
          id = q.pk;
          text = text_if (for_display || not g.version.question_only_on_display) q.text;
          text_hidden = not for_display && g.version.question_only_on_display;
          order = q.order;
          time_limit_sec = q.time_limit_sec;
        })
        (revealed_choices o g run (for_display || g.version.show_choices_on_participant) 1
          (ordered_choices_for_session o g q))
        (total_answers g run) (build_leaderboard o.legacy_answers g)
    else nothing_revealed g.session.join_token g.session.phase

unfoldable pub build_answer_reveal_payload : Outlook → Game → Bool → Reveal
build_answer_reveal_payload o g for_display =
    reveal_of o g for_display (asked_question g) (current_run g)
