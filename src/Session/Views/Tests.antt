-- ===== src/Session/Views/Tests.antt =====
-- The snapshots of a question whose texts only the display shows.
use umclick.Common.{◌≡◌, refl, Bool, true, false, not, some, [], ◌∷◌, ◌++◌, ok, arith}
use umclick.Quiz.Model.{Text, Choice, Question}
use umclick.Session.Model.{Game, answer_state_changed}
use umclick.Session.Answer.{AnswerInput, new_attempt, press, store_attempt, record_answer_attempt}
use umclick.Session.Save.{insert_attempt}
use umclick.Session.Games.{env, version, run, answering_game, answering_game-IsValid}
use umclick.Session.Views.Questions.{Outlook}
use umclick.Session.Views.States.{build_display_session_state, build_account_session_state}
use umclick.Session.Views.Participant.{
  build_participant_session_state, materialize_participant_attempts,
}
use umclick.Session.Views.Pressed.{record_answer_attempt-shown}
use umclick.Session.Views.Edit.{edit}
use umclick.Session.Views.Secret.{build_participant_session_state-edit, build_session_state-mark}

abbrev swapped : Outlook
swapped = record {
  positions = λ session question token n. 1 ∷ 0 ∷ [];
  percent = λ part whole. part;
  legacy_answers = [];
}

abbrev quiet_game : Game
quiet_game = record answering_game {
  version = record version { question_only_on_display = true; show_choices_on_participant = false };
}

abbrev other_title : Question → Text
other_title q = b'?' ∷ []

abbrev other_text : Choice → Text
other_text c = b'!' ∷ []

abbrev other_mark : Choice → Bool
other_mark c = not c.is_correct

-- The player is told of the press, and sees two choices without text.
answer_test :
    (build_participant_session_state swapped quiet_game (some 5)).answer.selected_choice_id
    ≡ some 101
unfolding build_participant_session_state materialize_participant_attempts
answer_test = refl

build_participant_session_state-edit_example :
    build_participant_session_state swapped
      (edit other_title other_text other_mark quiet_game)
      (some 5)
    ≡ build_participant_session_state swapped quiet_game (some 5)
build_participant_session_state-edit_example =
    build_participant_session_state-edit swapped quiet_game other_title other_text other_mark
      (some 5) (λ e. absurd (cc)) (λ e. absurd (cc)) (λ e. absurd (cc))

build_session_state-mark_example :
    (build_display_session_state swapped (edit (λ q. q.text) (λ c. c.text) other_mark quiet_game)
      ≡ build_display_session_state swapped quiet_game)
    × (build_account_session_state swapped (edit (λ q. q.text) (λ c. c.text) other_mark quiet_game)
        ≡ build_account_session_state swapped quiet_game)
build_session_state-mark_example =
    build_session_state-mark swapped quiet_game other_mark (λ e. absurd (cc))

abbrev other_press : AnswerInput
other_press = record {
  participation_id = 5;
  question_id = 11;
  choice_id = 102;
  submission_id = 902;
}

abbrev pressed_game : Game
pressed_game = record answering_game {
  attempts = answering_game.attempts ++ new_attempt env answering_game 1 other_press 7_000_000 ∷ [];
  events = answer_state_changed ∷ [];
  next_attempt_pk = 3;
}

stored_test :
    record_answer_attempt env answering_game answering_game other_press 7_000_000
    ≡ ok (pressed_game, some (new_attempt env answering_game 1 other_press 7_000_000), false)
unfolding record_answer_attempt press store_attempt insert_attempt
    umclick.Session.Answer.trusted_current_run
stored_test = refl

record_answer_attempt-shown_example :
    (let state = build_participant_session_state swapped pressed_game (some 5) in
      (state.answer.has_answer ≡ true) × (state.answer.selected_choice_id ≡ some 102))
record_answer_attempt-shown_example =
    record_answer_attempt-shown swapped env answering_game answering_game pressed_game other_press
      7_000_000 (new_attempt env answering_game 1 other_press 7_000_000) run answering_game-IsValid
      stored_test refl refl ((omega arith, omega arith), tt)
