-- ===== src/Session/Tests.antt =====
-- The theorems of the session at concrete inputs.
use umclick.Common.{◌+◌, ◌*◌, ◌≤◌, ◌≡◌, refl, true, false, none, some, [], ◌∷◌, ok, arith}
use umclick.Session.Model.{
  Game, LiveSession, start_session, end_question, live, lobby, answering, session_started,
}
use umclick.Session.Save.{save_live_session, insert_command}
use umclick.Session.Run.{basic_state, save_session}
use umclick.Session.Run.Select.{select_final_attempts}
use umclick.Session.Run.Streak.{Picks, select_final_attempts-Picks}
use umclick.Session.Spec.{total}
use umclick.Session.Transition.{apply_transition, apply_start_session}
use umclick.Session.Transition.Moved.{Outcome}
use umclick.Session.Transition.Outcomes.{apply_transition-Outcome}
use umclick.Session.Valid.{IsValid}
use umclick.Session.Command.{CommandInput, applied_command, apply_command, execute_manual_command}
use umclick.Session.Command.Once.{Once, execute_manual_command-Once}
use umclick.Session.Advance.{advance_locked, advance_one_transition}
use umclick.Session.Advance.Ticks.{Tick, Call, advance_locked-Tick, advance_one_transition-Call}
use umclick.Session.Answer.{AnswerInput, record_answer_attempt}
use umclick.Session.Answer.Storing.{Pressed}
use umclick.Session.Answer.Outcomes.{record_answer_attempt-Pressed}
use umclick.Session.History.{here, after, command, History-IsValid}
use umclick.Session.History.Replay.{applied_replay}
use umclick.Session.History.Bound.{History-bounded}
use umclick.Session.Games.{
  env, session, lobby_game, lobby_game-IsValid, attempt, answering_game, answering_game-IsValid,
}

select_final_attempts-Picks_example :
    Picks
      (attempt 1 101 6 1 ∷ attempt 2 102 7 2 ∷ attempt 3 102 8 3 ∷ [])
      (some (attempt 3 102 8 3, attempt 2 102 7 2))
unfolding select_final_attempts
select_final_attempts-Picks_example =
    select_final_attempts-Picks (attempt 1 101 6 1 ∷ attempt 2 102 7 2 ∷ attempt 3 102 8 3 ∷ [])

apply_transition-Outcome_example :
    Outcome answering_game (apply_transition env answering_game end_question 20_000_000)
apply_transition-Outcome_example =
    apply_transition-Outcome env answering_game end_question 20_000_000 answering_game-IsValid
      (omega arith)

abbrev end_input : CommandInput
end_input = record {
  command_id = 42;
  state_revision = 3;
  phase = answering;
  question_run_id = some 1;
}

execute_manual_command-Once_example :
    Once env answering_game end_question end_input
      (execute_manual_command env answering_game end_question end_input 20_000_000)
execute_manual_command-Once_example =
    execute_manual_command-Once env answering_game end_question end_input 20_000_000
      answering_game-IsValid (omega arith)

advance_locked-Tick_example :
    Tick env answering_game 29_000_000 (advance_locked env answering_game 29_000_000)
advance_locked-Tick_example =
    advance_locked-Tick env answering_game 29_000_000 answering_game-IsValid

advance_one_transition-Call_example :
    Call env lobby_game answering_game 29_000_000
      (advance_one_transition env lobby_game answering_game 29_000_000)
    × Tick env answering_game 29_000_000
        (advance_one_transition env answering_game answering_game 29_000_000)
advance_one_transition-Call_example =
    advance_one_transition-Call env lobby_game answering_game 29_000_000 answering_game-IsValid

abbrev second_press : AnswerInput
second_press = record {
  participation_id = 5;
  question_id = 11;
  choice_id = 102;
  submission_id = 902;
}

record_answer_attempt-Pressed_example :
    Pressed env answering_game second_press 7_000_000
      (record_answer_attempt env answering_game answering_game second_press 7_000_000)
record_answer_attempt-Pressed_example =
    record_answer_attempt-Pressed env answering_game answering_game second_press 7_000_000
      answering_game-IsValid

abbrev start_input : CommandInput
start_input = record { command_id = 41; state_revision = 0; phase = lobby; question_run_id = none }

-- The game after `start_session`.
abbrev started_row : LiveSession
started_row = record session { status = live; state_revision = 1; started_at = some 100 }

abbrev started_game : Game
started_game = record lobby_game {
  session = started_row;
  commands =
      applied_command env start_session start_input (record lobby_game { session = started_row })
      ∷ [];
  events = session_started ∷ [];
}

start_applies :
    execute_manual_command env lobby_game start_session start_input 100
    ≡ ok (started_game, basic_state started_game, false)
unfolding execute_manual_command apply_command apply_transition apply_start_session save_session
    save_live_session insert_command
start_applies = refl

applied_replay_example :
    execute_manual_command env started_game start_session start_input 200
    ≡ ok (started_game, basic_state started_game, true)
applied_replay_example =
    applied_replay env lobby_game started_game started_game start_session start_input 100 200
      (basic_state started_game) lobby_game-IsValid tt start_applies here

History-IsValid_example : IsValid started_game
History-IsValid_example = History-IsValid env lobby_game started_game lobby_game-IsValid (
    after here
      (command start_session start_input 100 (basic_state started_game) false tt start_applies))

History-bounded_example : started_game.session.state_revision ≤ 4 * total lobby_game + 2
History-bounded_example = History-bounded env lobby_game started_game lobby_game-IsValid refl (
    after here
      (command start_session start_input 100 (basic_state started_game) false tt start_applies))
