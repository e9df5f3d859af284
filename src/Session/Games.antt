-- ===== src/Session/Games.antt =====
-- Concrete sessions: a lobby, and a question that takes answers.
use umclick.Common.{ℕ, ◌+◌, ◌*◌, ◌/◌, refl, Bool, true, false, none, some, [], ◌∷◌, arith}
use umclick.Quiz.Model.{Choice, Question, QuizVersion, fixed, ordered_questions}
use umclick.Session.Model.{
  Game, LiveSession, SessionParticipant, SessionQuestionRun, AnswerAttempt, Env, Payload,
  command_facts, automatic_facts, answer_facts, kind_code, v2, waiting, live, lobby, answering,
}
use umclick.Session.Valid.{IsValid}

abbrev pub payload_number : Payload → ℕ
payload_number (command_facts kind revision phase run) = 10 * revision + kind_code kind
payload_number (automatic_facts kind revision run boundary) = 10 * revision + kind_code kind
payload_number (answer_facts question choice) = 100 * question + choice

-- Stand-ins for the library functions.
abbrev pub env : Env
env = record {
  digest = payload_number;
  uuid5 = λ session run kind boundary. 1000 + 10 * run + kind_code kind;
  timezone_now = 0;
  float_ms = λ d. d / 1000;
}

abbrev pub choice : ℕ → ℕ → Bool → Choice
choice pk order is_correct = record {
  pk = pk;
  text = b'a' ∷ [];
  is_correct = is_correct;
  order = order;
}

abbrev pub first_asked : Question
first_asked = record {
  pk = 11;
  text = b'a' ∷ [];
  order = 1;
  time_limit_sec = 20;
  choices = choice 101 1 true ∷ choice 102 2 false ∷ [];
}

abbrev pub second_asked : Question
second_asked = record {
  pk = 10;
  text = b'b' ∷ [];
  order = 2;
  time_limit_sec = 20;
  choices = choice 103 1 true ∷ choice 104 2 false ∷ [];
}

abbrev pub version : QuizVersion
version = record {
  pk = 7;
  quiz_id = 3;
  number = 1;
  status = fixed;
  fixed_at = some 0;
  title = b'q' ∷ [];
  description = [];
  question_only_on_display = false;
  show_choices_on_participant = true;
  reading_time_sec = 5;
  results_time_sec = 5;
  questions = second_asked ∷ first_asked ∷ [];
}

abbrev pub session : LiveSession
session = record {
  pk = 1;
  origin = record {
    quiz_version_id = 7;
    created_by_id = 2;
    join_token = 77;
    pin = 123456;
    created_at = 0;
    gameplay_schema = v2;
  };
  host_name = [];
  status = waiting;
  phase = lobby;
  state_revision = 0;
  current_question_id = none;
  current_run_id = none;
  revealed_question_id = none;
  phase_started_at = none;
  question_started_at = none;
  started_at = none;
  finished_at = none;
}

abbrev pub player : SessionParticipant
player = record { pk = 5; participant_id = 50; token_digest = 500; name_snapshot = b'p' ∷ [] }

abbrev pub lobby_game : Game
lobby_game = record {
  session = session;
  version = version;
  runs = [];
  participants = player ∷ [];
  attempts = [];
  finals = [];
  commands = [];
  events = [];
  next_run_pk = 1;
  next_attempt_pk = 1;
}

pub lobby_game-IsValid : IsValid lobby_game
unfolding ordered_questions
lobby_game-IsValid = record {
  linked = refl;
  questions = (((λ e. cc), tt), (tt, tt));
  placed = ((refl, refl), refl, refl, refl);
  runs = record {
    below = tt;
    numbered = tt;
    played = ([], first_asked ∷ second_asked ∷ [], refl, tt);
    dated = tt;
  };
  people = (tt, tt);
  finals = tt;
  attempts = tt;
}

abbrev pub run : SessionQuestionRun
run = record {
  pk = 1;
  question_id = 11;
  ordinal = 1;
  reading_started_at = 0;
  reading_ends_at = 5_000_000;
  answering_started_at = 5_000_000;
  planned_answer_deadline_at = 25_000_000;
  planned_delivery_deadline_at = 28_000_000;
  answer_deadline_at = 25_000_000;
  delivery_deadline_at = 28_000_000;
  finalized_at = none;
  results_started_at = none;
  results_ends_at = none;
}

abbrev pub attempt : ℕ → ℕ → ℕ → ℕ → AnswerAttempt
attempt pk choice_id admitted_at ordinal = record {
  pk = pk;
  run_id = 1;
  session_participant_id = 5;
  choice_id = choice_id;
  submission_id = 900 + pk;
  payload_digest = 1100 + choice_id;
  admitted_at = admitted_at;
  ordinal = ordinal;
}

-- The first question is being answered, and the player has pressed once.
abbrev pub answering_game : Game
answering_game = record lobby_game {
  session = record session {
    status = live;
    phase = answering;
    state_revision = 3;
    current_question_id = some 11;
    current_run_id = some 1;
    phase_started_at = some 5_000_000;
    question_started_at = some 5_000_000;
    started_at = some 0;
  };
  runs = run ∷ [];
  attempts = attempt 1 101 6_000_000 1 ∷ [];
  next_run_pk = 2;
  next_attempt_pk = 2;
}

pub answering_game-IsValid : IsValid answering_game
unfolding ordered_questions
answering_game-IsValid = record {
  linked = refl;
  questions = lobby_game-IsValid.questions;
  placed = ((refl, refl, refl, refl), (refl, refl), refl);
  runs = record {
    below = (omega arith, tt);
    numbered = (refl, tt);
    played = (first_asked ∷ [], second_asked ∷ [], refl, (refl, tt));
    dated = (refl, tt);
  };
  people = (tt, tt);
  finals = tt;
  attempts = ((refl, omega arith, omega arith), tt);
}
