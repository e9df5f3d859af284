-- ===== src/Quiz/Tests.antt =====
-- Two versions on which the validation is run.
use umclick.Common.{ℕ, ◌==◌, ◌≡◌, refl, ◌↔◌, Bool, true, false, none, List, [], ◌∷◌, ok, err}
use umclick.Quiz.Model.{Choice, Question, QuizVersion, draft, ordered_questions}
use umclick.Quiz.Content.{quiz_data}
use umclick.Quiz.Validation.{
  validate_quiz_data, validate_quiz_instance, title, question_choices, empty_title, not_one_correct,
}
use umclick.Quiz.Validation.Accepts.{Playable, validate_quiz_instance-Playable}

abbrev is_space : ℕ → Bool
is_space c = c == b' '

abbrev option : ℕ → Bool → Choice
option k right = record { pk = k; text = b'c' ∷ []; is_correct = right; order = k }

abbrev question : List Choice → Question
question choices = record {
  pk = 1;
  text = b'?' ∷ b' ' ∷ [];
  order = 1;
  time_limit_sec = 20;
  choices = choices;
}

abbrev quiz : List ℕ → List Choice → QuizVersion
quiz name choices = record {
  pk = 1;
  quiz_id = 1;
  number = 1;
  status = draft;
  fixed_at = none;
  title = name;
  description = [];
  question_only_on_display = false;
  show_choices_on_participant = true;
  reading_time_sec = 15;
  results_time_sec = 10;
  questions = question choices ∷ [];
}

-- The second message for the choices replaces the first.
refused_test :
    validate_quiz_instance is_space (quiz (b' ' ∷ []) (option 1 false ∷ []))
    ≡ err ((title, empty_title) ∷ (question_choices 0, not_one_correct) ∷ [])
unfolding validate_quiz_instance validate_quiz_data ordered_questions
refused_test = refl

abbrev playable_quiz : QuizVersion
playable_quiz = quiz (b'q' ∷ []) (option 1 false ∷ option 2 true ∷ [])

validate_quiz_instance-Playable_example :
    (validate_quiz_instance is_space playable_quiz ≡ ok tt)
    ↔ Playable is_space (quiz_data playable_quiz)
validate_quiz_instance-Playable_example = validate_quiz_instance-Playable is_space playable_quiz
