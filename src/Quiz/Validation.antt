-- ===== src/Quiz/Validation.antt =====
-- backend/apps/quiz/validation.py: what a version must be before it is fixed, with the dictionary of
-- errors that a refusal carries. `is_space` is Python's `str.isspace` on one code point.
pub mod Accepts
use umclick.Common.{
  ℕ, zero, suc, ◌==◌, ltb, leb, if◌then◌else◌, Bool, true, false, not, ◌&&◌, ◌||◌, Option, none,
  some, List, [], ◌∷◌, any, length, count_if, order_by, Result, ok, err,
}
use umclick.Quiz.Model.{Text, QuizVersion}
use umclick.Quiz.Content.{ChoiceData, QuestionData, Content, quiz_data}

-- The keys of the dictionary; a number is the index in the list of questions or choices.
pub data Field : Type 0 where
  title reading_time_sec results_time_sec questions : Field
  question_text question_time_limit_sec question_choices : ℕ → Field
  choice_text : ℕ → ℕ → Field

pub data Message : Type 0 where
  empty_title seconds_out_of_range no_questions empty_question_text : Message
  time_limit_out_of_range too_few_choices not_one_correct empty_choice_text : Message

abbrev pub field_is : Field → Field → Bool
field_is title title = true
field_is reading_time_sec reading_time_sec = true
field_is results_time_sec results_time_sec = true
field_is questions questions = true
field_is (question_text i) (question_text j) = i == j
field_is (question_time_limit_sec i) (question_time_limit_sec j) = i == j
field_is (question_choices i) (question_choices j) = i == j
field_is (choice_text i k) (choice_text j l) = i == j && k == l
field_is _ _ = false

abbrev pub Errors : Type 0
Errors = List (Field × Message)

-- `errors[key] = message`: the message of a key that is there already is replaced.
abbrev pub put : Field → Message → Errors → Errors
put key message [] = (key, message) ∷ []
put key message ((k, m) ∷ rest) =
    let later = put key message rest in
    if field_is k key then (k, message) ∷ rest else (k, m) ∷ later

abbrev pub put_if : Bool → Field → Message → Errors → Errors
put_if test key message errors = if test then put key message errors else errors

-- `not text.strip()`
abbrev pub is_blank : (ℕ → Bool) → Text → Bool
is_blank is_space text = not (any (λ c. not (is_space c)) text)

abbrev pub in_range : ℕ → ℕ → ℕ → Bool
in_range low value high = leb low value && leb value high

abbrev pub is_empty {ℓ} : {A : Type ℓ} → List A → Bool
is_empty [] = true
is_empty (_ ∷ _) = false

abbrev pub check_choices : (ℕ → Bool) → ℕ → ℕ → List ChoiceData → Errors → Errors
check_choices is_space i j [] errors = errors
check_choices is_space i j (c ∷ rest) errors =
    check_choices is_space i (suc j) rest
      (put_if (is_blank is_space c.text) (choice_text i j) empty_choice_text errors)

abbrev pub check_question : (ℕ → Bool) → ℕ → QuestionData → Errors → Errors
check_question is_space i q errors =
    let choices = q.choices in
    let text = put_if (is_blank is_space q.text) (question_text i) empty_question_text errors in
    let time =
      put_if (not (in_range 5 q.time_limit_sec 180)) (question_time_limit_sec i)
        time_limit_out_of_range text in
    let few = put_if (ltb (length choices) 2) (question_choices i) too_few_choices time in
    let one =
      put_if (not (count_if (λ (c : ChoiceData). c.is_correct) choices == 1)) (question_choices i)
        not_one_correct few in
    check_choices is_space i 0 choices one

abbrev pub check_questions : (ℕ → Bool) → ℕ → List QuestionData → Errors → Errors
check_questions is_space i [] errors = errors
check_questions is_space i (q ∷ rest) errors =
    check_questions is_space (suc i) rest (check_question is_space i q errors)

-- The errors of `validate_quiz_data`.
abbrev pub quiz_errors : (ℕ → Bool) → Content → Errors
quiz_errors is_space v =
    let title_errors = put_if (is_blank is_space v.title) title empty_title [] in
    let reading =
      put_if (not (in_range 3 v.reading_time_sec 120)) reading_time_sec seconds_out_of_range
        title_errors in
    let results =
      put_if (not (in_range 3 v.results_time_sec 60)) results_time_sec seconds_out_of_range
        reading in
    let some_questions = put_if (is_empty v.questions) questions no_questions results in
    check_questions is_space 0 v.questions some_questions

unfoldable pub validate_quiz_data : (ℕ → Bool) → Content → Result Errors (Unit {0})
validate_quiz_data is_space v =
    let errors = quiz_errors is_space v in if is_empty errors then ok tt else err errors

unfoldable pub validate_quiz_instance : (ℕ → Bool) → QuizVersion → Result Errors (Unit {0})
validate_quiz_instance is_space v = validate_quiz_data is_space (quiz_data v)
