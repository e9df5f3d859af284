-- ===== src/Quiz/Graph.antt =====
-- `_create_version_graph` and `_update_draft_graph` of backend/apps/quiz/services.py: the rows of a
-- version, its questions and its choices from a dictionary.
pub mod Writes
pub mod Stored
use umclick.Common.{
  ℕ, suc, ◌+◌, ◌==◌, Option, none, some, List, [], ◌∷◌, length, find, Result, ok, err, ◌>>=◌,
  or_raise,
}
use umclick.Quiz.Model.{Choice, Question, QuizVersion, draft, fixed}
use umclick.Quiz.Content.{ChoiceData, QuestionData, Content}
use umclick.Quiz.Refusals.{Refusal, key_error}
use umclick.Quiz.Card.{Card}

abbrev pub new_choice : ℕ → ChoiceData → Choice
new_choice pk d = record { pk = pk; text = d.text; is_correct = d.is_correct; order = d.order }

abbrev pub new_choices : ℕ → List ChoiceData → List Choice
new_choices pk [] = []
new_choices pk (d ∷ ds) = new_choice pk d ∷ new_choices (suc pk) ds

abbrev pub new_question : ℕ → ℕ → QuestionData → Question
new_question pk choice_pk d = record {
  pk = pk;
  text = d.text;
  order = d.order;
  time_limit_sec = d.time_limit_sec;
  choices = new_choices choice_pk d.choices;
}

abbrev pub new_questions : ℕ → ℕ → List QuestionData → List Question
new_questions pk choice_pk [] = []
new_questions pk choice_pk (d ∷ ds) =
    new_question pk choice_pk d ∷ new_questions (suc pk) (choice_pk + length d.choices) ds

abbrev pub count_choices : List QuestionData → ℕ
count_choices [] = 0
count_choices (d ∷ ds) = length d.choices + count_choices ds

-- The new row stands before the older ones.
unfoldable pub create_version_graph : Card → ℕ → Content → Card
create_version_graph card number d = record card {
  versions =
      record {
        pk = card.next_version_pk;
        quiz_id = card.quiz.pk;
        number = number;
        status = draft;
        fixed_at = none;
        title = d.title;
        description = d.description;
        question_only_on_display = d.question_only_on_display;
        show_choices_on_participant = d.show_choices_on_participant;
        reading_time_sec = d.reading_time_sec;
        results_time_sec = d.results_time_sec;
        questions = new_questions card.next_question_pk card.next_choice_pk d.questions;
      }
      ∷ card.versions;
  next_version_pk = suc card.next_version_pk;
  next_question_pk = card.next_question_pk + length d.questions;
  next_choice_pk = card.next_choice_pk + count_choices d.questions;
}

-- The row that a choice of the dictionary is written to, and the next free key.
abbrev pub choice_row : List Choice → ℕ → Option ℕ → Result Refusal (ℕ × ℕ)
choice_row existing next none = ok (next, suc next)
choice_row existing next (some k) =
    or_raise (find (λ (c : Choice). c.pk == k) existing) key_error >>= λ c. ok (c.pk, next)

-- The choices that are retained, in the order of the dictionary; all others are deleted.
unfoldable pub update_choices : List Choice → ℕ → List ChoiceData → Result Refusal (List Choice × ℕ)
update_choices existing next [] = ok ([], next)
update_choices existing next (d ∷ ds) = choice_row existing next d.id >>= λ (pk, after).
    update_choices existing after ds >>= λ (rest, last). ok (new_choice pk d ∷ rest, last)

-- The row of a question: its key, its choices, and the next free key.
abbrev pub question_row : List Question → ℕ → Option ℕ → Result Refusal (ℕ × List Choice × ℕ)
question_row existing next none = ok (next, [], suc next)
question_row existing next (some k) =
    or_raise (find (λ (q : Question). q.pk == k) existing) key_error >>= λ q.
    ok (q.pk, q.choices, next)

abbrev pub updated_question : ℕ → QuestionData → List Choice → Question
updated_question pk d choices = record {
  pk = pk;
  text = d.text;
  order = d.order;
  time_limit_sec = d.time_limit_sec;
  choices = choices;
}

unfoldable pub update_questions :
    List Question → ℕ → ℕ → List QuestionData → Result Refusal (List Question × ℕ × ℕ)
update_questions existing next next_choice [] = ok ([], next, next_choice)
update_questions existing next next_choice (d ∷ ds) =
    question_row existing next d.id >>= λ (pk, choices, after).
    update_choices choices next_choice d.choices >>= λ (rows, after_choice).
    update_questions existing after after_choice ds >>= λ (rest, last, last_choice).
    ok (updated_question pk d rows ∷ rest, last, last_choice)

-- The fields of the draft that `setattr` writes.
abbrev pub with_content : QuizVersion → Content → List Question → QuizVersion
with_content v d questions = record v {
  title = d.title;
  description = d.description;
  question_only_on_display = d.question_only_on_display;
  show_choices_on_participant = d.show_choices_on_participant;
  reading_time_sec = d.reading_time_sec;
  results_time_sec = d.results_time_sec;
  questions = questions;
}
