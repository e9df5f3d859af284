-- ===== src/Quiz/Content.antt =====
-- The dictionaries that carry the content of a quiz: `quiz_data` of backend/apps/quiz/validation.py,
-- and `_canonical` and `versions_have_equal_content` of backend/apps/quiz/services.py.
pub mod Rows
use native.Mathlib.Decide.{ℕ_discrete}
use umclick.Common.{
  ℕ, ltb, ◌==◌, Bool, true, false, ◌&&◌, ◌||◌, Option, none, some, List, map, order_by,
}
use umclick.Quiz.Model.{Text, Choice, Question, QuizVersion, ordered_questions}

pub record ChoiceData : Type 0 where
  pub id : Option ℕ
  pub text : Text
  pub is_correct : Bool
  pub order : ℕ

pub record QuestionData : Type 0 where
  pub id : Option ℕ
  pub text : Text
  pub order : ℕ
  pub time_limit_sec : ℕ
  pub choices : List ChoiceData

pub record Content : Type 0 where
  pub title : Text
  pub description : Text
  pub question_only_on_display : Bool
  pub show_choices_on_participant : Bool
  pub reading_time_sec : ℕ
  pub results_time_sec : ℕ
  pub questions : List QuestionData

-- `order_by('order', 'id')` of choices
abbrev pub choice_before : Choice → Choice → Bool
choice_before a b = ltb a.order b.order || (a.order == b.order && ltb a.pk b.pk)

abbrev pub ordered_choices : Question → List Choice
ordered_choices q = order_by choice_before q.choices

abbrev pub choice_data : Choice → ChoiceData
choice_data c = record { id = some c.pk; text = c.text; is_correct = c.is_correct; order = c.order }

abbrev pub question_data : Question → QuestionData
question_data q = record {
  id = some q.pk;
  text = q.text;
  order = q.order;
  time_limit_sec = q.time_limit_sec;
  choices = map choice_data (ordered_choices q);
}

abbrev pub quiz_data : QuizVersion → Content
quiz_data v = record {
  title = v.title;
  description = v.description;
  question_only_on_display = v.question_only_on_display;
  show_choices_on_participant = v.show_choices_on_participant;
  reading_time_sec = v.reading_time_sec;
  results_time_sec = v.results_time_sec;
  questions = map question_data (ordered_questions v);
}

-- `_canonical` drops the keys of the rows.
abbrev pub canonical_choice : ChoiceData → ChoiceData
canonical_choice c = record c { id = none }

abbrev pub canonical_question : QuestionData → QuestionData
canonical_question q = record q { id = none; choices = map canonical_choice q.choices }

abbrev pub canonical : Content → Content
canonical d = record d { questions = map canonical_question d.questions }

pub Content-discrete : Discrete Content
Content-discrete = hlevel ℕ_discrete
