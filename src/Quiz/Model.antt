-- ===== src/Quiz/Model.antt =====
-- The rows of backend/apps/quiz/models.py. A text is the list of its code points; times are whole
-- seconds or, for moments, microseconds since the epoch; keys are numbers.
use umclick.Common.{
  ℕ, ◌==◌, ltb, if◌then◌else◌, Bool, Option, none, some, List, [], ◌∷◌, find, order_by, ◌||◌, ◌&&◌,
}

abbrev pub Text : Type 0
Text = List ℕ

pub data VersionStatus : Type 0 where
  draft fixed : VersionStatus

pub record Choice : Type 0 where
  pub pk : ℕ
  pub text : Text
  pub is_correct : Bool
  pub order : ℕ

pub record Question : Type 0 where
  pub pk : ℕ
  pub text : Text
  pub order : ℕ
  pub time_limit_sec : ℕ
  pub choices : List Choice

pub record QuizVersion : Type 0 where
  pub pk : ℕ
  pub quiz_id : ℕ
  pub number : ℕ
  pub status : VersionStatus
  pub fixed_at : Option ℕ
  pub title : Text
  pub description : Text
  pub question_only_on_display : Bool
  pub show_choices_on_participant : Bool
  pub reading_time_sec : ℕ
  pub results_time_sec : ℕ
  pub questions : List Question

-- `order_by('order', 'id')`
abbrev pub question_before : Question → Question → Bool
question_before a b = ltb a.order b.order || (a.order == b.order && ltb a.pk b.pk)

unfoldable pub ordered_questions : QuizVersion → List Question
ordered_questions v = order_by question_before v.questions

-- `Choice.objects.get(pk=…, question_id=…)`
abbrev pub choice_of_question : List Question → ℕ → ℕ → Option Choice
choice_of_question [] question_id choice_id = none
choice_of_question (q ∷ qs) question_id choice_id =
    if q.pk == question_id
    then find (λ c. c.pk == choice_id) q.choices
    else choice_of_question qs question_id choice_id

-- `attempt.choice`
abbrev pub find_choice : List Question → ℕ → Option Choice
find_choice [] choice_id = none
find_choice (q ∷ qs) choice_id = elim (find (λ c. c.pk == choice_id) q.choices) [
  | some c ↦ some c
  | none ↦ find_choice qs choice_id
]
