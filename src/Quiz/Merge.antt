-- ===== src/Quiz/Merge.antt =====
-- `_merge_content` of backend/apps/quiz/services.py: the changes of a request over the content that
-- is stored. A field of the request that is missing is `none`.
pub mod Known
pub mod Laws
pub mod Requested
pub mod Errors
use umclick.Common.{
  ℕ, suc, ◌==◌, option_eq, if◌then◌else◌, Bool, true, false, not, ◌||◌, Option, none, some, List,
  [], ◌∷◌, any, find, is_none, Result, ok, err, ◌>>=◌, ◌>>◌, raise_if,
}
use umclick.Quiz.Model.{Text}
use umclick.Quiz.Content.{ChoiceData, QuestionData, Content}
use umclick.Quiz.Refusals.{Refusal, unknown_question, unknown_choice}

pub record ChoiceChange : Type 0 where
  pub id : Option ℕ
  pub text : Option Text
  pub is_correct : Option Bool

pub record QuestionChange : Type 0 where
  pub id : Option ℕ
  pub text : Option Text
  pub time_limit_sec : Option ℕ
  pub choices : Option (List ChoiceChange)

pub record Changes : Type 0 where
  pub title : Option Text
  pub description : Option Text
  pub question_only_on_display : Option Bool
  pub show_choices_on_participant : Option Bool
  pub reading_time_sec : Option ℕ
  pub results_time_sec : Option ℕ
  pub questions : Option (List QuestionChange)

-- `changes.get(key, default)`
abbrev pub or_else {ℓ} : {A : Type ℓ} → Option A → A → A
or_else none default = default
or_else (some a) default = a

-- What stands for fields that are neither in the request nor stored.
abbrev pub blank_content : Content
blank_content = record {
  title = [];
  description = [];
  question_only_on_display = false;
  show_choices_on_participant = true;
  reading_time_sec = 15;
  results_time_sec = 10;
  questions = [];
}

abbrev pub blank_question : QuestionData
blank_question = record { id = none; text = []; order = 0; time_limit_sec = 20; choices = [] }

abbrev pub blank_choice : ChoiceData
blank_choice = record { id = none; text = []; is_correct = false; order = 0 }

abbrev pub with_choice_id : ℕ → List ChoiceData → Option ChoiceData
with_choice_id k = find λ c. option_eq c.id (some k)

abbrev pub with_question_id : ℕ → List QuestionData → Option QuestionData
with_question_id k = find λ q. option_eq q.id (some k)

-- An id is refused if it was seen before or is not that of a stored row.
abbrev pub id_refused {ℓ} : {A : Type ℓ} → Option ℕ → List ℕ → (ℕ → Option A) → Bool
id_refused none seen stored = false
id_refused (some k) seen stored = any (λ j. j == k) seen || is_none (stored k)

abbrev pub note_id : Option ℕ → List ℕ → List ℕ
note_id none seen = seen
note_id (some k) seen = k ∷ seen

-- The stored row under an id, or an empty dictionary over the defaults.
abbrev pub old_or {ℓ} : {A : Type ℓ} → Option ℕ → (ℕ → Option A) → A → A
old_or none stored blank = blank
old_or (some k) stored blank = or_else (stored k) blank

abbrev pub merge_choice : ChoiceData → ChoiceChange → ℕ → ChoiceData
merge_choice old source index = record {
  id = source.id;
  text = or_else source.text old.text;
  is_correct = or_else source.is_correct old.is_correct;
  order = suc index;
}

-- The loop over the choices of the question at index `i`, from its index `j`.
unfoldable pub merge_choices :
    List ChoiceData → ℕ → ℕ → List ℕ → List ChoiceChange → Result Refusal (List ChoiceData)
merge_choices old i j seen [] = ok []
merge_choices old i j seen (source ∷ sources) =
    let rest = merge_choices old i (suc j) (note_id source.id seen) sources in
    raise_if (id_refused source.id seen (λ k. with_choice_id k old)) (unknown_choice i j)
    >> (rest >>= λ choices. ok (
        merge_choice (old_or source.id (λ k. with_choice_id k old) blank_choice) source j
        ∷ choices))

abbrev pub merged_choices :
    List ChoiceData → ℕ → Option (List ChoiceChange) → Result Refusal (List ChoiceData)
merged_choices old i none = ok old
merged_choices old i (some sources) = merge_choices old i 0 [] sources

abbrev pub merge_question : QuestionData → QuestionChange → ℕ → List ChoiceData → QuestionData
merge_question old source index choices = record {
  id = source.id;
  text = or_else source.text old.text;
  order = suc index;
  time_limit_sec = or_else source.time_limit_sec old.time_limit_sec;
  choices = choices;
}

-- The loop over the questions, from the index `i`.
unfoldable pub merge_questions :
    List QuestionData → ℕ → List ℕ → List QuestionChange → Result Refusal (List QuestionData)
merge_questions old i seen [] = ok []
merge_questions old i seen (source ∷ sources) =
    let rest = merge_questions old (suc i) (note_id source.id seen) sources in
    let stored = old_or source.id (λ k. with_question_id k old) blank_question in
    raise_if (id_refused source.id seen (λ k. with_question_id k old)) (unknown_question i)
    >> (merged_choices stored.choices i source.choices >>= λ choices.
        rest >>= λ questions. ok (merge_question stored source i choices ∷ questions))

abbrev pub merged_questions :
    List QuestionData → Option (List QuestionChange) → Result Refusal (List QuestionData)
merged_questions old none = ok old
merged_questions old (some sources) = merge_questions old 0 [] sources

unfoldable pub merge_content : Option Content → Changes → Result Refusal Content
merge_content stored changes = do
  let base = or_else stored blank_content
  questions ← merged_questions base.questions changes.questions
  ok (record {
    title = or_else changes.title base.title;
    description = or_else changes.description base.description;
    question_only_on_display =
        or_else changes.question_only_on_display base.question_only_on_display;
    show_choices_on_participant =
        or_else changes.show_choices_on_participant base.show_choices_on_participant;
    reading_time_sec = or_else changes.reading_time_sec base.reading_time_sec;
    results_time_sec = or_else changes.results_time_sec base.results_time_sec;
    questions = questions;
  })
