-- ===== src/Session/Views/Questions.antt =====
-- The questions of a snapshot, and the order in which their choices are shown.
use umclick.Common.{
  ℕ, zero, suc, ◌==◌, if◌then◌else◌, Bool, not, Option, none, some, List, [], ◌∷◌, length, find,
}
use umclick.Quiz.Model.{Text, Choice, Question}
use umclick.Quiz.Content.{ordered_choices}
use umclick.Session.Model.{Game}
use umclick.Session.Results.Legacy.{LegacyAnswer}

-- What stands outside: where `random.Random(seed).shuffle` puts the places of a list of so many,
-- the rounded percentage, and the answers of the legacy schema.
pub record Outlook : Type 0 where
  pub positions : ℕ → ℕ → ℕ → ℕ → List ℕ
  pub percent : ℕ → ℕ → ℕ
  pub legacy_answers : List LegacyAnswer

abbrev pub nth {ℓ} : {A : Type ℓ} → ℕ → List A → Option A
nth i [] = none
nth zero (x ∷ xs) = some x
nth (suc i) (x ∷ xs) = nth i xs

abbrev pub with_entry {ℓ} : {A : Type ℓ} → Option A → List A → List A
with_entry none xs = xs
with_entry (some x) xs = x ∷ xs

-- The entries at these places.
abbrev pub at_places {ℓ} : {A : Type ℓ} → List ℕ → List A → List A
at_places [] xs = []
at_places (i ∷ is) xs = with_entry (nth i xs) (at_places is xs)

-- `_ordered_choices_for_session`: the seed has the session, the question and the join token.
unfoldable pub ordered_choices_for_session : Outlook → Game → Question → List Choice
ordered_choices_for_session o g q =
    let choices = ordered_choices q in
    at_places (o.positions g.session.pk q.pk g.session.join_token (length choices)) choices

-- `session.current_question`
abbrev pub asked_question : Game → Option Question
asked_question g = elim g.session.current_question_id [
  | none ↦ none
  | some k ↦ find (λ (q : Question). q.pk == k) g.version.questions
]

abbrev pub text_if : Bool → Text → Text
text_if shown text = if shown then text else []

pub record ChoiceView : Type 0 where
  pub id : ℕ
  pub text : Text
  pub order : ℕ
  pub original_order : ℕ

pub record QuestionView : Type 0 where
  pub id : ℕ
  pub text : Text
  pub text_hidden : Bool
  pub order : ℕ
  pub time_limit_sec : ℕ
  pub choices_text_hidden : Bool
  pub choices : List ChoiceView

abbrev pub choice_views : Bool → ℕ → List Choice → List ChoiceView
choice_views shown order [] = []
choice_views shown order (c ∷ cs) =
    record { id = c.pk; text = text_if shown c.text; order = order; original_order = c.order }
    ∷ choice_views shown (suc order) cs

unfoldable pub serialize_question_for_participants :
    Outlook → Game → Option Question → Option QuestionView
serialize_question_for_participants o g none = none
serialize_question_for_participants o g (some q) = some (record {
  id = q.pk;
  text = text_if (not g.version.question_only_on_display) q.text;
  text_hidden = g.version.question_only_on_display;
  order = q.order;
  time_limit_sec = q.time_limit_sec;
  choices_text_hidden = not g.version.show_choices_on_participant;
  choices =
      choice_views g.version.show_choices_on_participant 1 (ordered_choices_for_session o g q);
})

-- `is_correct` is there if it is included.
pub record DisplayChoice : Type 0 where
  pub choice : ChoiceView
  pub is_correct : Option Bool

pub record DisplayQuestion : Type 0 where
  pub id : ℕ
  pub text : Text
  pub order : ℕ
  pub time_limit_sec : ℕ
  pub choices : List DisplayChoice

abbrev pub display_choices : Bool → ℕ → List Choice → List DisplayChoice
display_choices include_correct order [] = []
display_choices include_correct order (c ∷ cs) =
    record {
      choice = record { id = c.pk; text = c.text; order = order; original_order = c.order };
      is_correct = if include_correct then some c.is_correct else none;
    }
    ∷ display_choices include_correct (suc order) cs

unfoldable pub serialize_question_for_display :
    Outlook → Game → Bool → Option Question → Option DisplayQuestion
serialize_question_for_display o g include_correct none = none
serialize_question_for_display o g include_correct (some q) = some (record {
  id = q.pk;
  text = q.text;
  order = q.order;
  time_limit_sec = q.time_limit_sec;
  choices = display_choices include_correct 1 (ordered_choices_for_session o g q);
})

pub record TechnicalQuestion : Type 0 where
  pub id : ℕ
  pub text : Text
  pub order : ℕ
  pub time_limit_sec : ℕ

unfoldable pub technical_question : Option Question → Option TechnicalQuestion
technical_question none = none
technical_question (some q) =
    some (record { id = q.pk; text = q.text; order = q.order; time_limit_sec = q.time_limit_sec })
