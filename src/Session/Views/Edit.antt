-- ===== src/Session/Views/Edit.antt =====
-- The snapshots of a game whose questions have other texts, and whose choices have other texts and
-- marks.
use umclick.Common.{
  ℕ, zero, suc, ◌==◌, ◌≡◌, refl, ap, ◌∙◌, Bool, Option, none, some, List, [], ◌∷◌, map, length-map,
  find, find-map, order_by-map,
}
use mathlib.Core.Option.{map as option_map}
use umclick.Quiz.Model.{Text, Choice, Question}
use umclick.Quiz.Content.{choice_before, ordered_choices}
use umclick.Session.Model.{Game}
use umclick.Session.Views.Questions.{
  Outlook, nth, with_entry, at_places, ordered_choices_for_session, asked_question,
}

abbrev pub edit_choice : (Choice → Text) → (Choice → Bool) → Choice → Choice
edit_choice text mark c = record c { text = text c; is_correct = mark c }

abbrev pub edit_question :
    (Question → Text) → (Choice → Text) → (Choice → Bool) → Question → Question
edit_question title text mark q = record q {
  text = title q;
  choices = map (edit_choice text mark) q.choices;
}

-- Each question and choice keeps its key and its place.
abbrev pub edit : (Question → Text) → (Choice → Text) → (Choice → Bool) → Game → Game
edit title text mark g = record g {
  version = record (g.version) {
    questions = map (edit_question title text mark) g.version.questions;
  };
}

pub nth-map {ℓ κ} :
    {A : Type ℓ} {B : Type κ} (f : A → B) (i : ℕ) (xs : List A)
    → nth i (map f xs) ≡ option_map f (nth i xs)
nth-map f i [] = refl
nth-map f zero (x ∷ xs) = refl
nth-map f (suc i) (x ∷ xs) = nth-map f i xs

pub with_entry-map {ℓ κ} :
    {A : Type ℓ} {B : Type κ} (f : A → B) (x : Option A) (xs : List A)
    → with_entry (option_map f x) (map f xs) ≡ map f (with_entry x xs)
with_entry-map f none xs = refl
with_entry-map f (some x) xs = refl

pub at_places-map {ℓ κ} :
    {A : Type ℓ} {B : Type κ} (f : A → B) (is : List ℕ) (xs : List A)
    → at_places is (map f xs) ≡ map f (at_places is xs)
at_places-map f [] xs = refl
at_places-map f (i ∷ is) xs =
    ap (λ ys. with_entry (nth i (map f xs)) ys) (at_places-map f is xs)
    ∙ ap (λ y. with_entry y (map f (at_places is xs))) (nth-map f i xs)
    ∙ with_entry-map f (nth i xs) (at_places is xs)

module _ (o : Outlook) (g : Game) (title : Question → Text) (text : Choice → Text)
    (mark : Choice → Bool) where
  pub ordered_choices-edit :
      (q : Question)
      → ordered_choices (edit_question title text mark q)
        ≡ map (edit_choice text mark) (ordered_choices q)
  ordered_choices-edit q = order_by-map (edit_choice text mark) choice_before q.choices

  pub asked_question-edit :
      asked_question (edit title text mark g)
      ≡ option_map (edit_question title text mark) (asked_question g)
  asked_question-edit = current g.session.current_question_id
    where
      current :
          (k : Option ℕ)
          → (elim k [
            | none ↦ none
            | some k ↦
                find
                  (λ (q : Question). q.pk == k)
                  (map (edit_question title text mark) g.version.questions)
          ])
            ≡ option_map (edit_question title text mark) (elim k [
              | none ↦ none
              | some k ↦ find (λ (q : Question). q.pk == k) g.version.questions
            ])
      current none = refl
      current (some k) =
          find-map (edit_question title text mark) (λ (q : Question). q.pk == k) g.version.questions

  pub ordered_choices_for_session-edit :
      (q : Question)
      → ordered_choices_for_session o (edit title text mark g) (edit_question title text mark q)
        ≡ map (edit_choice text mark) (ordered_choices_for_session o g q)
  unfolding ordered_choices_for_session
  ordered_choices_for_session-edit q =
      rw (ordered_choices-edit q, length-map (edit_choice text mark) (ordered_choices q))
        (at_places-map (edit_choice text mark) _ (ordered_choices q))
