-- ===== src/Quiz/Content/Rows.antt =====
-- Rows of questions and choices against dictionaries of them.
use umclick.Common.{
  ℕ, ltb, ◌<◌, ◌≡◌, ◌≢◌, refl, ap, ◌∙◌, List, [], ◌∷◌, map, All, All-map, All-order_by, DistinctBy,
  RisingBy, RisingBy-map, RisingBy-order_by, RisingBy-ordered, RisingBy-DistinctBy, All-mapped,
  order_by, arith,
}
use umclick.Quiz.Model.{Choice, Question, question_before}
use umclick.Quiz.Content.{
  ChoiceData, QuestionData, choice_before, ordered_choices, choice_data, question_data,
  canonical_choice, canonical_question,
}

-- No two questions of a version, and no two choices of a question, share a place; keys are distinct.
pub record RowsTidy (qs : List Question) : Type 0 where
  pub places : DistinctBy (λ q. q.order) qs
  pub keys : DistinctBy (λ q. q.pk) qs
  pub choices : All (λ (q : Question). DistinctBy (λ c. c.order) q.choices) qs

-- The orders of the dictionaries rise.
pub record Tidy (ds : List QuestionData) : Type 0 where
  pub places : RisingBy (λ q. q.order) ds
  pub choices : All (λ (q : QuestionData). RisingBy (λ c. c.order) q.choices) ds

question_agree : (a b : Question) → a.order ≢ b.order → question_before a b ≡ ltb a.order b.order
question_agree a b h = ground arith

choice_agree : (a b : Choice) → a.order ≢ b.order → choice_before a b ≡ ltb a.order b.order
choice_agree a b h = ground arith

pub question_data-Tidy :
    (qs : List Question) → RowsTidy qs → Tidy (map question_data (order_by question_before qs))
question_data-Tidy qs h = record {
  places =
      RisingBy-map (λ (q : QuestionData). q.order) question_data (order_by question_before qs)
        (RisingBy-order_by (λ q. q.order) question_before qs question_agree h.places);
  choices =
      All-mapped (λ (q : QuestionData). RisingBy (λ (c : ChoiceData). c.order) q.choices)
        question_data (order_by question_before qs)
        (All-map
          (λ q d.
            RisingBy-map (λ (c : ChoiceData). c.order) choice_data (ordered_choices q)
              (RisingBy-order_by (λ c. c.order) choice_before q.choices choice_agree d))
          (order_by question_before qs)
          (All-order_by (λ (q : Question). DistinctBy (λ (c : Choice). c.order) q.choices)
            question_before qs h.choices));
}

-- Rows that hold what the dictionaries say, one for each.
abbrev pub SameChoices : List Choice → List ChoiceData → Type 0
SameChoices [] [] = Unit {0}
SameChoices (c ∷ cs) (d ∷ ds) =
    (c.text ≡ d.text) × (c.is_correct ≡ d.is_correct) × (c.order ≡ d.order) × SameChoices cs ds
SameChoices _ _ = ⊥

abbrev pub SameQuestions : List Question → List QuestionData → Type 0
SameQuestions [] [] = Unit {0}
SameQuestions (q ∷ qs) (d ∷ ds) =
    (q.text ≡ d.text)
    × (q.order ≡ d.order)
    × (q.time_limit_sec ≡ d.time_limit_sec)
    × SameChoices q.choices d.choices
    × SameQuestions qs ds
SameQuestions _ _ = ⊥

SameChoices-All :
    (n : ℕ) (cs : List Choice) (ds : List ChoiceData)
    → SameChoices cs ds
    → All (λ (d : ChoiceData). n < d.order) ds
    → All (λ (c : Choice). n < c.order) cs
SameChoices-All n [] [] s h = tt
SameChoices-All n (c ∷ cs) (d ∷ ds) (a, b, e, s) h =
    (omega (arith, e, h.0), SameChoices-All n cs ds s h.1)
SameChoices-All n [] (d ∷ ds) s h = elim s [ ]
SameChoices-All n (c ∷ cs) [] s h = elim s [ ]

SameChoices-RisingBy :
    (cs : List Choice) (ds : List ChoiceData)
    → SameChoices cs ds
    → RisingBy (λ d. d.order) ds
    → RisingBy (λ c. c.order) cs
SameChoices-RisingBy [] [] s h = tt
SameChoices-RisingBy (c ∷ cs) (d ∷ ds) (a, b, e, s) h =
    (rw e (SameChoices-All d.order cs ds s h.0), SameChoices-RisingBy cs ds s h.1)
SameChoices-RisingBy [] (d ∷ ds) s h = elim s [ ]
SameChoices-RisingBy (c ∷ cs) [] s h = elim s [ ]

SameQuestions-All :
    (n : ℕ) (qs : List Question) (ds : List QuestionData)
    → SameQuestions qs ds
    → All (λ (d : QuestionData). n < d.order) ds
    → All (λ (q : Question). n < q.order) qs
SameQuestions-All n [] [] s h = tt
SameQuestions-All n (q ∷ qs) (d ∷ ds) (a, e, b, c, s) h =
    (omega (arith, e, h.0), SameQuestions-All n qs ds s h.1)
SameQuestions-All n [] (d ∷ ds) s h = elim s [ ]
SameQuestions-All n (q ∷ qs) [] s h = elim s [ ]

SameQuestions-RisingBy :
    (qs : List Question) (ds : List QuestionData)
    → SameQuestions qs ds
    → RisingBy (λ d. d.order) ds
    → RisingBy (λ q. q.order) qs
SameQuestions-RisingBy [] [] s h = tt
SameQuestions-RisingBy (q ∷ qs) (d ∷ ds) (a, e, b, c, s) h =
    (rw e (SameQuestions-All d.order qs ds s h.0), SameQuestions-RisingBy qs ds s h.1)
SameQuestions-RisingBy [] (d ∷ ds) s h = elim s [ ]
SameQuestions-RisingBy (q ∷ qs) [] s h = elim s [ ]

-- Rows in order give the content back, but for their keys.
choices_same :
    (cs : List Choice) (ds : List ChoiceData)
    → SameChoices cs ds
    → map canonical_choice (map choice_data cs) ≡ map canonical_choice ds
choices_same [] [] s = refl
choices_same (c ∷ cs) (d ∷ ds) (a, b, e, s) = rw (a, b, e, choices_same cs ds s) refl
choices_same [] (d ∷ ds) s = elim s [ ]
choices_same (c ∷ cs) [] s = elim s [ ]

choices_back :
    (q : Question) (ds : List ChoiceData)
    → SameChoices q.choices ds
    → RisingBy (λ d. d.order) ds
    → map canonical_choice (map choice_data (ordered_choices q)) ≡ map canonical_choice ds
choices_back q ds s h =
    ap (λ (cs : List Choice). map canonical_choice (map choice_data cs))
      (RisingBy-ordered (λ c. c.order) choice_before q.choices choice_agree
        (SameChoices-RisingBy q.choices ds s h))
    ∙ choices_same q.choices ds s

questions_same :
    (qs : List Question) (ds : List QuestionData)
    → SameQuestions qs ds
    → All (λ (d : QuestionData). RisingBy (λ c. c.order) d.choices) ds
    → map canonical_question (map question_data qs) ≡ map canonical_question ds
questions_same [] [] s h = refl
questions_same (q ∷ qs) (d ∷ ds) (a, b, e, c, s) h =
    rw (a, b, e, choices_back q d.choices c h.0, questions_same qs ds s h.1) refl
questions_same [] (d ∷ ds) s h = elim s [ ]
questions_same (q ∷ qs) [] s h = elim s [ ]

pub questions_back :
    (qs : List Question) (ds : List QuestionData)
    → SameQuestions qs ds
    → Tidy ds
    → map canonical_question (map question_data (order_by question_before qs))
      ≡ map canonical_question ds
questions_back qs ds s t =
    ap (λ (xs : List Question). map canonical_question (map question_data xs))
      (RisingBy-ordered (λ q. q.order) question_before qs question_agree
        (SameQuestions-RisingBy qs ds s t.places))
    ∙ questions_same qs ds s t.choices

rows_choices :
    (qs : List Question) (ds : List QuestionData)
    → SameQuestions qs ds
    → All (λ (d : QuestionData). RisingBy (λ c. c.order) d.choices) ds
    → All (λ (q : Question). DistinctBy (λ c. c.order) q.choices) qs
rows_choices [] [] s h = tt
rows_choices (q ∷ qs) (d ∷ ds) (a, b, e, c, s) h = (
  RisingBy-DistinctBy (λ c. c.order) q.choices (SameChoices-RisingBy q.choices d.choices c h.0),
  rows_choices qs ds s h.1,
)
rows_choices [] (d ∷ ds) s h = elim s [ ]
rows_choices (q ∷ qs) [] s h = elim s [ ]

-- Rows with distinct keys that hold tidy content are tidy.
pub rows-RowsTidy :
    (qs : List Question) (ds : List QuestionData)
    → SameQuestions qs ds
    → Tidy ds
    → DistinctBy (λ q. q.pk) qs
    → RowsTidy qs
rows-RowsTidy qs ds s t keys = record {
  places = RisingBy-DistinctBy (λ q. q.order) qs (SameQuestions-RisingBy qs ds s t.places);
  keys = keys;
  choices = rows_choices qs ds s t.choices;
}
