-- ===== src/Quiz/Merge/Requested.antt =====
-- The content that a request for a new quiz asks for.
use umclick.Common.{
  ℕ, suc, ◌≡◌, refl, sym, subst, Bool, true, false, ◌||◌, Option, none, some, List, [], ◌∷◌, any,
  ◌==◌, Bool-cases, inl, inr, Returns, Result-cases, arith,
}
use umclick.Quiz.Content.{ChoiceData, QuestionData, Content}
use umclick.Quiz.Merge.{
  ChoiceChange, QuestionChange, Changes, or_else, blank_choice, blank_question, with_choice_id,
  with_question_id, id_refused, note_id, old_or, merge_choice, merge_choices, merged_choices,
  merge_question, merge_questions, merged_questions, merge_content,
}

-- A field is what the request has, or else its default.
abbrev pub FieldRequested {ℓ} : {A : Type ℓ} → Option A → A → A → Type ℓ
FieldRequested none default x = x ≡ default
FieldRequested (some a) default x = x ≡ a

pub record ChoiceRequested (j : ℕ) (source : ChoiceChange) (c : ChoiceData) : Type 0 where
  pub no_key : source.id ≡ none
  pub id : c.id ≡ none
  pub text : FieldRequested source.text [] c.text
  pub is_correct : FieldRequested source.is_correct false c.is_correct
  pub order : c.order ≡ suc j

-- The choices from the index `j`, one for each of the request.
abbrev pub ChoicesRequested : ℕ → List ChoiceChange → List ChoiceData → Type 0
ChoicesRequested j [] [] = Unit {0}
ChoicesRequested j (source ∷ sources) (c ∷ cs) =
    ChoiceRequested j source c × ChoicesRequested (suc j) sources cs
ChoicesRequested j _ _ = ⊥

-- A question without choices in the request has none.
abbrev pub OwnChoicesRequested : Option (List ChoiceChange) → List ChoiceData → Type 0
OwnChoicesRequested none cs = cs ≡ []
OwnChoicesRequested (some sources) cs = ChoicesRequested 0 sources cs

pub record QuestionRequested (i : ℕ) (source : QuestionChange) (q : QuestionData) : Type 0 where
  pub no_key : source.id ≡ none
  pub id : q.id ≡ none
  pub text : FieldRequested source.text [] q.text
  pub order : q.order ≡ suc i
  pub time_limit_sec : FieldRequested source.time_limit_sec 20 q.time_limit_sec
  pub choices : OwnChoicesRequested source.choices q.choices

abbrev pub QuestionsRequested : ℕ → List QuestionChange → List QuestionData → Type 0
QuestionsRequested i [] [] = Unit {0}
QuestionsRequested i (source ∷ sources) (q ∷ qs) =
    QuestionRequested i source q × QuestionsRequested (suc i) sources qs
QuestionsRequested i _ _ = ⊥

abbrev pub OwnQuestionsRequested : Option (List QuestionChange) → List QuestionData → Type 0
OwnQuestionsRequested none qs = qs ≡ []
OwnQuestionsRequested (some sources) qs = QuestionsRequested 0 sources qs

pub record Requested (changes : Changes) (d : Content) : Type 0 where
  pub title : FieldRequested changes.title [] d.title
  pub description : FieldRequested changes.description [] d.description
  pub question_only_on_display :
      FieldRequested changes.question_only_on_display false d.question_only_on_display
  pub show_choices_on_participant :
      FieldRequested changes.show_choices_on_participant true d.show_choices_on_participant
  pub reading_time_sec : FieldRequested changes.reading_time_sec 15 d.reading_time_sec
  pub results_time_sec : FieldRequested changes.results_time_sec 10 d.results_time_sec
  pub questions : OwnQuestionsRequested changes.questions d.questions

or_else-FieldRequested {ℓ} :
    {A : Type ℓ} (o : Option A) (default : A) → FieldRequested o default (or_else o default)
or_else-FieldRequested none default = refl
or_else-FieldRequested (some a) default = refl

-- Where nothing is stored, every key is refused.
id_refused-none {ℓ} :
    (A : Type ℓ) (id : Option ℕ) (seen : List ℕ)
    → id_refused {A = A} id seen (λ k. none) ≡ false
    → id ≡ none
id_refused-none A none seen e = refl
id_refused-none A (some k) seen e = absurd (cc (missing (any (λ j. j == k) seen) e))
  where
    missing : (b : Bool) → (b || true) ≡ false → true ≡ false
    missing b h = ground arith

old_or-none {ℓ} : {A : Type ℓ} (id : Option ℕ) (blank : A) → old_or id (λ k. none) blank ≡ blank
old_or-none none blank = refl
old_or-none (some k) blank = refl

merge_choice-Requested :
    (j : ℕ) (source : ChoiceChange) (base : ChoiceData)
    → base ≡ blank_choice
    → source.id ≡ none
    → ChoiceRequested j source (merge_choice base source j)
merge_choice-Requested j source base e no_key =
    subst (λ b. ChoiceRequested j source (merge_choice b source j)) (sym e)
      (record {
        no_key = no_key;
        id = no_key;
        text = or_else-FieldRequested source.text [];
        is_correct = or_else-FieldRequested source.is_correct false;
        order = refl;
      })

merge_choices-Requested :
    (i j : ℕ) (seen : List ℕ) (sources : List ChoiceChange)
    → Returns (ChoicesRequested j sources) (merge_choices [] i j seen sources)
unfolding merge_choices
merge_choices-Requested i j seen [] = tt
merge_choices-Requested i j seen (source ∷ sources) =
    elim (Bool-cases (id_refused source.id seen (λ k. with_choice_id k []))) [
      | inl e ↦ rw e tt
      | inr e ↦ elim (Result-cases (merge_choices [] i (suc j) (note_id source.id seen) sources)) [
        | inl (x, r) ↦ rw (e, r) tt
        | inr (cs, r) ↦
            rw (e, r)
              (
                merge_choice-Requested j source _ (old_or-none source.id blank_choice)
                    (id_refused-none ChoiceData source.id seen e),
                subst (Returns (ChoicesRequested (suc j) sources)) r
                    (merge_choices-Requested i (suc j) (note_id source.id seen) sources),
              )
      ]
    ]

merged_choices-Requested :
    (i : ℕ) (sources : Option (List ChoiceChange))
    → Returns (OwnChoicesRequested sources) (merged_choices [] i sources)
merged_choices-Requested i none = refl
merged_choices-Requested i (some sources) = merge_choices-Requested i 0 [] sources

merge_question-Requested :
    (i : ℕ) (source : QuestionChange) (base : QuestionData) (cs : List ChoiceData)
    → base ≡ blank_question
    → source.id ≡ none
    → OwnChoicesRequested source.choices cs
    → QuestionRequested i source (merge_question base source i cs)
merge_question-Requested i source base cs e no_key choices =
    subst (λ b. QuestionRequested i source (merge_question b source i cs)) (sym e)
      (record {
        no_key = no_key;
        id = no_key;
        text = or_else-FieldRequested source.text [];
        order = refl;
        time_limit_sec = or_else-FieldRequested source.time_limit_sec 20;
        choices = choices;
      })

merge_questions-Requested :
    (i : ℕ) (seen : List ℕ) (sources : List QuestionChange)
    → Returns (QuestionsRequested i sources) (merge_questions [] i seen sources)
unfolding merge_questions
merge_questions-Requested i seen [] = tt
merge_questions-Requested i seen (source ∷ sources) =
    let base = old_or source.id (λ k. with_question_id k []) blank_question in
    let blank = old_or-none source.id blank_question in
    elim (Bool-cases (id_refused source.id seen (λ k. with_question_id k []))) [
      | inl e ↦ rw e tt
      | inr e ↦ elim (Result-cases (merged_choices base.choices i source.choices)) [
        | inl (x, c) ↦ rw (e, c) tt
        | inr (cs, c) ↦
            elim (Result-cases (merge_questions [] (suc i) (note_id source.id seen) sources)) [
              | inl (x, r) ↦ rw (e, c, r) tt
              | inr (qs, r) ↦
                  rw (e, c, r)
                    (
                      merge_question-Requested i source base cs blank
                          (id_refused-none QuestionData source.id seen e)
                          (subst (Returns (OwnChoicesRequested source.choices)) c (
                            subst
                              (λ (b : QuestionData).
                                Returns (OwnChoicesRequested source.choices)
                                  (merged_choices b.choices i source.choices))
                              (sym blank) (merged_choices-Requested i source.choices))),
                      subst (Returns (QuestionsRequested (suc i) sources)) r
                          (merge_questions-Requested (suc i) (note_id source.id seen) sources),
                    )
            ]
      ]
    ]

merged_questions-Requested :
    (sources : Option (List QuestionChange))
    → Returns (OwnQuestionsRequested sources) (merged_questions [] sources)
merged_questions-Requested none = refl
merged_questions-Requested (some sources) = merge_questions-Requested 0 [] sources

pub merge_content-Requested :
    (changes : Changes) → Returns (Requested changes) (merge_content none changes)
unfolding merge_content
merge_content-Requested changes = elim (Result-cases (merged_questions [] changes.questions)) [
  | inl (x, r) ↦ rw r tt
  | inr (qs, r) ↦ rw r (record {
    title = or_else-FieldRequested changes.title [];
    description = or_else-FieldRequested changes.description [];
    question_only_on_display = or_else-FieldRequested changes.question_only_on_display false;
    show_choices_on_participant = or_else-FieldRequested changes.show_choices_on_participant true;
    reading_time_sec = or_else-FieldRequested changes.reading_time_sec 15;
    results_time_sec = or_else-FieldRequested changes.results_time_sec 10;
    questions =
        subst (Returns (OwnQuestionsRequested changes.questions)) r
          (merged_questions-Requested changes.questions);
  })
]
