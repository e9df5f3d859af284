-- ===== src/Quiz/Merge/Errors.antt =====
-- With what the merge refuses a request.
use umclick.Common.{
  ℕ, suc, Option, none, some, List, [], ◌∷◌, Bool-cases, inl, inr, subst, Raises, Result-cases,
}
use umclick.Quiz.Content.{ChoiceData, QuestionData, Content}
use umclick.Quiz.Refusals.{Refusal, unknown_question, unknown_choice}
use umclick.Quiz.Merge.{
  ChoiceChange, QuestionChange, Changes, or_else, blank_content, blank_question, with_choice_id,
  with_question_id, id_refused, note_id, old_or, merge_choices, merged_choices, merge_questions,
  merged_questions, merge_content,
}

-- An unknown or repeated key.
abbrev pub MergeError : Refusal → Type 0
MergeError (unknown_question i) = Unit {0}
MergeError (unknown_choice i j) = Unit {0}
MergeError _ = ⊥

merge_choices-Raises :
    (old : List ChoiceData) (i j : ℕ) (seen : List ℕ) (sources : List ChoiceChange)
    → Raises MergeError (merge_choices old i j seen sources)
unfolding merge_choices
merge_choices-Raises old i j seen [] = tt
merge_choices-Raises old i j seen (source ∷ sources) =
    elim (Bool-cases (id_refused source.id seen (λ k. with_choice_id k old))) [
      | inl e ↦ rw e tt
      | inr e ↦ elim (Result-cases (merge_choices old i (suc j) (note_id source.id seen) sources)) [
        | inl (x, r) ↦
            rw (e, r)
              (subst (Raises MergeError) r
                (merge_choices-Raises old i (suc j) (note_id source.id seen) sources))
        | inr (ds, r) ↦ rw (e, r) tt
      ]
    ]

merged_choices-Raises :
    (old : List ChoiceData) (i : ℕ) (sources : Option (List ChoiceChange))
    → Raises MergeError (merged_choices old i sources)
merged_choices-Raises old i none = tt
merged_choices-Raises old i (some sources) = merge_choices-Raises old i 0 [] sources

merge_questions-Raises :
    (old : List QuestionData) (i : ℕ) (seen : List ℕ) (sources : List QuestionChange)
    → Raises MergeError (merge_questions old i seen sources)
unfolding merge_questions
merge_questions-Raises old i seen [] = tt
merge_questions-Raises old i seen (source ∷ sources) =
    let choices = (old_or source.id (λ k. with_question_id k old) blank_question).choices in
    elim (Bool-cases (id_refused source.id seen (λ k. with_question_id k old))) [
      | inl e ↦ rw e tt
      | inr e ↦ elim (Result-cases (merged_choices choices i source.choices)) [
        | inl (x, c) ↦
            rw (e, c) (subst (Raises MergeError) c (merged_choices-Raises choices i source.choices))
        | inr (cs, c) ↦
            elim (Result-cases (merge_questions old (suc i) (note_id source.id seen) sources)) [
              | inl (x, r) ↦
                  rw (e, c, r)
                    (subst (Raises MergeError) r
                      (merge_questions-Raises old (suc i) (note_id source.id seen) sources))
              | inr (ds, r) ↦ rw (e, c, r) tt
            ]
      ]
    ]

merged_questions-Raises :
    (old : List QuestionData) (sources : Option (List QuestionChange))
    → Raises MergeError (merged_questions old sources)
merged_questions-Raises old none = tt
merged_questions-Raises old (some sources) = merge_questions-Raises old 0 [] sources

pub merge_content-Raises :
    (stored : Option Content) (changes : Changes) → Raises MergeError (merge_content stored changes)
unfolding merge_content
merge_content-Raises stored changes =
    let old = (or_else stored blank_content).questions in
    elim (Result-cases (merged_questions old changes.questions)) [
      | inl (x, r) ↦
          rw r (subst (Raises MergeError) r (merged_questions-Raises old changes.questions))
      | inr (ds, r) ↦ rw r tt
    ]
