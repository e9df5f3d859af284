-- ===== src/Quiz/Merge/Laws.antt =====
-- What the merge makes of a request: tidy content, whose ids are distinct and those of stored rows.
use umclick.Common.{
  ℕ, suc, ◌<◌, ◌==◌, ◌≡◌, ◌≢◌, refl, sym, subst, Bool, true, false, ◌||◌, Option, none, some, List,
  [], ◌∷◌, any, All, All-map, All-both, RisingBy, Bool-cases, Option-cases, inl, inr, Returns,
  Result-cases, arith,
}
use umclick.Quiz.Content.{ChoiceData, QuestionData, Content}
use umclick.Quiz.Content.Rows.{Tidy}
use umclick.Quiz.Merge.{
  QuestionChange, Changes, or_else, blank_content, blank_question, with_question_id, id_refused,
  note_id, old_or, merged_choices, merge_question, merge_questions, merged_questions, merge_content,
}
use umclick.Quiz.Merge.Known.{
  ChoiceKnown, QuestionKnown, IdApart, IdAway, IdsDistinct, Stored, find-All, FitChoices,
  merged_choices-Fit,
}

record MergedQuestions (old : List QuestionData) (i : ℕ) (seen : List ℕ) (ds : List QuestionData)
    : Type 0 where
  above : All (λ (d : QuestionData). i < d.order) ds
  rising : RisingBy (λ (d : QuestionData). d.order) ds
  choices : All (λ (d : QuestionData). RisingBy (λ c. c.order) d.choices) ds
  known : All (λ (d : QuestionData). QuestionKnown old d d.id) ds
  ids : IdsDistinct ds
  away : All (λ k. All (λ (d : QuestionData). IdApart k d.id) ds) seen

-- An accepted id names a stored question whose choices fit, or none.
accepted-stored :
    (old : List QuestionData) (id : Option ℕ) (seen : List ℕ)
    → Stored old
    → id_refused id seen (λ k. with_question_id k old) ≡ false
    → let stored = old_or id (λ k. with_question_id k old) blank_question in
      FitChoices stored.choices stored.choices
      × ((d : QuestionData)
          → All (λ (c : ChoiceData). ChoiceKnown stored.choices c.id) d.choices
          → QuestionKnown old d id)
accepted-stored old none seen s h = ((tt, tt), λ d k. k)
accepted-stored old (some k) seen s h = elim (Option-cases (with_question_id k old)) [
  | inl e ↦ absurd (cc (missing (any (λ j. j == k) seen) (rw e at h)))
  | inr (q, e) ↦ rw e (
    (
      find-All (λ (q : QuestionData). RisingBy (λ (c : ChoiceData). c.order) q.choices) _ old q e
          s.tidy.choices,
      find-All
          (λ (q : QuestionData). All (λ (c : ChoiceData). ChoiceKnown q.choices c.id) q.choices) _
          old q e s.choices,
    ),
    λ d known. (q, refl, known),
  )
]
  where
    missing : (b : Bool) → (b || true) ≡ false → true ≡ false
    missing b h = ground arith

seen_apart : (k : ℕ) (seen : List ℕ) → any (λ j. j == k) seen ≡ false → All (λ j. k ≢ j) seen
seen_apart k [] h = tt
seen_apart k (j ∷ seen) h = (ground arith, seen_apart k seen (ground arith))

-- The ids that follow are apart from the next one and from those seen before.
accepted-away :
    (old : List QuestionData) (id : Option ℕ) (seen : List ℕ) (d : QuestionData)
    (ds : List QuestionData)
    → d.id ≡ id
    → id_refused id seen (λ k. with_question_id k old) ≡ false
    → All (λ k. All (λ (d : QuestionData). IdApart k d.id) ds) (note_id id seen)
    → IdAway id ds × All (λ k. All (λ (d : QuestionData). IdApart k d.id) (d ∷ ds)) seen
accepted-away old none seen d ds e h away =
    (tt, All-map (λ k a. (subst (IdApart k) (sym e) tt, a)) seen away)
accepted-away old (some k) seen d ds e h away = (
  away.0,
  All-both (λ j a apart. (subst (IdApart j) (sym e) apart, a)) seen away.1
      (seen_apart k seen (ground arith)),
)

merge_questions-Merged :
    (old : List QuestionData) (i : ℕ) (seen : List ℕ) (sources : List QuestionChange)
    → Stored old
    → Returns (MergedQuestions old i seen) (merge_questions old i seen sources)
unfolding merge_questions
merge_questions-Merged old i seen [] s = record {
  above = tt;
  rising = tt;
  choices = tt;
  known = tt;
  ids = tt;
  away = nothing seen;
}
  where
    nothing : (seen : List ℕ) → All (λ k. All (λ (d : QuestionData). IdApart k d.id) []) seen
    nothing [] = tt
    nothing (k ∷ seen) = (tt, nothing seen)
merge_questions-Merged old i seen (source ∷ sources) s =
    let stored = old_or source.id (λ k. with_question_id k old) blank_question in
    elim (Bool-cases (id_refused source.id seen (λ k. with_question_id k old))) [
      | inl e ↦ rw e tt
      | inr e ↦
          let (fit, known) = accepted-stored old source.id seen s e in
          elim (Result-cases (merged_choices stored.choices i source.choices)) [
            | inl (x, c) ↦ rw (e, c) tt
            | inr (cs, c) ↦
                let (rising, mine) =
                  subst (Returns (FitChoices stored.choices)) c
                    (merged_choices-Fit stored.choices i source.choices fit) in
                elim (Result-cases (merge_questions old (suc i) (note_id source.id seen) sources)) [
                  | inl (x, r) ↦ rw (e, c, r) tt
                  | inr (ds, r) ↦
                      let m =
                        subst (Returns (MergedQuestions old (suc i) (note_id source.id seen))) r
                          (merge_questions-Merged old (suc i) (note_id source.id seen) sources s) in
                      let d = merge_question stored source i cs in
                      let (apart, away) = accepted-away old source.id seen d ds refl e m.away in
                      rw (e, c, r)
                        (record {
                          above = (omega arith, All-map (λ d lt. omega arith) ds m.above);
                          rising = (m.above, m.rising);
                          choices = (rising, m.choices);
                          known = (known d mine, m.known);
                          ids = (apart, m.ids);
                          away = away;
                        })
                ]
          ]
    ]

-- What the content of a merge is, against the stored questions.
pub record Merged (old : List QuestionData) (ds : List QuestionData) : Type 0 where
  pub tidy : Tidy ds
  pub known : All (λ (d : QuestionData). QuestionKnown old d d.id) ds
  pub ids : IdsDistinct ds

merged_questions-Merged :
    (old : List QuestionData) (sources : Option (List QuestionChange))
    → Stored old
    → Returns (Merged old) (merged_questions old sources)
merged_questions-Merged old none s = record { tidy = s.tidy; known = s.own; ids = s.ids }
merged_questions-Merged old (some sources) s =
    elim (Result-cases (merge_questions old 0 [] sources)) [
      | inl (x, r) ↦ rw r tt
      | inr (ds, r) ↦
          let m =
            subst (Returns (MergedQuestions old 0 [])) r
              (merge_questions-Merged old 0 [] sources s) in
          rw r (record {
            tidy = record { places = m.rising; choices = m.choices };
            known = m.known;
            ids = m.ids;
          })
    ]

pub merge_content-Merged :
    (stored : Option Content) (changes : Changes)
    → Stored (or_else stored blank_content).questions
    → Returns
        (λ d. Merged (or_else stored blank_content).questions d.questions)
        (merge_content stored changes)
unfolding merge_content
merge_content-Merged stored changes s =
    let old = (or_else stored blank_content).questions in
    elim (Result-cases (merged_questions old changes.questions)) [
      | inl (x, r) ↦ rw r tt
      | inr (ds, r) ↦
          rw r (subst (Returns (Merged old)) r (merged_questions-Merged old changes.questions s))
    ]
