-- ===== src/Quiz/Merge/Known.antt =====
-- The ids that content carries, against the stored ones, and the choices that the merge makes.
use umclick.Common.{
  ℕ, suc, ◌<◌, ◌≡◌, ◌≢◌, subst, Bool, true, false, Option, none, some, List, [], ◌∷◌, find, is_some,
  All, All-map, RisingBy, Bool-cases, inl, inr, Returns, Result-cases, arith,
}
use umclick.Quiz.Content.{ChoiceData, QuestionData}
use umclick.Quiz.Content.Rows.{Tidy}
use umclick.Quiz.Merge.{
  ChoiceChange, with_choice_id, with_question_id, id_refused, note_id, merge_choices,
  merged_choices,
}

-- A choice is new or one of the stored ones.
abbrev pub ChoiceKnown : List ChoiceData → Option ℕ → Type 0
ChoiceKnown old none = Unit {0}
ChoiceKnown old (some k) = is_some (with_choice_id k old) ≡ true

-- A new question has new choices; a stored one has new choices or its own.
abbrev pub QuestionKnown : List QuestionData → QuestionData → Option ℕ → Type 0
QuestionKnown old d none = All (λ (c : ChoiceData). ChoiceKnown [] c.id) d.choices
QuestionKnown old d (some k) =
    (q : QuestionData) × (with_question_id k old ≡ some q)
    × All (λ (c : ChoiceData). ChoiceKnown q.choices c.id) d.choices

abbrev pub IdApart : ℕ → Option ℕ → Type 0
IdApart k none = Unit {0}
IdApart k (some j) = j ≢ k

abbrev pub IdAway : Option ℕ → List QuestionData → Type 0
IdAway none ds = Unit {0}
IdAway (some k) ds = All (λ (d : QuestionData). IdApart k d.id) ds

-- No id stands twice.
abbrev pub IdsDistinct : List QuestionData → Type 0
IdsDistinct [] = Unit {0}
IdsDistinct (d ∷ ds) = IdAway d.id ds × IdsDistinct ds

-- What a list of changed choices has become.
abbrev MergedChoices : List ChoiceData → ℕ → List ChoiceData → Type 0
MergedChoices old j ds =
    All (λ (d : ChoiceData). j < d.order) ds
    × RisingBy (λ (d : ChoiceData). d.order) ds
    × All (λ (d : ChoiceData). ChoiceKnown old d.id) ds

accepted-ChoiceKnown :
    (old : List ChoiceData) (id : Option ℕ) (seen : List ℕ)
    → id_refused id seen (λ k. with_choice_id k old) ≡ false
    → ChoiceKnown old id
accepted-ChoiceKnown old none seen h = tt
accepted-ChoiceKnown old (some k) seen h = ground arith

merge_choices-Merged :
    (old : List ChoiceData) (i j : ℕ) (seen : List ℕ) (sources : List ChoiceChange)
    → Returns (MergedChoices old j) (merge_choices old i j seen sources)
unfolding merge_choices
merge_choices-Merged old i j seen [] = (tt, tt, tt)
merge_choices-Merged old i j seen (source ∷ sources) =
    elim (Bool-cases (id_refused source.id seen (λ k. with_choice_id k old))) [
      | inl e ↦ rw e tt
      | inr e ↦ elim (Result-cases (merge_choices old i (suc j) (note_id source.id seen) sources)) [
        | inl (x, r) ↦ rw (e, r) tt
        | inr (ds, r) ↦
            let (above, rising, known) =
              subst (Returns (MergedChoices old (suc j))) r
                (merge_choices-Merged old i (suc j) (note_id source.id seen) sources) in
            rw (e, r)
              (
                (omega arith, All-map (λ d lt. omega arith) ds above),
                (above, rising),
                (accepted-ChoiceKnown old source.id seen e, known),
              )
      ]
    ]

-- What the merge relies on in the stored content.
pub record Stored (old : List QuestionData) : Type 0 where
  pub tidy : Tidy old
  pub ids : IdsDistinct old
  pub own : All (λ (q : QuestionData). QuestionKnown old q q.id) old
  pub choices :
      All (λ (q : QuestionData). All (λ (c : ChoiceData). ChoiceKnown q.choices c.id) q.choices) old

pub find-All {ℓ κ} :
    {A : Type ℓ} (P : A → Type κ) (p : A → Bool) (xs : List A) (x : A)
    → find p xs ≡ some x
    → All P xs
    → P x
find-All P p [] x e h = absurd (cc)
find-All P p (y ∷ ys) x e h = elim (Bool-cases (p y)) [
  | inl t ↦ subst P (some_eq (rw t at e)) h.0
  | inr t ↦ find-All P p ys x (rw t at e) h.1
]
  where
    some_eq : some y ≡ some x → y ≡ x
    some_eq q = cc

-- Choices over those of a question: in order, and known.
abbrev pub FitChoices : List ChoiceData → List ChoiceData → Type 0
FitChoices old ds =
    RisingBy (λ (d : ChoiceData). d.order) ds × All (λ (d : ChoiceData). ChoiceKnown old d.id) ds

pub merged_choices-Fit :
    (old : List ChoiceData) (i : ℕ) (sources : Option (List ChoiceChange))
    → FitChoices old old
    → Returns (FitChoices old) (merged_choices old i sources)
merged_choices-Fit old i none h = h
merged_choices-Fit old i (some sources) h = elim (Result-cases (merge_choices old i 0 [] sources)) [
  | inl (x, r) ↦ rw r tt
  | inr (ds, r) ↦
      let (_, rising, known) =
        subst (Returns (MergedChoices old 0)) r (merge_choices-Merged old i 0 [] sources) in
      rw r (rising, known)
]
