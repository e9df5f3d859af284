-- ===== src/Quiz/Graph/Writes.antt =====
-- Writing a dictionary to rows: it cannot fail on known ids, and the rows hold the dictionary.
use umclick.Common.{
  ℕ, suc, ◌+◌, ◌≤◌, ◌<◌, ◌==◌, ◌≡◌, ◌≢◌, refl, sym, ◌∙◌, subst, true, Option, none, some, List, [],
  ◌∷◌, length, any, find, All, All-map, DistinctBy, Bool-cases, inl, inr, ok, arith,
}
use umclick.Quiz.Model.{Choice, Question}
use umclick.Quiz.Content.{ChoiceData, QuestionData}
use umclick.Quiz.Content.Rows.{SameChoices, SameQuestions}
use umclick.Quiz.Merge.Known.{IdApart, IdAway, IdsDistinct, find-All}
use umclick.Quiz.Graph.{
  new_choice, new_choices, new_questions, update_choices, update_questions, updated_question,
  choice_row, question_row,
}

-- The row of an id that a dictionary names is there.
abbrev pub RowKnown : List Choice → Option ℕ → Type 0
RowKnown cs none = Unit {0}
RowKnown cs (some k) = any (λ (c : Choice). c.pk == k) cs ≡ true

abbrev pub QuestionRow : List Question → QuestionData → Option ℕ → Type 0
QuestionRow qs d none = All (λ (c : ChoiceData). RowKnown [] c.id) d.choices
QuestionRow qs d (some k) =
    (q : Question) × (find (λ (q : Question). q.pk == k) qs ≡ some q)
    × All (λ (c : ChoiceData). RowKnown q.choices c.id) d.choices

find-any :
    (k : ℕ) (cs : List Choice)
    → any (λ (c : Choice). c.pk == k) cs ≡ true
    → (c : Choice) × (find (λ (c : Choice). c.pk == k) cs ≡ some c)
find-any k [] h = absurd (cc)
find-any k (c ∷ cs) h = elim (Bool-cases (c.pk == k)) [
  | inl e ↦ (c, rw e refl)
  | inr e ↦ let (x, f) = find-any k cs (ground (arith, e, h)) in (x, rw e f)
]

choice_row-ok :
    (cs : List Choice) (next : ℕ) (id : Option ℕ)
    → RowKnown cs id
    → (pk : ℕ) × (after : ℕ) × (choice_row cs next id ≡ ok (pk, after))
choice_row-ok cs next none h = (next, suc next, refl)
choice_row-ok cs next (some k) h = let (c, e) = find-any k cs h in (c.pk, next, rw e refl)

pub update_choices-ok :
    (cs : List Choice) (next : ℕ) (ds : List ChoiceData)
    → All (λ (d : ChoiceData). RowKnown cs d.id) ds
    → (rows : List Choice) × (last : ℕ) × (update_choices cs next ds ≡ ok (rows, last))
      × SameChoices rows ds
unfolding update_choices
update_choices-ok cs next [] h = ([], next, refl, tt)
update_choices-ok cs next (d ∷ ds) h =
    let (pk, after, e) = choice_row-ok cs next d.id h.0 in
    let (rows, last, r, s) = update_choices-ok cs after ds h.1 in
    (new_choice pk d ∷ rows, last, rw (e, r) refl, (refl, refl, refl, s))

-- What writing the questions comes to.
pub record Written (next : ℕ) (ds : List QuestionData) (rows : List Question) (last : ℕ)
    : Type 0 where
  pub same : SameQuestions rows ds
  pub keys : DistinctBy (λ (q : Question). q.pk) rows
  pub below : All (λ (q : Question). q.pk < last) rows
  pub grown : next ≤ last
  -- a key that no dictionary names and that was given out before is not used
  pub apart :
      (k : ℕ)
      → k < next
      → All (λ (d : QuestionData). IdApart k d.id) ds
      → All (λ (q : Question). q.pk ≢ k) rows

question_row-ok :
    (qs : List Question) (next : ℕ) (d : QuestionData) (id : Option ℕ)
    → d.id ≡ id
    → QuestionRow qs d id
    → All (λ (q : Question). q.pk < next) qs
    → (pk : ℕ) × (choices : List Choice) × (after : ℕ) × (question_row qs next id
        ≡ ok (pk, choices, after))
      × All (λ (c : ChoiceData). RowKnown choices c.id) d.choices
      × (pk < after)
      × (next ≤ after)
      × ((k : ℕ) → k < next → IdApart k id → pk ≢ k)
      × ((ds : List QuestionData)
          → IdAway id ds
          → All (λ (e : QuestionData). (k : ℕ) → e.id ≡ some k → k < next) ds
          → All (λ (e : QuestionData). IdApart pk e.id) ds)
question_row-ok qs next d none e h below = (
  next,
  [],
  suc next,
  refl,
  h,
  omega arith,
  omega arith,
  λ k lt a p. omega arith,
  λ ds away known. All-map (λ x f. fresh_apart x.id f) ds known,
)
  where
    fresh_apart : (id : Option ℕ) → ((k : ℕ) → id ≡ some k → k < next) → IdApart next id
    fresh_apart none f = tt
    fresh_apart (some j) f = λ p. omega (arith, f j refl)
question_row-ok qs next d (some k) e (q, found, known) below =
    let at : q.pk ≡ k = key_of qs found in
    let low : q.pk < next = find-All (λ (q : Question). q.pk < next) _ qs q found below in
    (
      q.pk,
      q.choices,
      next,
      rw found refl,
      known,
      low,
      omega arith,
      λ j lt a p. a (sym at ∙ p),
      λ ds away f. All-map (λ x a. subst (λ n. IdApart n x.id) (sym at) a) ds away,
    )
  where
    key_of : (qs : List Question) → find (λ (q : Question). q.pk == k) qs ≡ some q → q.pk ≡ k
    key_of [] f = absurd (cc)
    key_of (x ∷ xs) f = ground (arith, f, key_of xs)

row_low :
    (qs : List Question) (next : ℕ) (d : QuestionData)
    → QuestionRow qs d d.id
    → All (λ (q : Question). q.pk < next) qs
    → (k : ℕ) → d.id ≡ some k
    → k < next
row_low qs next d h below k e =
    let (q, found, _) = subst (QuestionRow qs d) e h in low {q = q} qs found below
  where
    low :
        {q : Question} (qs : List Question)
        → find (λ (q : Question). q.pk == k) qs ≡ some q
        → All (λ (q : Question). q.pk < next) qs
        → k < next
    low {q} [] f b = absurd (cc)
    low {q} (x ∷ xs) f b = ground (arith, f, b.0, low {q = q} xs)

pub update_questions-Written :
    (qs : List Question) (next next_choice : ℕ) (ds : List QuestionData)
    → All (λ (d : QuestionData). QuestionRow qs d d.id) ds
    → IdsDistinct ds
    → All (λ (q : Question). q.pk < next) qs
    → (rows : List Question) × (last : ℕ) × (last_choice : ℕ) × (update_questions qs next
          next_choice ds
        ≡ ok (rows, last, last_choice))
      × Written next ds rows last
unfolding update_questions
update_questions-Written qs next next_choice [] h ids below = (
  [],
  next,
  next_choice,
  refl,
  record { same = tt; keys = tt; below = tt; grown = omega arith; apart = λ k lt a. tt },
)
update_questions-Written qs next next_choice (d ∷ ds) h ids below =
    let (pk, choices, after, e, known, low, up, apart, away) =
      question_row-ok qs next d d.id refl h.0 below in
    let (rows, after_choice, c, same) = update_choices-ok choices next_choice d.choices known in
    let (rest, last, last_choice, r, w) =
      update_questions-Written qs after after_choice ds h.1 ids.1
        (All-map (λ q lt. omega (arith, lt, up)) qs below) in
    let others = away ds ids.0 (All-map (λ x k. row_low qs next x k below) ds h.1) in
    (
      updated_question pk d rows ∷ rest,
      last,
      last_choice,
      rw (e, c, r) refl,
      record {
        same = (refl, refl, refl, same, w.same);
        keys = (w.apart pk low others, w.keys);
        below = (omega (arith, low, w.grown), w.below);
        grown = omega (arith, up, w.grown);
        apart = λ k lt a. (apart k lt a.0, w.apart k (omega (arith, lt, up)) a.1);
      },
    )

new_choices-Same : (pk : ℕ) (ds : List ChoiceData) → SameChoices (new_choices pk ds) ds
new_choices-Same pk [] = tt
new_choices-Same pk (d ∷ ds) = (refl, refl, refl, new_choices-Same (suc pk) ds)

pub new_questions-Written :
    (next next_choice : ℕ) (ds : List QuestionData)
    → Written next ds (new_questions next next_choice ds) (next + length ds)
new_questions-Written next next_choice [] = record {
  same = tt;
  keys = tt;
  below = tt;
  grown = omega arith;
  apart = λ k lt a. tt;
}
new_questions-Written next next_choice (d ∷ ds) =
    let w = new_questions-Written (suc next) (next_choice + length d.choices) ds in
    let fresh = fresh_keys (suc next) (next_choice + length d.choices) ds in
    record {
      same = (refl, refl, refl, new_choices-Same next_choice d.choices, w.same);
      keys = (All-map (λ q lt. omega (arith, lt)) _ fresh, w.keys);
      below = (omega arith, All-map (λ q lt. omega (arith, lt)) _ w.below);
      grown = omega arith;
      apart = λ k lt a.
          ((λ e. omega (arith, e, lt)), All-map (λ q le. λ e. omega (arith, le, e, lt)) _ fresh);
    }
  where
    fresh_keys :
        (n c : ℕ) (ds : List QuestionData) → All (λ (q : Question). n ≤ q.pk) (new_questions n c ds)
    fresh_keys n c [] = tt
    fresh_keys n c (d ∷ ds) = (
      omega arith,
      All-map (λ q le. omega (arith, le)) _ (fresh_keys (suc n) (c + length d.choices) ds),
    )
