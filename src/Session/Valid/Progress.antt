-- ===== src/Session/Valid/Progress.antt =====
-- The questions of a version are asked in their order, each once.
use mathlib.Core.List.{reverse_aux}
use umclick.Common.{
  ℕ, suc, ◌+◌, ◌≤◌, ◌<◌, length, length-order_by, ◌==◌, ◌≡◌, ◌≢◌, refl, sym, ap, subst, ◌∙◌, true,
  Option, none, some, List, [], ◌∷◌, any, All, order_by, DistinctBy, order_by-DistinctBy,
  All-order_by, All-map, arith, ==_iff,
}
use umclick.Quiz.Model.{Question, QuizVersion, ordered_questions, question_before}
use umclick.Session.Model.{SessionQuestionRun}
use umclick.Session.Run.{first_question, question_after}

abbrev pub Distinct : List Question → Type 0
Distinct = DistinctBy λ q. q.pk

-- One run for each question, in the same order.
abbrev pub Asked : List Question → List SessionQuestionRun → Type 0
Asked [] [] = Unit {0}
Asked (q ∷ qs) (r ∷ rs) = (r.question_id ≡ q.pk) × Asked qs rs
Asked _ _ = ⊥

-- The runs, newest first, are those of a first part of the questions.
abbrev pub Played : List Question → List SessionQuestionRun → Type 0
Played questions runs =
    (before : List Question) × (rest : List Question) × (reverse_aux before rest ≡ questions)
    × Asked before runs

pub order_by-Distinct : (qs : List Question) → Distinct qs → Distinct (order_by question_before qs)
order_by-Distinct = order_by-DistinctBy (λ q. q.pk) question_before

-- What stands before a place differs from what stands from there on.
apart :
    (before rest : List Question)
    → Distinct (reverse_aux before rest)
    → Distinct rest × All (λ b. All (λ x. x.pk ≢ b.pk) rest) before
apart [] rest d = (d, tt)
apart (b ∷ before) rest d =
    let (step, far) = apart before (b ∷ rest) d in
    (step.1, (step.0, All-map (λ c h. h.1) before far))

question_after-skip :
    (k : ℕ) (before rest : List Question)
    → All (λ b. b.pk ≢ k) before
    → question_after k (reverse_aux before rest) ≡ question_after k rest
question_after-skip k [] rest h = refl
question_after-skip k (b ∷ before) rest h =
    question_after-skip k before (b ∷ rest) h.1 ∙ ground (arith, h.0)

-- The question after the last one asked is the first of the rest.
question_after-reverse_aux :
    (b : Question) (before rest : List Question)
    → Distinct (reverse_aux (b ∷ before) rest)
    → question_after b.pk (reverse_aux (b ∷ before) rest) ≡ first_question rest
question_after-reverse_aux b before rest d =
    question_after-skip b.pk before (b ∷ rest)
      (All-map (λ c h p. h.0 (sym p)) before (apart before (b ∷ rest) d).1)
    ∙ ground arith

-- What `_next_question` computes from the newest run.
abbrev pub following : List Question → List SessionQuestionRun → Option Question
following questions [] = first_question questions
following questions (r ∷ rs) = question_after r.question_id questions

pub following-Played :
    (questions : List Question) (runs : List SessionQuestionRun)
    → Distinct questions
    → (p : Played questions runs) → following questions runs ≡ first_question p.1
following-Played questions [] d ([], rest, e, a) = ap first_question (sym e)
following-Played questions (r ∷ rs) d (b ∷ before, rest, e, a) =
    rw (a.0, ← e) (question_after-reverse_aux b before rest (subst Distinct (sym e) d))
following-Played questions (r ∷ rs) d ([], rest, e, a) = elim a [ ]
following-Played questions [] d (b ∷ before, rest, e, a) = elim a [ ]

-- A question that comes next has no run.
Asked-fresh :
    (k : ℕ) (before : List Question) (runs : List SessionQuestionRun)
    → All (λ b. k ≢ b.pk) before
    → Asked before runs
    → All (λ r. r.question_id ≢ k) runs
Asked-fresh k [] [] h a = tt
Asked-fresh k [] (r ∷ rs) h a = elim a [ ]
Asked-fresh k (b ∷ before) [] h a = elim a [ ]
Asked-fresh k (b ∷ before) (r ∷ rs) h a = (λ e. h.0 (sym e ∙ a.0), Asked-fresh k before rs h.1 a.1)

-- Opening the run of the next question goes on with the order.
pub Played-next :
    (questions : List Question) (runs : List SessionQuestionRun) (q : Question)
    → Distinct questions
    → Played questions runs
    → following questions runs ≡ some q
    → All (λ r. r.question_id ≢ q.pk) runs
      × ((r : SessionQuestionRun) → r.question_id ≡ q.pk → Played questions (r ∷ runs))
Played-next questions runs q d (before, [], e, a) next =
    absurd (cc (following-Played questions runs d (before, [], e, a)))
Played-next questions runs q d (before, x ∷ rest, e, a) next =
    let same : x ≡ q = cc (following-Played questions runs d (before, x ∷ rest, e, a)) in
    let far = (apart before (x ∷ rest) (subst Distinct (sym e) d)).1 in
    (
      Asked-fresh q.pk before runs
          (All-map (λ b h p. h.0 (ap (λ (y : Question). y.pk) same ∙ p)) before far) a,
      λ r f. (x ∷ before, rest, e, (f ∙ sym (ap (λ (y : Question). y.pk) same), a)),
    )

-- Every question of the order belongs to the version.
own-All : (qs : List Question) → All (λ x. any (λ y. y.pk == x.pk) qs ≡ true) qs
own-All [] = tt
own-All (q ∷ qs) =
    (ground (arith, (==_iff q.pk q.pk).1 refl), All-map (λ x h. ground arith) qs (own-All qs))

reverse_aux-All :
    (P : Question → Type 0) (before rest : List Question)
    → All P (reverse_aux before rest)
    → All P rest
reverse_aux-All P [] rest h = h
reverse_aux-All P (b ∷ before) rest h = (reverse_aux-All P before (b ∷ rest) h).1

first_question-All :
    (P : Question → Type 0) (qs : List Question) (q : Question)
    → All P qs
    → first_question qs ≡ some q
    → P q
first_question-All P [] q h e = absurd (cc)
first_question-All P (x ∷ rest) q h e = let same : x ≡ q = cc in subst P same h.0

-- The next question is one of the version's.
pub following-own :
    (v : QuizVersion) (runs : List SessionQuestionRun) (q : Question)
    → Distinct v.questions
    → Played (ordered_questions v) runs
    → following (ordered_questions v) runs ≡ some q
    → any (λ y. y.pk == q.pk) v.questions ≡ true
unfolding ordered_questions
following-own v runs q d p next =
    let questions = ordered_questions v in
    let own =
      All-order_by (λ x. any (λ y. y.pk == x.pk) v.questions ≡ true) question_before v.questions
        (own-All v.questions) in
    let e = sym (following-Played questions runs (order_by-Distinct v.questions d) p) ∙ next in
    first_question-All (λ x. any (λ y. y.pk == x.pk) v.questions ≡ true) p.1 q
      (reverse_aux-All (λ x. any (λ y. y.pk == x.pk) v.questions ≡ true) p.0 p.1
        (subst (All (λ x. any (λ y. y.pk == x.pk) v.questions ≡ true)) (sym p.2) own))
      e

own-head :
    (P : Question → Type 0) (b : Question) (before rest : List Question)
    → All P (reverse_aux (b ∷ before) rest)
    → P b
own-head P b before rest h = (reverse_aux-All P before (b ∷ rest) h).0

-- The question of the newest run is one of the version's.
pub asked-own :
    (v : QuizVersion) (r : SessionQuestionRun) (rs : List SessionQuestionRun)
    → Played (ordered_questions v) (r ∷ rs)
    → any (λ y. y.pk == r.question_id) v.questions ≡ true
unfolding ordered_questions
asked-own v r rs ([], rest, e, a) = elim a [ ]
asked-own v r rs (b ∷ before, rest, e, a) = rw a.0 (
    own-head (λ x. any (λ y. y.pk == x.pk) v.questions ≡ true) b before rest
      (subst (All (λ x. any (λ y. y.pk == x.pk) v.questions ≡ true)) (sym e) (
        All-order_by (λ x. any (λ y. y.pk == x.pk) v.questions ≡ true) question_before v.questions
          (own-All v.questions))))

-- A run may be replaced by another one of the same question.
pub Played-replace :
    (questions : List Question) (r r' : SessionQuestionRun) (rs : List SessionQuestionRun)
    → r'.question_id ≡ r.question_id
    → Played questions (r ∷ rs)
    → Played questions (r' ∷ rs)
Played-replace questions r r' rs same ([], rest, e, a) = elim a [ ]
Played-replace questions r r' rs same (b ∷ before, rest, e, a) =
    (b ∷ before, rest, e, (same ∙ a.0, a.1))

length-reverse_aux :
    (before rest : List Question) → length (reverse_aux before rest) ≡ length before + length rest
length-reverse_aux [] rest = omega arith
length-reverse_aux (b ∷ before) rest = omega (arith, length-reverse_aux before (b ∷ rest))

length-Asked :
    (before : List Question) (runs : List SessionQuestionRun)
    → Asked before runs
    → length before ≡ length runs
length-Asked [] [] a = refl
length-Asked [] (r ∷ rs) a = elim a [ ]
length-Asked (b ∷ before) [] a = elim a [ ]
length-Asked (b ∷ before) (r ∷ rs) a = ap suc (length-Asked before rs a.1)

length-ordered : (v : QuizVersion) → length (ordered_questions v) ≡ length v.questions
unfolding ordered_questions
length-ordered v = length-order_by question_before v.questions

-- The number of runs and the questions that are left make up all questions.
runs-add-rest :
    (v : QuizVersion) (runs : List SessionQuestionRun)
    → (p : Played (ordered_questions v) runs) → length runs + length p.1 ≡ length v.questions
runs-add-rest v runs (before, rest, e, a) = omega (
  arith,
  length-reverse_aux before rest,
  length-Asked before runs a,
  ap length e,
  length-ordered v,
)

ordered_questions-Distinct :
    (v : QuizVersion) → Distinct v.questions → Distinct (ordered_questions v)
unfolding ordered_questions
ordered_questions-Distinct v d = order_by-Distinct v.questions d

first_question-some :
    (rest : List Question) (q : Question) → first_question rest ≡ some q → 0 < length rest
first_question-some [] q e = absurd (cc)
first_question-some (x ∷ rest) q e = omega arith

first_question-none : (rest : List Question) → first_question rest ≡ none → length rest ≡ 0
first_question-none [] e = refl
first_question-none (x ∷ rest) e = absurd (cc)

pub following-lt :
    (v : QuizVersion) (runs : List SessionQuestionRun) (q : Question)
    → Distinct v.questions
    → Played (ordered_questions v) runs
    → following (ordered_questions v) runs ≡ some q
    → length runs < length v.questions
following-lt v runs q d p e = omega (
  arith,
  runs-add-rest v runs p,
  first_question-some p.1 q
      (sym (following-Played (ordered_questions v) runs (ordered_questions-Distinct v d) p) ∙ e),
)

pub following-all :
    (v : QuizVersion) (runs : List SessionQuestionRun)
    → Distinct v.questions
    → Played (ordered_questions v) runs
    → following (ordered_questions v) runs ≡ none
    → length runs ≡ length v.questions
following-all v runs d p e = omega (
  arith,
  runs-add-rest v runs p,
  first_question-none p.1
      (sym (following-Played (ordered_questions v) runs (ordered_questions-Distinct v d) p) ∙ e),
)

-- No more questions have been asked than there are.
pub asked-le :
    (v : QuizVersion) (runs : List SessionQuestionRun)
    → Played (ordered_questions v) runs
    → length runs ≤ length v.questions
asked-le v runs p = omega (arith, runs-add-rest v runs p)
