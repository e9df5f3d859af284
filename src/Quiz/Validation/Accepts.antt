-- ===== src/Quiz/Validation/Accepts.antt =====
-- Which versions the validation accepts.
use umclick.Common.{
  ℕ, suc, ◌≤◌, ◌==◌, ◌≡◌, refl, ltb, Bool, true, false, not, List, [], ◌∷◌, any, length, count_if,
  All, inl, inr, Bool-cases, ◌↔◌, arith, Result, ok, err,
}
use umclick.Quiz.Model.{QuizVersion}
use umclick.Quiz.Content.{ChoiceData, QuestionData, Content, quiz_data}
use umclick.Quiz.Validation.{
  Field, Message, Errors, put, put_if, is_blank, in_range, is_empty, check_choices, check_question,
  check_questions, quiz_errors, validate_quiz_data, validate_quiz_instance,
}

-- A text that has something to read in it.
abbrev pub IsReadable : (ℕ → Bool) → List ℕ → Type 0
IsReadable is_space text = any (λ c. not (is_space c)) text ≡ true

pub record QuestionPlayable (is_space : ℕ → Bool) (q : QuestionData) : Type 0 where
  pub text : IsReadable is_space q.text
  pub low : 5 ≤ q.time_limit_sec
  pub high : q.time_limit_sec ≤ 180
  pub choices : 2 ≤ length q.choices
  pub correct : count_if (λ (c : ChoiceData). c.is_correct) q.choices ≡ 1
  pub texts : All (λ (c : ChoiceData). IsReadable is_space c.text) q.choices

pub record Playable (is_space : ℕ → Bool) (v : Content) : Type 0 where
  pub title : IsReadable is_space v.title
  pub reading_low : 3 ≤ v.reading_time_sec
  pub reading_high : v.reading_time_sec ≤ 120
  pub results_low : 3 ≤ v.results_time_sec
  pub results_high : v.results_time_sec ≤ 60
  pub asked : 1 ≤ length v.questions
  pub playable : All (QuestionPlayable is_space) v.questions

-- No error has been noted, written as a test.
abbrev Clean : Errors → Type 0
Clean errors = is_empty errors ≡ true

put-full : (k : Field) (m : Message) (errors : Errors) → is_empty (put k m errors) ≡ false
put-full k m [] = refl
put-full k m ((k', m') ∷ rest) = ground arith

put_if-Clean :
    (test : Bool) (k : Field) (m : Message) (errors : Errors)
    → Clean (put_if test k m errors) ↔ ((test ≡ false) × Clean errors)
put_if-Clean true k m errors = (λ h. absurd (cc (put-full k m errors, h)), λ h. absurd (cc (h.0)))
put_if-Clean false k m errors = (λ h. (refl, h), λ h. h.1)

module _ (is_space : ℕ → Bool) where
  readable : (text : List ℕ) → (is_blank is_space text ≡ false) ↔ IsReadable is_space text
  readable text = ground arith

  check_choices-Clean :
      (i j : ℕ) (cs : List ChoiceData) (errors : Errors)
      → Clean (check_choices is_space i j cs errors)
        ↔ (Clean errors × All (λ (c : ChoiceData). IsReadable is_space c.text) cs)
  check_choices-Clean i j [] errors = (λ h. (h, tt), λ h. h.0)
  check_choices-Clean i j (c ∷ cs) errors =
      let (f, g) =
        check_choices-Clean i (suc j) cs (put_if (is_blank is_space c.text) _ _ errors) in
      let (p, q) = put_if-Clean (is_blank is_space c.text) _ _ errors in
      (
        λ h. ((p (f h).0).1, ((readable c.text).0 (p (f h).0).0, (f h).1)),
        λ h. g (q ((readable c.text).1 h.1.0, h.0), h.1.1),
      )

  limits :
      (low value high : ℕ)
      → (not (in_range low value high) ≡ false) ↔ ((low ≤ value) × (value ≤ high))
  limits low value high = ground arith

  check_question-Clean :
      (i : ℕ) (q : QuestionData) (errors : Errors)
      → Clean (check_question is_space i q errors) ↔ (Clean errors × QuestionPlayable is_space q)
  check_question-Clean i q errors =
      let (f1, g1) = put_if-Clean (is_blank is_space q.text) _ _ errors in
      let (f2, g2) = put_if-Clean (not (in_range 5 q.time_limit_sec 180)) _ _ _ in
      let (f3, g3) = put_if-Clean (ltb (length q.choices) 2) _ _ _ in
      let (f4, g4) =
        put_if-Clean (not (count_if (λ (c : ChoiceData). c.is_correct) q.choices == 1)) _ _ _ in
      let (f5, g5) = check_choices-Clean i 0 q.choices _ in
      (
        λ h.
            let h4 = f4 (f5 h).0 in
            let h3 = f3 h4.1 in
            let h2 = f2 h3.1 in
            let h1 = f1 h2.1 in
            (
              h1.1,
              record {
                text = (readable q.text).0 h1.0;
                low = ((limits 5 q.time_limit_sec 180).0 h2.0).0;
                high = ((limits 5 q.time_limit_sec 180).0 h2.0).1;
                choices = (many q.choices).0 h3.0;
                correct = (single _).0 h4.0;
                texts = (f5 h).1;
              },
            ),
        λ (clean, ok_q). g5 (
          g4 (
            (single _).1 ok_q.correct,
            g3 (
              (many q.choices).1 ok_q.choices,
              g2 (
                (limits 5 q.time_limit_sec 180).1 (ok_q.low, ok_q.high),
                g1 ((readable q.text).1 ok_q.text, clean),
              ),
            ),
          ),
          ok_q.texts,
        ),
      )
    where
      many : (cs : List ChoiceData) → (ltb (length cs) 2 ≡ false) ↔ (2 ≤ length cs)
      many cs = ground arith

      single : (n : ℕ) → (not (n == 1) ≡ false) ↔ (n ≡ 1)
      single n = ground arith

  check_questions-Clean :
      (i : ℕ) (qs : List QuestionData) (errors : Errors)
      → Clean (check_questions is_space i qs errors)
        ↔ (Clean errors × All (QuestionPlayable is_space) qs)
  check_questions-Clean i [] errors = (λ h. (h, tt), λ h. h.0)
  check_questions-Clean i (q ∷ qs) errors =
      let (f, g) = check_questions-Clean (suc i) qs (check_question is_space i q errors) in
      let (p, r) = check_question-Clean i q errors in
      (λ h. ((p (f h).0).0, ((p (f h).0).1, (f h).1)), λ h. g (r (h.0, h.1.0), h.1.1))

  quiz_errors-Clean : (v : Content) → Clean (quiz_errors is_space v) ↔ Playable is_space v
  quiz_errors-Clean v =
      let (f1, g1) = put_if-Clean (is_blank is_space v.title) _ _ [] in
      let (f2, g2) = put_if-Clean (not (in_range 3 v.reading_time_sec 120)) _ _ _ in
      let (f3, g3) = put_if-Clean (not (in_range 3 v.results_time_sec 60)) _ _ _ in
      let (f4, g4) = put_if-Clean (is_empty v.questions) _ _ _ in
      let (f5, g5) = check_questions-Clean 0 v.questions _ in
      (
        λ h.
            let h4 = f4 (f5 h).0 in
            let h3 = f3 h4.1 in
            let h2 = f2 h3.1 in
            record {
              title = (readable v.title).0 (f1 h2.1).0;
              reading_low = ((limits 3 v.reading_time_sec 120).0 h2.0).0;
              reading_high = ((limits 3 v.reading_time_sec 120).0 h2.0).1;
              results_low = ((limits 3 v.results_time_sec 60).0 h3.0).0;
              results_high = ((limits 3 v.results_time_sec 60).0 h3.0).1;
              asked = (nonempty v.questions).0 h4.0;
              playable = (f5 h).1;
            },
        λ p. g5 (
          g4 (
            (nonempty v.questions).1 p.asked,
            g3 (
              (limits 3 v.results_time_sec 60).1 (p.results_low, p.results_high),
              g2 (
                (limits 3 v.reading_time_sec 120).1 (p.reading_low, p.reading_high),
                g1 ((readable v.title).1 p.title, refl),
              ),
            ),
          ),
          p.playable,
        ),
      )
    where
      nonempty : (qs : List QuestionData) → (is_empty qs ≡ false) ↔ (1 ≤ length qs)
      nonempty [] = (λ h. absurd (cc (h)), λ h. absurd (omega (arith, h)))
      nonempty (q ∷ qs) = (λ h. omega arith, λ h. refl)

-- The validation accepts content exactly when it is `Playable`: a readable title, 3 to 120 seconds
-- for reading and 3 to 60 for the results, at least one question, and each question with a readable
-- text, 5 to 180 seconds, two or more choices, exactly one of them correct, all readable. A message
-- that replaces another never hides that there is an error.
pub validate_quiz_data-Playable :
    (is_space : ℕ → Bool) (v : Content)
    → (validate_quiz_data is_space v ≡ ok tt) ↔ Playable is_space v
unfolding validate_quiz_data
validate_quiz_data-Playable is_space v = elim (Bool-cases (is_empty (quiz_errors is_space v))) [
  | inl e ↦ rw e (λ h. (quiz_errors-Clean is_space v).0 e, λ p. refl)
  | inr e ↦
      rw e (λ h. absurd (not_ok _ h), λ p. absurd (cc (e, (quiz_errors-Clean is_space v).1 p)))
]
  where
    not_ok : (errors : Errors) → (let r : Result Errors (Unit {0}) = err errors in r ≡ ok tt) → ⊥
    not_ok errors h = cc

-- The validation accepts a stored version exactly when the content that `quiz_data` makes of it is
-- `Playable`: a readable title, 3 to 120 seconds for reading and 3 to 60 for the results, at least
-- one question, and each question with a readable text, 5 to 180 seconds, two or more choices, exactly
-- one of them correct, all readable.
pub validate_quiz_instance-Playable :
    (is_space : ℕ → Bool) (v : QuizVersion)
    → (validate_quiz_instance is_space v ≡ ok tt) ↔ Playable is_space (quiz_data v)
unfolding validate_quiz_instance
validate_quiz_instance-Playable is_space v = validate_quiz_data-Playable is_space (quiz_data v)
