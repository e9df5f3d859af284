-- ===== src/Session/Answer/Outcomes.antt =====
-- What a press of an answer button can do to a valid game.
use umclick.Common.{
  ℕ, ◌==◌, ◌≡◌, refl, sym, ap, ◌∙◌, inl, inr, option_eq, Bool, true, false, ◌&&◌, some, any,
  Bool-cases, Option-cases, arith, option_eq→eq,
}
use umclick.Quiz.Model.{Choice, choice_of_question}
use umclick.Session.Model.{
  Game, SessionQuestionRun, Env, live, status_is, find_run, Phase, lobby, reading, answering,
  delivery, results, final,
}
use umclick.Session.Run.Store.{status_is→eq}
use umclick.Session.Valid.{IsValid, Current}
use umclick.Session.Valid.Change.{Placed-as, Current-head}
use umclick.Session.Transition.Moved.{&&-split}
use umclick.Session.Answer.{
  AnswerInput, trusted_current_run, existing_attempt, answer_digest, press, repeat_attempt,
  record_answer_attempt,
}
use umclick.Session.Answer.Storing.{Pressed, store_attempt-Pressed}

-- The run that the later queries find is that of the question.
current_question :
    (g : Game) (k q : ℕ)
    → IsValid g
    → g.session.status ≡ live
    → g.session.current_run_id ≡ some k
    → g.session.current_question_id ≡ some q
    → (run : SessionQuestionRun) × (run.pk ≡ k)
      × (run.question_id ≡ q)
      × (find_run k g.runs ≡ some run)
current_question g k q v is_live ek eq = go g.session.phase refl
  where
    at_head :
        (closed : Bool)
        → Current g.session g.runs closed
        → (run : SessionQuestionRun) × (run.pk ≡ k)
          × (run.question_id ≡ q)
          × (find_run k g.runs ≡ some run)
    at_head closed h =
        let (r, rs, e, (c, w, _, _)) = Current-head g.session g.runs closed h in
        let same : r.pk ≡ k = cc in
        let same' : r.question_id ≡ q = cc in (r, same, same', rw e (ground (arith, same)))

    go :
        (p : Phase)
        → g.session.phase ≡ p
        → (run : SessionQuestionRun) × (run.pk ≡ k)
          × (run.question_id ≡ q)
          × (find_run k g.runs ≡ some run)
    go lobby ep = absurd (cc ((Placed-as g live lobby v is_live ep).0.1))
    go reading ep = at_head false (Placed-as g live reading v is_live ep).0
    go answering ep = at_head false (Placed-as g live answering v is_live ep).0
    go delivery ep = at_head false (Placed-as g live delivery v is_live ep).0
    go results ep = at_head true (Placed-as g live results v is_live ep).0
    go final ep = elim (Placed-as g live final v is_live ep) [ ]

still_there :
    (g : Game) (k q : ℕ)
    → (status_is g.session.status live
        && option_eq g.session.current_run_id (some k)
        && option_eq g.session.current_question_id (some q))
      ≡ true
    → (g.session.status ≡ live)
      × (g.session.current_run_id ≡ some k)
      × (g.session.current_question_id ≡ some q)
still_there g k q h =
    let (rest, c) = &&-split _ (option_eq g.session.current_question_id (some q)) h in
    let (a, b) = &&-split (status_is g.session.status live) _ rest in
    (status_is→eq g.session.status live a, option_eq→eq _ _ b, option_eq→eq _ _ c)

press-Pressed :
    (env : Env) (g : Game) (run : SessionQuestionRun) (input : AnswerInput) (at : ℕ) (c : Choice)
    → IsValid g
    → g.session.current_run_id ≡ some run.pk
    → find_run run.pk g.runs ≡ some run
    → any (λ p. p.pk == input.participation_id) g.participants ≡ true
    → choice_of_question g.version.questions run.question_id input.choice_id ≡ some c
    → Pressed env g input at (press env g run.pk input at)
unfolding press repeat_attempt
press-Pressed env g run input at c v current found known choice =
    elim (Option-cases (existing_attempt g run.pk input)) [
      | inl fresh ↦
          rw (fresh, press)
            (store_attempt-Pressed env g run input at c v current found known choice fresh)
      | inr (a, old) ↦ elim (Bool-cases (a.payload_digest == answer_digest env input)) [
        | inl same ↦ rw (old, press, same) (refl, run.pk, old, same)
        | inr other ↦ rw (old, press, other) tt
      ]
    ]

-- On a valid game a press of an answer button, whatever game the locking query saw before, either
-- returns the stored row of a press with its id and digest and changes nothing; or is dropped because
-- the participant has twenty presses in this run already; or adds one row of the current run, whose
-- press was new and whose ordinal is at most 20, keeps the game valid and leaves the session, the
-- runs, the final answers and the commands alone; or is refused by a `Conflict` or a
-- `ValidationError`. It does not fail in any other way.
pub record_answer_attempt-Pressed :
    (env : Env) (trusted g : Game) (input : AnswerInput) (at : ℕ)
    → IsValid g
    → Pressed env g input at (record_answer_attempt env trusted g input at)
unfolding record_answer_attempt
record_answer_attempt-Pressed env trusted g input at v =
    elim (Option-cases (trusted_current_run trusted input.question_id)) [
      | inl other ↦ rw other tt
      | inr (seen, e) ↦
          let still =
            status_is g.session.status live
            && option_eq g.session.current_run_id (some seen.pk)
            && option_eq g.session.current_question_id (some input.question_id) in
          elim (Bool-cases still) [
            | inr moved ↦ rw (e, moved) tt
            | inl here ↦
                elim (Bool-cases (any (λ p. p.pk == input.participation_id) g.participants)) [
                  | inr stranger ↦ rw (e, here, stranger) tt
                  | inl known ↦
                      elim (Option-cases (
                        choice_of_question g.version.questions input.question_id input.choice_id)) [
                          | inl wrong ↦ rw (e, here, known, wrong) tt
                          | inr (c, choice) ↦
                              let (is_live, ek, eq) =
                                still_there g seen.pk input.question_id here in
                              let (run, pk, question, found) =
                                current_question g seen.pk input.question_id v is_live ek eq in
                              rw (e, here, known, choice, ← pk)
                                (press-Pressed env g run input at c v (ek ∙ ap some (sym pk))
                                  (rw pk found) known (rw question choice))
                        ]
                ]
          ]
    ]
