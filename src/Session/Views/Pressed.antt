-- ===== src/Session/Views/Pressed.antt =====
-- A press, and what its participant is shown afterwards.
use umclick.Common.{
  ℕ, zero, suc, ◌+◌, ◌≤◌, ◌==◌, ◌≡◌, refl, sym, ap, ◌∙◌, Bool, true, false, Option, none, some,
  List, [], ◌∷◌, ◌++◌, length, length-append, length-order_by, keep, keep-append, find-test,
  eq_same, subst, ok, order_by, insert_by, All, All-map, ◌<◌, Bool-cases, inl, inr, arith,
}
use umclick.Session.Model.{Game, SessionQuestionRun, AnswerAttempt, Env, find_run}
use umclick.Session.Run.{current_run}
use umclick.Session.Answer.{AnswerInput, of_participant, new_attempt, record_answer_attempt}
use umclick.Session.Answer.Storing.{Stored, Pressed}
use umclick.Session.Answer.Outcomes.{record_answer_attempt-Pressed}
use umclick.Session.Valid.{IsValid}
use umclick.Session.Views.Questions.{Outlook}
use umclick.Session.Views.Participant.{
  admitted_before, first_entries, last_entry, materialize_participant_attempts,
  participant_answer_state, build_participant_session_state,
}

module _ {ℓ} {A : Type ℓ} where
  insert_by-last :
      (le : A → A → Bool) (x a : A) (ys : List A)
      → le x a ≡ true
      → insert_by le x (ys ++ a ∷ []) ≡ insert_by le x ys ++ a ∷ []
  insert_by-last le x a [] h = rw h refl
  insert_by-last le x a (y ∷ ys) h = elim (Bool-cases (le x y)) [
    | inl e ↦ rw e refl
    | inr e ↦ rw e (ap (λ zs. y ∷ zs) (insert_by-last le x a ys h))
  ]

  -- An entry that comes after all others is the last one.
  order_by-last :
      (le : A → A → Bool) (a : A) (xs : List A)
      → All (λ x. le x a ≡ true) xs
      → order_by le (xs ++ a ∷ []) ≡ order_by le xs ++ a ∷ []
  order_by-last le a [] h = refl
  order_by-last le a (x ∷ xs) h =
      ap (insert_by le x) (order_by-last le a xs h.1) ∙ insert_by-last le x a (order_by le xs) h.0

  first_entries-all : (n : ℕ) (xs : List A) → length xs ≤ n → first_entries n xs ≡ xs
  first_entries-all zero [] h = refl
  first_entries-all zero (x ∷ xs) h = absurd (omega (arith, h))
  first_entries-all (suc n) [] h = refl
  first_entries-all (suc n) (x ∷ xs) h =
      ap (λ zs. x ∷ zs) (first_entries-all n xs (omega (arith, h)))

  last_entry-append : (xs : List A) (a : A) → last_entry (xs ++ a ∷ []) ≡ some a
  last_entry-append [] a = refl
  last_entry-append (x ∷ []) a = refl
  last_entry-append (x ∷ y ∷ ys) a = last_entry-append (y ∷ ys) a

-- What the participant has pressed in this run.
abbrev pub own_attempts : Game → ℕ → ℕ → List AnswerAttempt
own_attempts g run_id participation_id = keep (of_participant run_id participation_id) g.attempts

-- The presses of a participant when one more has been stored.
own_attempts-added :
    (g g' : Game) (a : AnswerAttempt)
    → g'.attempts ≡ g.attempts ++ a ∷ []
    → own_attempts g' a.run_id a.session_participant_id
      ≡ own_attempts g a.run_id a.session_participant_id ++ a ∷ []
own_attempts-added g g' a e =
    ap (keep (of_participant a.run_id a.session_participant_id)) e
    ∙ keep-append (of_participant a.run_id a.session_participant_id) g.attempts (a ∷ [])
    ∙ rw
        (
          eq_same a.run_id a.run_id refl,
          eq_same a.session_participant_id a.session_participant_id refl,
        )
        refl

materialize-added :
    (g g' : Game) (a : AnswerAttempt)
    → g'.attempts ≡ g.attempts ++ a ∷ []
    → length (own_attempts g a.run_id a.session_participant_id) + 1 ≤ 20
    → All (λ x. admitted_before x a ≡ true) (own_attempts g a.run_id a.session_participant_id)
    → last_entry (materialize_participant_attempts g' a.run_id a.session_participant_id) ≡ some a
unfolding materialize_participant_attempts
materialize-added g g' a e few late =
    let own = own_attempts g a.run_id a.session_participant_id in
    ap (λ xs. last_entry (first_entries 20 (order_by admitted_before xs)))
      (own_attempts-added g g' a e)
    ∙ ap (λ xs. last_entry (first_entries 20 xs)) (order_by-last admitted_before a own late)
    ∙ ap last_entry (first_entries-all 20 (order_by admitted_before own ++ a ∷ []) (fits own few))
    ∙ last_entry-append (order_by admitted_before own) a
  where
    fits :
        (own : List AnswerAttempt)
        → length own + 1 ≤ 20
        → length (order_by admitted_before own ++ a ∷ []) ≤ 20
    fits own few = omega (
      arith,
      few,
      length-append (order_by admitted_before own) (a ∷ []),
      length-order_by admitted_before own,
    )

run_at : List SessionQuestionRun → Option ℕ → Option SessionQuestionRun
run_at runs k = elim k [ none ↦ none | some k ↦ find_run k runs ]

-- The attempts so far came no later, and have smaller keys.
abbrev pub CameBefore : ℕ → ℕ → AnswerAttempt → Type 0
CameBefore at pk x = (x.admitted_at ≤ at) × (x.pk < pk)

CameBefore-admitted_before :
    (x a : AnswerAttempt) → CameBefore a.admitted_at a.pk x → admitted_before x a ≡ true
CameBefore-admitted_before x a h = ground (arith, h.0, h.1)

module _ (env : Env) (g g' : Game) (input : AnswerInput) (at : ℕ) (a : AnswerAttempt)
    (run : SessionQuestionRun) where
  current_run-stored :
      Stored env g input at g' a → current_run g ≡ some run → current_run g' ≡ some run
  unfolding run_at
  current_run-stored st e =
      ap (λ s. run_at g'.runs s.current_run_id) st.session
      ∙ ap (λ runs. run_at runs g.session.current_run_id) st.runs
      ∙ e

  -- The run that the press was stored for is the current one.
  attempt-stored :
      Stored env g input at g' a → current_run g ≡ some run → a ≡ new_attempt env g run.pk input at
  unfolding run_at
  attempt-stored st e =
      let (run_id, is_a, here, fresh) = st.row in
      is_a ∙ ap (λ k. new_attempt env g k input at) (sym (same run_id here))
    where
      equal : (n m : ℕ) → (n == m) ≡ true → n ≡ m
      equal n m h = ground (arith, h)

      same : (run_id : ℕ) → g.session.current_run_id ≡ some run_id → run.pk ≡ run_id
      same run_id here = equal run.pk run_id (
          find-test (λ (r : SessionQuestionRun). r.pk == run_id) g.runs run
            (ap (run_at g.runs) (sym here) ∙ e))

  answer_state-stored :
      Stored env g input at g' a
      → current_run g ≡ some run
      → run.finalized_at ≡ none
      → All (CameBefore at g.next_attempt_pk) (own_attempts g run.pk input.participation_id)
      → ((participant_answer_state g' (some input.participation_id)).has_answer ≡ true)
        × ((participant_answer_state g' (some input.participation_id)).selected_choice_id
            ≡ some input.choice_id)
  answer_state-stored st e unfinished early =
      let n = new_attempt env g run.pk input at in
      let is_n = attempt-stored st e in
      let latest =
        materialize-added g g' n (st.added ∙ ap (λ x. g.attempts ++ x ∷ []) is_n)
          (subst (λ x. x.ordinal ≤ 20) is_n st.limited)
          (All-map (λ x h. CameBefore-admitted_before x n h)
            (own_attempts g run.pk input.participation_id) early) in
      rw (current_run-stored st e, unfinished, latest) (refl, refl)

-- On a valid game whose current question is not finalized, a press that is stored, no earlier than
-- the presses of its participant in this run, whose keys are smaller, is what the snapshot of the
-- game after it shows its participant: an answer, with the choice that was pressed.
pub record_answer_attempt-shown :
    (o : Outlook) (env : Env) (trusted g g' : Game) (input : AnswerInput) (at : ℕ)
    (a : AnswerAttempt) (run : SessionQuestionRun)
    → IsValid g
    → record_answer_attempt env trusted g input at ≡ ok (g', some a, false)
    → current_run g ≡ some run
    → run.finalized_at ≡ none
    → All (CameBefore at g.next_attempt_pk) (own_attempts g run.pk input.participation_id)
    → (let state = build_participant_session_state o g' (some input.participation_id) in
        (state.answer.has_answer ≡ true) × (state.answer.selected_choice_id ≡ some input.choice_id))
unfolding build_participant_session_state
record_answer_attempt-shown o env trusted g g' input at a run valid e now unfinished early =
    answer_state-stored env g g' input at a run
      (subst (Pressed env g input at) e
        (record_answer_attempt-Pressed env trusted g input at valid))
      now unfinished early
