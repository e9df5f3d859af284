-- ===== src/Session/Answer/Storing.antt =====
-- Storing a new press in a valid game.
use umclick.Common.{
  ℕ, suc, ◌+◌, ◌≤◌, ◌<◌, ◌==◌, ◌≡◌, refl, inl, inr, leb, is_some, Bool, true, false, ◌&&◌, Option,
  none, some, List, [], ◌∷◌, ◌++◌, find, any, All, All-map, All-both, All-append, any-false,
  find-none, count_if, count_if-append, Bool-cases, Option-cases, Result, ok, err, arith, ==_iff,
}
use umclick.Quiz.Model.{Question, Choice, choice_of_question, find_choice}
use umclick.Session.Model.{
  Game, SessionQuestionRun, AnswerAttempt, Error, conflict, validation_error, Env,
  answer_state_changed, find_run,
}
use umclick.Session.Save.{insert_attempt}
use umclick.Session.Save.Laws.{clashes, insert_attempt_lem}
use mathlib.Core.Path.{subst₂}
use umclick.Session.Valid.{IsValid, AttemptValid}
use umclick.Session.Answer.{
  AnswerInput, of_participant, existing_attempt, attempts_count, answer_digest, new_attempt,
  store_attempt,
}

-- What storing a press has done.
pub record Stored (env : Env) (g : Game) (input : AnswerInput) (admitted_at : ℕ) (g' : Game)
    (a : AnswerAttempt) : Type 0 where
  pub valid : IsValid g'
  pub row :
      (run_id : ℕ) × (a ≡ new_attempt env g run_id input admitted_at)
      × (g.session.current_run_id ≡ some run_id)
      × (existing_attempt g run_id input ≡ none)
  pub limited : a.ordinal ≤ 20
  pub added : g'.attempts ≡ g.attempts ++ (a ∷ [])
  pub announced : g'.events ≡ answer_state_changed ∷ g.events
  pub session : g'.session ≡ g.session
  pub version : g'.version ≡ g.version
  pub participants : g'.participants ≡ g.participants
  pub runs : g'.runs ≡ g.runs
  pub finals : g'.finals ≡ g.finals
  pub commands : g'.commands ≡ g.commands

abbrev pub Pressed :
    Env → Game → AnswerInput → ℕ → Result Error (Game × Option AnswerAttempt × Bool) → Type 0
Pressed env g input at (ok (g', some a, false)) = Stored env g input at g' a
Pressed env g input at (ok (g', some a, true)) =
    (g' ≡ g)
    × (run_id : ℕ) × (existing_attempt g run_id input ≡ some a)
    × ((a.payload_digest == answer_digest env input) ≡ true)
Pressed env g input at (ok (g', none, repeated)) =
    (g' ≡ g)
    × (run_id : ℕ) × (g.session.current_run_id ≡ some run_id)
    × (20 ≤ attempts_count g run_id input.participation_id)
Pressed env g input at (err (conflict reason)) = Unit {0}
Pressed env g input at (err validation_error) = Unit {0}
Pressed env g input at (err _) = ⊥

find_choice_of_question :
    (qs : List Question) (q k : ℕ) (c : Choice)
    → choice_of_question qs q k ≡ some c
    → is_some (find_choice qs k) ≡ true
find_choice_of_question [] q k c e = absurd (cc)
find_choice_of_question (x ∷ qs) q k c e = elim (Option-cases (find (λ c. c.pk == k) x.choices)) [
  | inr (d, h) ↦ rw (h, find_choice) refl
  | inl h ↦ elim (Bool-cases (x.pk == q)) [
    | inl here ↦ absurd (cc (rw here at e))
    | inr there ↦ rw (h, find_choice) (find_choice_of_question qs q k c (rw there at e))
  ]
]

same_participant :
    (run_id participant : ℕ) (x : AnswerAttempt)
    → of_participant run_id participant x ≡ true
    → (x.run_id ≡ run_id) × (x.session_participant_id ≡ participant)
same_participant run_id participant x h = ground arith

-- A stored attempt of the same participant has a lower ordinal.
no_clash :
    (env : Env) (g : Game) (run_id : ℕ) (input : AnswerInput) (at : ℕ) (x : AnswerAttempt)
    → x.ordinal ≤ attempts_count g x.run_id x.session_participant_id
    → attempts_count g run_id input.participation_id < 20
    → (of_participant run_id input.participation_id x && x.submission_id == input.submission_id)
      ≡ false
    → clashes (new_attempt env g run_id input at) x ≡ false
no_clash env g run_id input at x low few other =
    elim (Bool-cases (of_participant run_id input.participation_id x)) [
      | inr stranger ↦ ground (arith, stranger)
      | inl same ↦
          let (r, p) = same_participant run_id input.participation_id x same in
          ground (arith, other, same, subst₂ (λ i j. x.ordinal ≤ attempts_count g i j) r p low)
    ]

-- The checks of `save` and of the table pass for a new press of the current run.
insert_attempt-ok :
    (env : Env) (g : Game) (run : SessionQuestionRun) (input : AnswerInput) (at : ℕ) (c : Choice)
    → All (AttemptValid g.version.questions g.attempts) g.attempts
    → find_run run.pk g.runs ≡ some run
    → any (λ p. p.pk == input.participation_id) g.participants ≡ true
    → choice_of_question g.version.questions run.question_id input.choice_id ≡ some c
    → attempts_count g run.pk input.participation_id < 20
    → existing_attempt g run.pk input ≡ none
    → insert_attempt g (new_attempt env g run.pk input at)
      ≡ ok (record g {
        attempts = g.attempts ++ (new_attempt env g run.pk input at ∷ []);
        next_attempt_pk = suc g.next_attempt_pk;
      })
insert_attempt-ok env g run input at c valid found known choice few fresh =
    let a = new_attempt env g run.pk input at in
    insert_attempt_lem g a run c found known choice (ground arith) (
      any-false (clashes a) g.attempts (
        All-both (λ x h k. no_clash env g run.pk input at x h.2 few k) g.attempts valid
          (find-none
            (λ x.
              of_participant run.pk input.participation_id x
              && x.submission_id == input.submission_id)
            g.attempts fresh)))

AttemptValid-grow :
    (qs : List Question) (xs : List AnswerAttempt) (a x : AnswerAttempt)
    → AttemptValid qs xs x
    → AttemptValid qs (xs ++ (a ∷ [])) x
AttemptValid-grow qs xs a x h = (
  h.0,
  h.1,
  omega (arith, count_if-append (of_participant x.run_id x.session_participant_id) xs (a ∷ [])),
)

AttemptValid-new :
    (qs : List Question) (xs : List AnswerAttempt) (a : AnswerAttempt)
    → is_some (find_choice qs a.choice_id) ≡ true
    → a.ordinal ≡ count_if (of_participant a.run_id a.session_participant_id) xs + 1
    → AttemptValid qs (xs ++ (a ∷ [])) a
AttemptValid-new qs xs a h e = (
  h,
  omega arith,
  ground (
    arith,
    count_if-append (of_participant a.run_id a.session_participant_id) xs (a ∷ []),
    (==_iff a.run_id a.run_id).1 refl,
    (==_iff a.session_participant_id a.session_participant_id).1 refl,
    e,
  ),
)

pub store_attempt-Pressed :
    (env : Env) (g : Game) (run : SessionQuestionRun) (input : AnswerInput) (at : ℕ) (c : Choice)
    → IsValid g
    → g.session.current_run_id ≡ some run.pk
    → find_run run.pk g.runs ≡ some run
    → any (λ p. p.pk == input.participation_id) g.participants ≡ true
    → choice_of_question g.version.questions run.question_id input.choice_id ≡ some c
    → existing_attempt g run.pk input ≡ none
    → Pressed env g input at (store_attempt env g run.pk input at)
unfolding store_attempt
store_attempt-Pressed env g run input at c v current found known choice fresh =
    let a = new_attempt env g run.pk input at in
    elim (Bool-cases (leb 20 (attempts_count g run.pk input.participation_id))) [
      | inl full ↦ rw full (refl, run.pk, current, ground arith)
      | inr few ↦
          rw
            (
              few,
              insert_attempt-ok env g run input at c v.attempts found known choice (ground arith)
                  fresh,
            )
            (record {
              valid = record {
                linked = v.linked;
                questions = v.questions;
                placed = v.placed;
                runs = v.runs;
                people = v.people;
                finals = v.finals;
                attempts =
                    All-append (AttemptValid g.version.questions (g.attempts ++ (a ∷ [])))
                      g.attempts (a ∷ [])
                      (All-map (AttemptValid-grow g.version.questions g.attempts a) g.attempts
                        v.attempts)
                      (
                        AttemptValid-new g.version.questions g.attempts a
                            (find_choice_of_question g.version.questions run.question_id
                              input.choice_id c choice)
                            refl,
                        tt,
                      );
              };
              row = (run.pk, refl, current, fresh);
              limited = ground arith;
              added = refl;
              announced = refl;
              session = refl;
              version = refl;
              participants = refl;
              runs = refl;
              finals = refl;
              commands = refl;
            })
    ]
