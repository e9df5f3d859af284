-- ===== src/Session/Transition/Opening.antt =====
-- The commands that start the session and open a question, on a valid game.
use umclick.Common.{
  ℕ, ◌+◌, ◌≡◌, refl, sym, ap, ◌∙◌, subst, inl, inr, true, ◌&&◌, some, List, [], ◌∷◌, suc, length,
  Bool-cases, Option-cases, arith,
}
use umclick.Quiz.Model.{Question, ordered_questions}
use umclick.Session.Model.{
  Game, LiveSession, SessionQuestionRun, Env, waiting, live, lobby, results, status_is, phase_is,
  session_started, question_reading_started, reading,
}
use umclick.Session.Run.{next_question_of, start_question}
use umclick.Session.Run.Store.{
  Allowed, saved, save_session_lem, change_refused-open, lock_current_run-head,
}
use umclick.Session.Transition.{apply_start_session, apply_start_quiz, apply_next_question}
use umclick.Session.Valid.{IsValid, Placed, Idle, Running}
use umclick.Session.Spec.{at, position, total, Step, begin, first, next, Step-from, Step-live}
use umclick.Session.Valid.Progress.{following, following-lt}
use umclick.Session.Valid.Open.{start_question-opened, opened-IsValid}
use umclick.Session.Valid.Change.{Placed-as, Current-head}
use umclick.Session.Transition.Moved.{Advanced, Outcome, standing}

-- The row that `start_session` saves.
abbrev started : LiveSession → ℕ → LiveSession
started s now = record s { status = live; started_at = some now }

start_session-saved :
    (env : Env) (g : Game) (now : ℕ)
    → IsValid g
    → g.session.status ≡ waiting
    → g.session.phase ≡ lobby
    → Advanced g session_started (saved g (started g.session now))
      × ((status_is g.session.status waiting && phase_is g.session.phase lobby) ≡ true)
      × Allowed g (record (started g.session now) { state_revision = g.session.state_revision + 1 })
start_session-saved env g now v es ep =
    let ((q, c), empty, fresh, unfinished) = Placed-as g waiting lobby v es ep in
    (
      record {
        moved = record {
          valid = record {
            linked = v.linked;
            questions = v.questions;
            placed =
                subst (λ p. Placed live p (saved g (started g.session now)).session g.runs) (sym ep)
                  ((q, c), empty, (refl, unfinished));
            runs = v.runs;
            people = v.people;
            finals = v.finals;
            attempts = v.attempts;
          };
          revision = refl;
          step = Step-from g waiting lobby es ep (
              subst
                (λ p.
                  Step (total g) (at waiting lobby (length g.runs)) session_started
                    (at live p (length g.runs)))
                (sym ep) begin);
          version = refl;
          participants = refl;
          attempts = refl;
        };
        commands = refl;
        events = refl;
      },
      ground (arith, es, ep),
      record {
        belongs = rw q;
        matches = rw c;
        changed =
            change_refused-open g.session
              (record (started g.session now) { state_revision = g.session.state_revision + 1 })
              (ground (arith, es)) refl (ground (arith, es)) (inl (rw fresh));
        started = inr refl;
        ended = inl refl;
      },
    )

pub start_session-Outcome :
    (env : Env) (g : Game) (now : ℕ) → IsValid g → Outcome g (apply_start_session env g now)
unfolding apply_start_session
start_session-Outcome env g now v =
    elim (Bool-cases (status_is g.session.status waiting && phase_is g.session.phase lobby)) [
      | inl h ↦
          let (es, ep) = standing g waiting lobby h in
          let (done, _, allowed) = start_session-saved env g now v es ep in
          rw (h, save_session_lem env g (started g.session now) allowed) done
      | inr h ↦ rw h refl
    ]

-- `_next_question` looks behind the newest run.
next_question_of-Idle :
    (g : Game)
    → Idle g.session
    → g.runs ≡ []
    → next_question_of g ≡ following (ordered_questions g.version) g.runs
unfolding next_question_of
next_question_of-Idle g (q, c) e = rw (q, e)

pub next_question_of-current :
    (g : Game) (r : SessionQuestionRun) (rs : List SessionQuestionRun)
    → g.session.current_question_id ≡ some r.question_id
    → g.runs ≡ r ∷ rs
    → next_question_of g ≡ following (ordered_questions g.version) g.runs
unfolding next_question_of
next_question_of-current g r rs q e = rw (q, e)

pub start_question-Outcome :
    (env : Env) (g : Game) (q : Question) (now : ℕ)
    → IsValid g
    → g.session.status ≡ live
    → Running g.session
    → (next : following (ordered_questions g.version) g.runs ≡ some q)
    → Step
        (total g)
        (position g)
        question_reading_started
        (at g.session.status reading (suc (length g.runs)))
    → Outcome g (start_question env g q now)
start_question-Outcome env g q now v is_live running found step =
    rw (start_question-opened g q now v is_live running found env) (record {
      moved = record {
        valid = opened-IsValid g q now v is_live running found;
        revision = refl;
        step = step;
        version = refl;
        participants = refl;
        attempts = refl;
      };
      commands = refl;
      events = refl;
    })

pub start_quiz-Outcome :
    (env : Env) (g : Game) (now : ℕ) → IsValid g → Outcome g (apply_start_quiz env g now)
unfolding apply_start_quiz
start_quiz-Outcome env g now v =
    elim (Bool-cases (status_is g.session.status live && phase_is g.session.phase lobby)) [
      | inl h ↦ elim (Option-cases (next_question_of g)) [
        | inl e ↦ rw (h, e) refl
        | inr (q, e) ↦
            let (es, ep) = standing g live lobby h in
            let (idle, empty, running) = Placed-as g live lobby v es ep in
            let following_q = sym (next_question_of-Idle g idle empty) ∙ e in
            rw (h, e)
              (start_question-Outcome env g q now v es running following_q (
                Step-live g lobby es ep (
                  first (ap length empty) (
                    omega (
                      arith,
                      following-lt g.version g.runs q v.questions v.runs.played following_q,
                    )))))
      ]
      | inr h ↦ rw h refl
    ]

pub next_question-Outcome :
    (env : Env) (g : Game) (now : ℕ) → IsValid g → Outcome g (apply_next_question env g now)
unfolding apply_next_question
next_question-Outcome env g now v =
    elim (Bool-cases (status_is g.session.status live && phase_is g.session.phase results)) [
      | inl h ↦
          let (es, ep) = standing g live results h in
          let (current, running) = Placed-as g live results v es ep in
          let (r, rs, e, (c, q, fin, ends)) = Current-head g.session g.runs true current in
          let locked = lock_current_run-head g r rs e c in
          elim (Option-cases (next_question_of g)) [
            | inl none_left ↦ rw (h, locked, fin, none_left) refl
            | inr (question, found) ↦
                let following_q = sym (next_question_of-current g r rs q e) ∙ found in
                rw (h, locked, fin, found)
                  (start_question-Outcome env g question now v es running following_q (
                    Step-live g results es ep (
                      next (
                        following-lt g.version g.runs question v.questions v.runs.played
                          following_q))))
          ]
      | inr h ↦ rw h refl
    ]
