-- ===== src/Session/Advance/Fires.antt =====
-- What the timer does under the lock, phase by phase: each branch that is due takes a step.
use umclick.Common.{
  ℕ, ◌+◌, ◌≡◌, refl, sym, ap, ◌∙◌, subst, inl, inr, leb, ltb, true, false, Option, none, some, List,
  ◌∷◌, length, Option-cases, Result, ok, err, ◌>>=◌, arith,
}
use umclick.Quiz.Model.{Question}
use umclick.Session.Model.{
  Game, LiveSession, SessionQuestionRun, Error, Env, Event, question_results_opened,
  question_answering_started, answer_delivery_started, question_reading_started, live, reading,
  answering, delivery, results, auto_next_question,
}
use umclick.Session.Save.{run_constraints}
use umclick.Session.Run.{next_question_of, save_session, finalize_locked, start_question}
use umclick.Session.Run.Store.{Allowed, saved, save_session_lem}
use umclick.Session.Spec.{
  Step, at, position, total, answer, deliver, next, finish, Step-from, Step-live,
}
use umclick.Session.Transition.Moved.{Outcome, Advanced}
use umclick.Session.Transition.Opening.{start_question-Outcome, next_question_of-current}
use umclick.Session.Valid.{IsValid, RunsValid, Placed, Current, Running}
use umclick.Session.Valid.Progress.{following-lt, following-all}
use umclick.Session.Valid.Open.{opened, start_question-opened}
use umclick.Session.Valid.Change.{Follows, phase-Allowed}
use umclick.Session.Valid.Close.{close_run-closed, closed-IsValid}
use umclick.Session.Valid.Finish.{finish_session-ended, ended-IsValid}
use umclick.Session.Advance.{Fired, fire_finalize, fire_answering, fire_delivery, fire_results}

-- A step that is due is taken.
abbrev pub Fires : Game → Result Error (Game × Option Fired) → Type 0
Fires g (ok (g', some fired)) = Advanced g fired.event g'
Fires g (ok (g', none)) = ⊥
Fires g (err e) = ⊥

same-Follows : (r : SessionQuestionRun) → run_constraints r ≡ true → Follows r r
same-Follows r dated = record {
  key = refl;
  question = refl;
  ordinal = refl;
  schedule = ground arith;
  dates = dated;
}

module _ (env : Env) (g : Game) (r : SessionQuestionRun) (rs : List SessionQuestionRun)
    (v : IsValid g) (e : g.runs ≡ r ∷ rs) (is_live : g.session.status ≡ live)
    (running : Running g.session) (now : ℕ) where
  dated : run_constraints r ≡ true
  dated = (subst (λ xs. RunsValid g.version g.next_run_pk xs) e v.runs).dated.0

  pub fire_finalize-Fires :
      Current g.session (r ∷ rs) false
      → ltb r.delivery_deadline_at now ≡ true
      → Step
          (total g)
          (position g)
          question_results_opened
          (at g.session.status results (length g.runs))
      → Fires g (fire_finalize env g r now)
  unfolding fire_finalize finalize_locked
  fire_finalize-Fires current late step =
      let on_time : leb now r.delivery_deadline_at ≡ false = ground (arith, late) in
      rw (current.2, on_time, close_run-closed g r rs v e is_live running current now env)
        (record {
          moved = record {
            valid = closed-IsValid g r rs v e is_live running current now env;
            revision = refl;
            step =
                subst
                  (λ n.
                    Step (total g) (position g) question_results_opened
                      (at g.session.status results n))
                  (ap length e) step;
            version = refl;
            participants = refl;
            attempts = refl;
          };
          commands = refl;
          events = refl;
        })

  -- A change of phase that keeps the current run.
  phase_saved :
      (s : LiveSession)
      → s.origin ≡ g.session.origin
      → s.status ≡ g.session.status
      → s.started_at ≡ g.session.started_at
      → s.current_question_id ≡ some r.question_id
      → s.current_run_id ≡ some r.pk
      → save_session env g s ≡ ok (saved g s)
  phase_saved s origin status started question run = save_session_lem env g s (
      subst (λ xs. Allowed (record g { runs = xs }) (saved g s).session) (sym e)
        (phase-Allowed g r rs v e r (saved g s).session g.finals (same-Follows r dated) is_live
          running.0 origin status started question run))

  phase_Advanced :
      (s : LiveSession) (event : Event)
      → s.state_revision ≡ g.session.state_revision
      → s.quiz_version_id ≡ g.session.quiz_version_id
      → Placed s.status s.phase (saved g s).session (r ∷ rs)
      → Step (total g) (position g) event (at s.status s.phase (length g.runs))
      → Advanced g event (saved g s)
  phase_Advanced s event revision origin placed step = record {
    moved = record {
      valid = record {
        linked = v.linked ∙ sym origin;
        questions = v.questions;
        placed = subst (λ xs. Placed s.status s.phase (saved g s).session xs) (sym e) placed;
        runs = v.runs;
        people = v.people;
        finals = v.finals;
        attempts = v.attempts;
      };
      revision = ap (λ (n : ℕ). n + 1) revision;
      step = step;
      version = refl;
      participants = refl;
      attempts = refl;
    };
    commands = refl;
    events = refl;
  }

  pub fire_answering-Fires :
      g.session.phase ≡ reading
      → Current g.session (r ∷ rs) false
      → Fires g (fire_answering env g r)
  unfolding fire_answering
  fire_answering-Fires ep current =
      let s : LiveSession = record (g.session) {
        phase = answering;
        phase_started_at = some r.answering_started_at;
        question_started_at = some r.answering_started_at;
      } in
      rw (phase_saved s refl refl refl current.1 current.0) (
        phase_Advanced s question_answering_started refl refl
          (subst (λ x. Placed x answering (saved g s).session (r ∷ rs)) (sym is_live)
            (current, running, refl))
          (Step-live g reading is_live ep answer))

  pub fire_delivery-Fires :
      g.session.phase ≡ answering
      → Current g.session (r ∷ rs) false
      → Fires g (fire_delivery env g r)
  unfolding fire_delivery
  fire_delivery-Fires ep current =
      let s : LiveSession = record (g.session) {
        phase = delivery;
        phase_started_at = some r.answer_deadline_at;
      } in
      rw (phase_saved s refl refl refl current.1 current.0) (
        phase_Advanced s answer_delivery_started refl refl
          (subst (λ x. Placed x delivery (saved g s).session (r ∷ rs)) (sym is_live)
            (current, running))
          (Step-live g answering is_live ep deliver))

  next-Fires :
      (ends : ℕ) (question : Question) (x : Result Error (Game × Event))
      → Outcome g x
      → (y : Game) → x ≡ ok (y, question_reading_started)
      → Fires g (
          x >>= λ p.
          ok (p.0, some (record { kind = auto_next_question; boundary = ends; event = p.1 })))
  next-Fires ends question x h y e =
      subst
        (λ z. Fires g (
          z >>= λ p.
          ok (p.0, some (record { kind = auto_next_question; boundary = ends; event = p.1 }))))
        (sym e) (subst (Outcome g) e h)

  pub fire_results-Fires :
      (ends : ℕ)
      → g.session.phase ≡ results
      → Current g.session (r ∷ rs) true
      → Fires g (fire_results env g ends now)
  unfolding fire_results
  fire_results-Fires ends ep current =
      let found = next_question_of-current g r rs current.1 e in
      elim (Option-cases (next_question_of g)) [
        | inl none_left ↦
            rw
              (
                none_left,
                fire_results,
                finish_session-ended g now v (ground (arith, is_live)) env false,
              )
              (record {
                moved = record {
                  valid = ended-IsValid g now v (ground (arith, is_live)) false;
                  revision = refl;
                  step = Step-from g live results is_live ep (
                      finish (
                        following-all g.version g.runs v.questions v.runs.played
                          (sym found ∙ none_left)));
                  version = refl;
                  participants = refl;
                  attempts = refl;
                };
                commands = refl;
                events = refl;
              })
        | inr (question, some_left) ↦
            let left = sym found ∙ some_left in
            let opens = start_question-opened g question now v is_live running left env in
            rw (some_left, fire_results)
              (next-Fires ends question (start_question env g question now)
                (start_question-Outcome env g question now v is_live running left (
                  Step-live g results is_live ep
                    (next (following-lt g.version g.runs question v.questions v.runs.played left))))
                (opened g question now) opens)
      ]
