-- ===== src/Session/Transition/Stopping.antt =====
-- The commands that end a question or the session, on a valid game.
use umclick.Common.{
  ℕ, ◌≤◌, ◌≡◌, refl, sym, ap, ◌∙◌, subst, inl, inr, leb, true, false, ◌&&◌, some, List, ◌∷◌, length,
  All, All-map, Bool-cases, arith,
}
use umclick.Session.Model.{
  Game, LiveSession, SessionQuestionRun, Env, Status, waiting, live, finished, aborted, Phase,
  answering, delivery, final, is_over, status_is, phase_is, session_aborted,
  answer_delivery_started,
}
use umclick.Session.Save.{run_constraints}
use umclick.Session.Run.Store.{saved, save_session_lem, lock_current_run-head}
use umclick.Session.Transition.{apply_end_question, apply_abort_session, shortened_run}
use umclick.Session.Valid.{IsValid, RunsValid, Placed, Current, Running, Settled}
use umclick.Session.Spec.{at, position, total, Step, deliver, abort_waiting, abort_live, Step-live}
use umclick.Session.Valid.{answering_start}
use umclick.Session.Valid.Finish.{finish_session-ended, ended-IsValid}
use umclick.Session.Valid.Change.{
  Placed-as, Current-head, Follows, update_run-current, RunsValid-change, phase-Allowed,
}
use umclick.Session.Transition.Moved.{Outcome, standing, Timely}

-- The row that `end_question` saves.
abbrev delivering : LiveSession → ℕ → LiveSession
delivering s now = record s { phase = delivery; phase_started_at = some now }

shortened-Follows :
    (r : SessionQuestionRun) (now : ℕ)
    → run_constraints r ≡ true
    → r.answering_started_at ≤ now
    → leb r.planned_answer_deadline_at now ≡ false
    → Follows r (shortened_run r now)
shortened-Follows r now dated after before = record {
  key = refl;
  question = refl;
  ordinal = refl;
  schedule = ground arith;
  dates = ground (arith, dated, before);
}

module _ (g : Game) (r r' : SessionQuestionRun) (rs : List SessionQuestionRun) (v : IsValid g)
    (e : g.runs ≡ r ∷ rs) (is_live : g.session.status ≡ live)
    (current : Current g.session (r ∷ rs) false) (running : Running g.session) (f : Follows r r')
    (same : r'.finalized_at ≡ r.finalized_at) (ends : r'.results_ends_at ≡ r.results_ends_at) where
  Settled-still : (k : ℕ) → Settled (r ∷ rs) k → Settled (r' ∷ rs) k
  Settled-still k h = ground (arith, h, f.key, same)

  -- Changing the open run and going on to the delivery keeps the game valid.
  delivering-IsValid :
      (now : ℕ) → IsValid (saved (record g { runs = r' ∷ rs }) (delivering g.session now))
  delivering-IsValid now =
      let g' = saved (record g { runs = r' ∷ rs }) (delivering g.session now) in
      record {
        linked = v.linked;
        questions = v.questions;
        placed =
            subst (λ s. Placed s delivery g'.session (r' ∷ rs)) (sym is_live)
              (
                (
                  current.0 ∙ ap some (sym f.key),
                  current.1 ∙ ap some (sym f.question),
                  rw same current.2,
                  rw ends current.3,
                ),
                running,
              );
        runs = RunsValid-change g r rs v e r' f;
        people = v.people;
        finals =
            All-map (λ x h. Settled-still x.run_id h) g.finals
              (subst (λ xs. All (λ x. Settled xs x.run_id) g.finals) e v.finals);
        attempts = v.attempts;
      }

end_question-current :
    (env : Env) (g : Game) (now : ℕ) (r : SessionQuestionRun) (rs : List SessionQuestionRun)
    → IsValid g
    → (h : (status_is g.session.status live && phase_is g.session.phase answering) ≡ true)
    → g.runs ≡ r ∷ rs
    → Current g.session (r ∷ rs) false
    → Running g.session
    → r.answering_started_at ≤ now
    → Outcome g (apply_end_question env g now)
unfolding apply_end_question
end_question-current env g now r rs v h e (c, q, fin, ends) running after =
    let (es, ep) = standing g live answering h in
    let locked = lock_current_run-head g r rs e c in
    elim (Bool-cases (leb r.planned_answer_deadline_at now)) [
      | inl late ↦ rw (h, locked, fin, late) refl
      | inr before ↦
          let r' = shortened_run r now in
          let f =
            shortened-Follows r now
              (subst (λ xs. RunsValid g.version g.next_run_pk xs) e v.runs).dated.0 after before in
          let s = delivering g.session now in
          let middle : Game = record g { runs = r' ∷ rs } in
          rw
            (
              h,
              locked,
              fin,
              before,
              update_run-current g r rs v e r' g.finals f fin,
              save_session_lem env middle s (
                  phase-Allowed g r rs v e r' (saved middle s).session g.finals f es running.0 refl
                    refl refl q c),
            )
            (record {
              moved = record {
                valid =
                    delivering-IsValid g r r' rs v e es (c, q, fin, ends) running f refl refl now;
                revision = refl;
                step =
                    subst
                      (λ n.
                        Step (total g) (position g) answer_delivery_started
                          (at g.session.status delivery n))
                      (ap length e) (Step-live g answering es ep deliver);
                version = refl;
                participants = refl;
                attempts = refl;
              };
              commands = refl;
              events = refl;
            })
    ]

end_question-refused :
    (env : Env) (g : Game) (now : ℕ)
    → (status_is g.session.status live && phase_is g.session.phase answering) ≡ false
    → Outcome g (apply_end_question env g now)
unfolding apply_end_question
end_question-refused env g now h = rw h refl

pub end_question-Outcome :
    (env : Env) (g : Game) (now : ℕ)
    → IsValid g
    → Timely g.session.phase_started_at now
    → Outcome g (apply_end_question env g now)
end_question-Outcome env g now v timely =
    elim (Bool-cases (status_is g.session.status live && phase_is g.session.phase answering)) [
      | inl h ↦
          let (es, ep) = standing g live answering h in
          let (current, running, start) = Placed-as g live answering v es ep in
          let (r, rs, e, now_current) = Current-head g.session g.runs false current in
          end_question-current env g now r rs v h e now_current running
            (subst (λ t. Timely t now) (start ∙ ap answering_start e) timely)
      | inr h ↦ end_question-refused env g now h
    ]

abort-Step :
    (s : Status) (p : Phase) (limit n : ℕ)
    → is_over s ≡ false
    → Step limit (at s p n) session_aborted (at aborted final n)
abort-Step waiting p limit n h = abort_waiting
abort-Step live p limit n h = abort_live
abort-Step finished p limit n h = absurd (cc)
abort-Step aborted p limit n h = absurd (cc)

pub abort_session-Outcome :
    (env : Env) (g : Game) (now : ℕ) → IsValid g → Outcome g (apply_abort_session env g now)
unfolding apply_abort_session
abort_session-Outcome env g now v = elim (Bool-cases (is_over g.session.status)) [
  | inl h ↦ rw h refl
  | inr h ↦
      rw (h, finish_session-ended g now v h env true)
        (record {
          moved = record {
            valid = ended-IsValid g now v h true;
            revision = refl;
            step = abort-Step g.session.status g.session.phase (total g) (length g.runs) h;
            version = refl;
            participants = refl;
            attempts = refl;
          };
          commands = refl;
          events = refl;
        })
]
