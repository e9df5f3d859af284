-- ===== src/Session/Valid/Open.antt =====
-- Opening the run of the next question keeps a game valid and cannot fail.
use umclick.Common.{
  ℕ, suc, ◌+◌, ◌<◌, ◌==◌, ◌||◌, ◌≡◌, ◌≢◌, refl, sym, inl, inr, true, false, none, some, List, [],
  ◌∷◌, length, any, All, All-both, All-map, any-false, ok, arith, subst,
}
use umclick.Quiz.Model.{Question, ordered_questions}
use umclick.Session.Model.{
  Game, LiveSession, SessionQuestionRun, Env, question_reading_started, live, reading,
}
use umclick.Session.Save.{question_belongs, run_constraints}
use umclick.Session.Save.Laws.{insert_run_lem}
use umclick.Session.Run.{planned_run, start_question}
use umclick.Session.Run.Store.{Allowed, saved, save_session_lem, change_refused-open}
use umclick.Session.Valid.{IsValid, Placed, Running, Numbered}
use umclick.Session.Valid.Progress.{
  Distinct, following, Played-next, following-own, order_by-Distinct,
}

Numbered-fresh :
    (n : ℕ) (runs : List SessionQuestionRun)
    → length runs < n
    → Numbered runs
    → All (λ r. r.ordinal ≢ n) runs
Numbered-fresh n [] h k = tt
Numbered-fresh n (r ∷ rs) h k = (omega arith, Numbered-fresh n rs (omega arith) k.1)

ordered-Distinct : (g : Game) → IsValid g → Distinct (ordered_questions g.version)
unfolding ordered_questions
ordered-Distinct g v = order_by-Distinct g.version.questions v.questions

planned_run-dated :
    (g : Game) (q : Question) (now : ℕ) → run_constraints (planned_run g q now) ≡ true
planned_run-dated g q now = ground arith

abbrev pub with_run : Game → SessionQuestionRun → Game
with_run g r = record g { runs = r ∷ g.runs; next_run_pk = suc g.next_run_pk }

abbrev pub reading_session : LiveSession → SessionQuestionRun → ℕ → LiveSession
reading_session s run now = record s {
  current_question_id = some run.question_id;
  current_run_id = some run.pk;
  revealed_question_id = none;
  phase = reading;
  phase_started_at = some now;
  question_started_at = some run.answering_started_at;
}

-- The game after `_start_question`.
abbrev pub opened : Game → Question → ℕ → Game
opened g q now =
    saved (with_run g (planned_run g q now)) (reading_session g.session (planned_run g q now) now)

module _ (g : Game) (q : Question) (now : ℕ) (v : IsValid g) (is_live : g.session.status ≡ live)
    (running : Running g.session)
    (next : following (ordered_questions g.version) g.runs ≡ some q) where
  question_known : question_belongs g.version g.session.quiz_version_id (some q.pk) ≡ true
  question_known =
      ground (arith, v.linked, following-own g.version g.runs q v.questions v.runs.played next)

  question_new : any (λ x. x.question_id == q.pk || x.ordinal == length g.runs + 1) g.runs ≡ false
  question_new =
      any-false (λ x. x.question_id == q.pk || x.ordinal == length g.runs + 1) g.runs
        (All-both (λ x h k. ground arith) g.runs
          (Played-next (ordered_questions g.version) g.runs q (ordered-Distinct g v) v.runs.played
            next).0
          (Numbered-fresh (length g.runs + 1) g.runs (omega arith) v.runs.numbered))

  open-Allowed :
      Allowed
        (with_run g (planned_run g q now))
        (record (reading_session g.session (planned_run g q now) now) {
          state_revision = g.session.state_revision + 1;
        })
  open-Allowed = record {
    belongs = question_known;
    matches = ground arith;
    changed =
        change_refused-open g.session
          (record (reading_session g.session (planned_run g q now) now) {
            state_revision = g.session.state_revision + 1;
          })
          (ground (arith, is_live)) refl (ground (arith, is_live)) (inr refl);
    started = inr running.0;
    ended = inl (ground (arith, is_live));
  }

  pub start_question-opened :
      (env : Env) → start_question env g q now ≡ ok (opened g q now, question_reading_started)
  unfolding start_question
  start_question-opened env =
      rw
        (insert_run_lem g (planned_run g q now) question_known question_new
          (planned_run-dated g q now))
        (rw (
          save_session_lem env (with_run g (planned_run g q now))
            (reading_session g.session (planned_run g q now) now) open-Allowed))

  pub opened-IsValid : IsValid (opened g q now)
  opened-IsValid = record {
    linked = v.linked;
    questions = v.questions;
    placed =
        subst (λ s. Placed s reading (opened g q now).session (opened g q now).runs) (sym is_live)
          ((refl, refl, refl, refl), running);
    runs = record {
      below = (omega arith, v.runs.below);
      numbered = (refl, v.runs.numbered);
      played =
          (Played-next (ordered_questions g.version) g.runs q (ordered-Distinct g v) v.runs.played
              next).1
            (planned_run g q now) refl;
      dated = (planned_run-dated g q now, v.runs.dated);
    };
    people = v.people;
    finals = All-map (λ f h. ground (arith, h)) g.finals v.finals;
    attempts = v.attempts;
  }
