-- ===== src/Session/Valid/Finish.antt =====
-- Closing a session keeps a game valid and cannot fail while it is open.
use umclick.Common.{
  ℕ, ◌≡◌, refl, ◌⊎◌, inl, inr, if◌then◌else◌, Bool, true, false, Option, none, some, List, ◌∷◌, ok,
  arith,
}
use umclick.Session.Model.{
  Game, LiveSession, SessionQuestionRun, Env, Status, Phase, waiting, live, finished, aborted,
  lobby, reading, answering, delivery, results, final, is_over, session_aborted, session_finished,
}
use umclick.Session.Run.{finish_session, lock_current_run}
use umclick.Session.Run.Store.{
  Allowed, saved, save_session_lem, change_refused-open, lock_current_run-head,
  lock_current_run-none,
}
use umclick.Session.Valid.{IsValid, Placed, Current}
use umclick.Session.Valid.Change.{Current-head}

-- There is a current run, which is the newest, or none.
abbrev pub Located : LiveSession → List SessionQuestionRun → Type 0
Located s runs =
    (s.current_run_id ≡ none)
    ⊎ ((r : SessionQuestionRun) × (rs : List SessionQuestionRun) × (runs ≡ r ∷ rs)
        × (s.current_run_id ≡ some r.pk))

head-Located :
    (s : LiveSession) (runs : List SessionQuestionRun) (closed : Bool)
    → Current s runs closed
    → Located s runs
head-Located s runs closed h =
    let (r, rs, e, (c, _, _, _)) = Current-head s runs closed h in inr (r, rs, e, c)

Placed-Located :
    (status : Status) (phase : Phase) (s : LiveSession) (runs : List SessionQuestionRun)
    → Placed status phase s runs
    → Located s runs
Placed-Located waiting lobby s runs h = inl h.0.1
Placed-Located live lobby s runs h = inl h.0.1
Placed-Located live reading s runs h = head-Located s runs false h.0
Placed-Located live answering s runs h = head-Located s runs false h.0
Placed-Located live delivery s runs h = head-Located s runs false h.0
Placed-Located live results s runs h = head-Located s runs true h.0
Placed-Located finished final s runs h = inl h.0.1
Placed-Located aborted final s runs h = inl h.0.1
Placed-Located _ _ s runs h = elim h [ ]

pub located : (g : Game) → IsValid g → Located g.session g.runs
located g v = Placed-Located g.session.status g.session.phase g.session g.runs v.placed

pub lock_current_run-ok :
    (g : Game)
    → Located g.session g.runs
    → (o : Option SessionQuestionRun) × (lock_current_run g ≡ ok o)
lock_current_run-ok g (inl e) = (none, lock_current_run-none g e)
lock_current_run-ok g (inr (r, rs, e, c)) = (some r, lock_current_run-head g r rs e c)

abbrev pub over : LiveSession → ℕ → Bool → LiveSession
over s now stopped = record s {
  status = if stopped then aborted else finished;
  phase = final;
  current_question_id = none;
  current_run_id = none;
  revealed_question_id = none;
  phase_started_at = some now;
  question_started_at = none;
  finished_at = some now;
}

-- The game after `_finish_session`.
abbrev pub ended : Game → ℕ → Bool → Game
ended g now stopped = saved g (over g.session now stopped)

module _ (g : Game) (now : ℕ) (v : IsValid g) (open_yet : is_over g.session.status ≡ false) where
  over-Allowed : (stopped : Bool) → Allowed g (ended g now stopped).session
  over-Allowed true = record {
    belongs = refl;
    matches = refl;
    changed =
        change_refused-open g.session (ended g now true).session open_yet refl (ground arith)
          (inr refl);
    started = inl refl;
    ended = inr refl;
  }
  over-Allowed false = record {
    belongs = refl;
    matches = refl;
    changed =
        change_refused-open g.session (ended g now false).session open_yet refl (ground arith)
          (inr refl);
    started = inl refl;
    ended = inr refl;
  }

  pub finish_session-ended :
      (env : Env) (stopped : Bool)
      → finish_session env g now stopped
        ≡ ok (ended g now stopped, if stopped then session_aborted else session_finished)
  unfolding finish_session
  finish_session-ended env stopped =
      let (o, locked) = lock_current_run-ok g (located g v) in
      rw locked (rw (save_session_lem env g (over g.session now stopped) (over-Allowed stopped)))

  ended-Placed :
      (stopped : Bool)
      → Placed (if stopped then aborted else finished) final (ended g now stopped).session g.runs
  ended-Placed true = ((refl, refl), refl)
  ended-Placed false = ((refl, refl), refl)

  pub ended-IsValid : (stopped : Bool) → IsValid (ended g now stopped)
  ended-IsValid stopped = record {
    linked = v.linked;
    questions = v.questions;
    placed = ended-Placed stopped;
    runs = v.runs;
    people = v.people;
    finals = v.finals;
    attempts = v.attempts;
  }
