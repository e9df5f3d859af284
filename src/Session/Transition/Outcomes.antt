-- ===== src/Session/Transition/Outcomes.antt =====
-- What each command of the host can do to a valid game: it is refused with a snapshot of the stored
-- state, or it leaves a valid game one revision further. No guard of `save` and no database
-- constraint can stop it.
use umclick.Common.{ℕ, refl}
use umclick.Session.Model.{
  Game, CommandKind, start_session, start_quiz, end_question, next_question, abort_session, Env,
}
use umclick.Session.Transition.{apply_transition}
use umclick.Session.Valid.{IsValid}
use umclick.Session.Transition.Moved.{Outcome, Timely}
use umclick.Session.Transition.Opening.{
  start_session-Outcome, start_quiz-Outcome, next_question-Outcome,
}
use umclick.Session.Transition.Stopping.{end_question-Outcome, abort_session-Outcome}

-- On a valid game, and with a database clock that has not gone back behind the start of the phase,
-- `_apply_transition` either refuses a command with a `StateConflict` that carries a snapshot of the
-- stored game, or takes one step of the abstract machine to a valid game of the same version, whose
-- revision is one higher. No guard of `save`, no database
-- constraint and no missing row stops it.
pub apply_transition-Outcome :
    (env : Env) (g : Game) (kind : CommandKind) (now : ℕ)
    → IsValid g
    → Timely g.session.phase_started_at now
    → Outcome g (apply_transition env g kind now)
unfolding apply_transition
apply_transition-Outcome env g start_session now v t = start_session-Outcome env g now v
apply_transition-Outcome env g start_quiz now v t = start_quiz-Outcome env g now v
apply_transition-Outcome env g end_question now v t = end_question-Outcome env g now v t
apply_transition-Outcome env g next_question now v t = next_question-Outcome env g now v
apply_transition-Outcome env g abort_session now v t = abort_session-Outcome env g now v
apply_transition-Outcome env g _ now v t = refl
