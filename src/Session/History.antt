-- ===== src/Session/History.antt =====
-- Histories of one session: any interleaving of manual commands, timer calls and answers, each a
-- committed transaction of backend/apps/session/gameplay.py.
pub mod Replay
pub mod Bound
pub mod Lasting
use umclick.Common.{
  ℕ, ◌≡◌, ◌≢◌, refl, sym, ap, ◌∙◌, ◌⊎◌, inl, inr, subst, Bool, true, false, Option, none, some,
  List, [], ◌∷◌, Result, ok, err,
}
use umclick.Session.Model.{Game, CommandKind, BasicState, AnswerAttempt, Env, Error}
use umclick.Session.Transition.Moved.{Timely}
use umclick.Session.Run.{current_run}
use umclick.Session.Valid.{IsValid}
use umclick.Session.Command.{CommandInput, execute_manual_command}
use umclick.Session.Command.Once.{Once, Applied, execute_manual_command-Once}
use umclick.Session.Advance.{advance_one_transition}
use umclick.Session.Advance.Ticks.{Tick, Ticked, Call, advance_one_transition-Call}
use umclick.Session.Answer.{AnswerInput, record_answer_attempt}
use umclick.Session.Answer.Storing.{Pressed, Stored}
use umclick.Session.Answer.Outcomes.{record_answer_attempt-Pressed}

-- A transaction that commits. What a call read before it got its lock may be any game.
pub data Commit (env : Env) (g : Game) (g' : Game) : Type 0 where
  command :
      (kind : CommandKind) (input : CommandInput) (now : ℕ) (response : BasicState)
      (repeated : Bool)
      → Timely g.session.phase_started_at now
      → execute_manual_command env g kind input now ≡ ok (g', response, repeated)
      → Commit env g g'
  timer :
      (seen : Game) (now : ℕ) (advanced : Bool)
      → advance_one_transition env seen g now ≡ ok (g', advanced)
      → Commit env g g'
  answer :
      (trusted : Game) (input : AnswerInput) (at : ℕ) (row : Option AnswerAttempt) (repeated : Bool)
      → record_answer_attempt env trusted g input at ≡ ok (g', row, repeated)
      → Commit env g g'

pub data History (env : Env) (start : Game) : Game → Type 0 where
  here : History env start start
  after : {g g' : Game} → History env start g → Commit env g g' → History env start g'

-- What a commit does to the rows, by cases.
pub data Effect (env : Env) (g : Game) (g' : Game) : Type 0 where
  same : g' ≡ g → Effect env g g'
  applied :
      (kind : CommandKind) (input : CommandInput) (response : BasicState)
      → Applied env g kind input g' response
      → Effect env g g'
  ticked : Ticked env g (current_run g) g' → Effect env g g'
  stored :
      (input : AnswerInput) (at : ℕ) (a : AnswerAttempt)
      → Stored env g input at g' a
      → Effect env g g'

Once-Effect :
    (env : Env) (g : Game) (kind : CommandKind) (input : CommandInput) (g' : Game)
    (response : BasicState) (repeated : Bool)
    → Once env g kind input (ok (g', response, repeated))
    → Effect env g g'
Once-Effect env g kind input g' response true h = same h.0
Once-Effect env g kind input g' response false h = applied kind input response h

Tick-Effect :
    (env : Env) (g : Game) (now : ℕ) (g' : Game) (advanced : Bool)
    → Tick env g now (ok (g', advanced))
    → Effect env g g'
Tick-Effect env g now g' true h = ticked h.1
Tick-Effect env g now g' false h = same h.1

Call-Effect :
    (env : Env) (seen g : Game) (now : ℕ) (g' : Game) (advanced : Bool)
    → Call env seen g now (ok (g', advanced))
    → Effect env g g'
Call-Effect env seen g now g' advanced (inl h) = Tick-Effect env g now g' advanced h.1
Call-Effect env seen g now g' advanced (inr h) = same (cc (h.1))

Pressed-Effect :
    (env : Env) (g : Game) (input : AnswerInput) (at : ℕ) (g' : Game) (row : Option AnswerAttempt)
    (repeated : Bool)
    → Pressed env g input at (ok (g', row, repeated))
    → Effect env g g'
Pressed-Effect env g input at g' none repeated h = same h.0
Pressed-Effect env g input at g' (some a) true h = same h.0
Pressed-Effect env g input at g' (some a) false h = stored input at a h

-- Every commit on a valid game has one of these effects.
pub Commit-Effect : (env : Env) (g g' : Game) → IsValid g → Commit env g g' → Effect env g g'
Commit-Effect env g g' v (command kind input now response repeated t e) =
    Once-Effect env g kind input g' response repeated
      (subst (Once env g kind input) e (execute_manual_command-Once env g kind input now v t))
Commit-Effect env g g' v (timer seen now advanced e) =
    Call-Effect env seen g now g' advanced
      (subst (Call env seen g now) e (advance_one_transition-Call env seen g now v).0)
Commit-Effect env g g' v (answer trusted input at row repeated e) =
    Pressed-Effect env g input at g' row repeated
      (subst (Pressed env g input at) e (record_answer_attempt-Pressed env trusted g input at v))

Effect-IsValid : (env : Env) (g g' : Game) → IsValid g → Effect env g g' → IsValid g'
Effect-IsValid env g g' v (same e) = subst IsValid (sym e) v
Effect-IsValid env g g' v (applied kind input response h) = h.advanced.valid
Effect-IsValid env g g' v (ticked h) = h.moved.valid
Effect-IsValid env g g' v (stored input at a h) = h.valid

-- A commit keeps a valid game valid, whatever it read before it got its lock.
pub Commit-IsValid : (env : Env) (g g' : Game) → IsValid g → Commit env g g' → IsValid g'
Commit-IsValid env g g' v c = Effect-IsValid env g g' v (Commit-Effect env g g' v c)

-- After any history of commits that starts in a valid game, the game is valid.
pub History-IsValid : (env : Env) (g h : Game) → IsValid g → History env g h → IsValid h
History-IsValid env g h v here = v
History-IsValid env g h v (after {g = m} p c) =
    Commit-IsValid env m h (History-IsValid env g m v p) c
