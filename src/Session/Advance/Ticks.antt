-- ===== src/Session/Advance/Ticks.antt =====
-- The timer takes a step exactly when one is due, and never more than one.
use umclick.Common.{
  ℕ, ◌==◌, ◌≡◌, refl, ap, ◌∙◌, ◌⊎◌, inl, inr, Bool, true, false, ◌&&◌, Option, none, some, List,
  ◌∷◌, any, Bool-cases, Result, ok, err, ◌>>=◌, arith,
}
use umclick.Session.Model.{
  Game, SessionQuestionRun, SessionCommand, Error, integrity_error, Env, Event, live, Phase, lobby,
  reading, answering, delivery, results, final, status_is,
}
use umclick.Session.Save.Laws.{insert_command_lem, insert_command_taken}
use umclick.Session.Run.{current_run}
use umclick.Session.Run.Store.{
  lock_current_run-head, lock_current_run-none, find_run-head, status_is→eq,
}
use umclick.Session.Transition.Moved.{Moved, Advanced}
use umclick.Session.Valid.{IsValid, Running}
use umclick.Session.Valid.Finish.{located}
use umclick.Session.Valid.Change.{Placed-as}
use umclick.Session.Command.Once.{IsValid-recorded}
use umclick.Session.Advance.{
  Fired, transition_may_be_due, fire, automatic_command, automatic_command_id, record_step,
  advance_locked, advance_one_transition,
}
use umclick.Session.Advance.Due.{Due, is_due, is_due-Due, is_due-none}
use umclick.Session.Advance.Fires.{Fires}
use umclick.Session.Advance.Phases.{fire-Fires}

-- One step of the timer, recorded and announced.
pub record Ticked (env : Env) (g : Game) (run : Option SessionQuestionRun) (g' : Game)
    : Type 0 where
  pub fired : Fired
  pub moved : Moved g fired.event g'
  pub fresh :
      any (λ c. c.command_id == automatic_command_id env g' fired.kind fired.boundary) g.commands
      ≡ false
  pub recorded : g'.commands ≡ automatic_command env g' run fired ∷ g.commands
  pub announced : g'.events ≡ fired.event ∷ g.events

-- The step exists, but the id under which it would be recorded belongs to another command.
pub record Blocked (env : Env) (g : Game) : Type 0 where
  pub next : Game
  pub fired : Fired
  pub advanced : Advanced g fired.event next
  pub taken :
      any (λ c. c.command_id == automatic_command_id env next fired.kind fired.boundary) g.commands
      ≡ true

abbrev pub Tick : Env → Game → ℕ → Result Error (Game × Bool) → Type 0
Tick env g now (ok (g', true)) = Due g now × Ticked env g (current_run g) g'
Tick env g now (ok (g', false)) = (¬ Due g now) × (g' ≡ g)
Tick env g now (err integrity_error) = Due g now × Blocked env g
Tick env g now (err _) = ⊥

record_step-Tick :
    (env : Env) (g : Game) (run : Option SessionQuestionRun) (now : ℕ)
    (x : Result Error (Game × Option Fired))
    → current_run g ≡ run
    → Due g now
    → Fires g x
    → Tick env g now (x >>= λ r. record_step env run r.0 r.1)
unfolding record_step
record_step-Tick env g run now (err e) same due h = elim h [ ]
record_step-Tick env g run now (ok (g', none)) same due h = elim h [ ]
record_step-Tick env g run now (ok (g', some fired)) same due h =
    elim (Bool-cases
      (any (λ c. c.command_id == (automatic_command env g' run fired).command_id) g'.commands)) [
        | inl taken ↦ rw (insert_command_taken g' (automatic_command env g' run fired) taken) (
          due,
          record { next = g'; fired = fired; advanced = h; taken = rw (← h.commands) taken },
        )
        | inr fresh ↦
            rw
              (insert_command_lem g' (automatic_command env g' run fired) fresh
                (rw h.revision (omega arith)))
              (
                due,
                record {
                  fired = fired;
                  moved = record {
                    valid =
                        IsValid-recorded g' (automatic_command env g' run fired ∷ g'.commands)
                          (fired.event ∷ g'.events) h.valid;
                    revision = h.revision;
                    step = h.step;
                    version = h.version;
                    participants = h.participants;
                    attempts = h.attempts;
                  };
                  fresh = rw (← h.commands) fresh;
                  recorded = rw same (
                      ap (λ (cs : List SessionCommand). automatic_command env g' run fired ∷ cs)
                        h.commands);
                  announced = ap (λ (es : List Event). fired.event ∷ es) h.events;
                },
              )
      ]

current_run-head :
    (g : Game) (r : SessionQuestionRun) (rs : List SessionQuestionRun)
    → g.runs ≡ r ∷ rs
    → g.session.current_run_id ≡ some r.pk
    → current_run g ≡ some r
current_run-head g r rs e c = rw (c, e) (find_run-head r rs)

is_due-at :
    (g : Game) (r : SessionQuestionRun) (now : ℕ)
    → status_is g.session.status live ≡ true
    → current_run g ≡ some r
    → is_due g now ≡ transition_may_be_due g (some r) now
is_due-at g r now h at_r =
    ap
      (λ (o : Option SessionQuestionRun).
        status_is g.session.status live && transition_may_be_due g o now)
      at_r
    ∙ rw h

not_live-Tick :
    (env : Env) (g : Game) (now : ℕ)
    → status_is g.session.status live ≡ false
    → Tick env g now (advance_locked env g now)
unfolding advance_locked
not_live-Tick env g now h = rw h (is_due-none g now (rw h refl), refl)

idle-Tick :
    (env : Env) (g : Game) (now : ℕ)
    → status_is g.session.status live ≡ true
    → g.session.current_run_id ≡ none
    → Tick env g now (advance_locked env g now)
unfolding advance_locked transition_may_be_due
idle-Tick env g now h c =
    rw (h, lock_current_run-none g c) (is_due-none g now (rw (h, c) refl), refl)

Running-Tick :
    (env : Env) (g : Game) (now : ℕ) (r : SessionQuestionRun) (rs : List SessionQuestionRun)
    → IsValid g
    → status_is g.session.status live ≡ true
    → Running g.session
    → g.runs ≡ r ∷ rs
    → g.session.current_run_id ≡ some r.pk
    → Tick env g now (advance_locked env g now)
unfolding advance_locked
Running-Tick env g now r rs v h running e c =
    let at_r = current_run-head g r rs e c in
    elim (Bool-cases (transition_may_be_due g (some r) now)) [
      | inr later ↦
          rw (h, lock_current_run-head g r rs e c, later)
            (is_due-none g now (is_due-at g r now h at_r ∙ later), refl)
      | inl due ↦
          rw (h, lock_current_run-head g r rs e c, due)
            (record_step-Tick env g (some r) now (fire env g (some r) now) at_r
              (is_due-Due g now (is_due-at g r now h at_r ∙ due))
              (fire-Fires env g r rs v e (status_is→eq g.session.status live h) running now due
                g.session.phase refl c))
    ]

Running-now : (g : Game) → IsValid g → g.session.status ≡ live → Running g.session
Running-now g v is_live = go g.session.phase refl
  where
    go : (p : Phase) → g.session.phase ≡ p → Running g.session
    go lobby ep = (Placed-as g live lobby v is_live ep).2
    go reading ep = (Placed-as g live reading v is_live ep).1
    go answering ep = (Placed-as g live answering v is_live ep).1
    go delivery ep = (Placed-as g live delivery v is_live ep).1
    go results ep = (Placed-as g live results v is_live ep).1
    go final ep = elim (Placed-as g live final v is_live ep) [ ]

-- On a valid game the transaction of the timer takes a step only when one is due, and changes nothing
-- only when none is. A step is due when the session is live and its current run either is not finalized
-- and past its delivery deadline, or has come to the end of its reading, of its answering or of its
-- results in the phase for it. The step is one of the abstract machine to a valid game one revision
-- further, recorded as one command under an id that was free, and announced once. The transaction fails
-- only with an `IntegrityError`, and only when a step is due and a stored command has the id of a step
-- that the machine may take.
pub advance_locked-Tick :
    (env : Env) (g : Game) (now : ℕ) → IsValid g → Tick env g now (advance_locked env g now)
advance_locked-Tick env g now v = elim (Bool-cases (status_is g.session.status live)) [
  | inr h ↦ not_live-Tick env g now h
  | inl h ↦ elim (located g v) [
    | inl idle ↦ idle-Tick env g now h idle
    | inr (r, rs, e, c) ↦
        Running-Tick env g now r rs v h (Running-now g v (status_is→eq g.session.status live h)) e c
  ]
]

-- What a call of the timer comes to when its first reading, which found the game `seen`, may be out of
-- date: something was due then, and the call is what its transaction is on the locked game `g`, or
-- nothing was due, and nothing happens.
abbrev pub Call : Env → Game → Game → ℕ → Result Error (Game × Bool) → Type 0
Call env seen g now r = (Due seen now × Tick env g now r) ⊎ ((¬ Due seen now) × (r ≡ ok (g, false)))

-- A call of the timer, when other transactions may have run between the first reading, which found the
-- game `seen`, and the lock, under which the game `g` is valid: if a step was due in `seen`, the call
-- ends as a transaction on `g` does: with a step, and then one is due there, with nothing changed, and
-- then none is, or in an `IntegrityError` over a step that is due and whose id is taken; if none was due
-- in `seen`, nothing happens. Without a change in between, the call always ends as a transaction does.
pub advance_one_transition-Call :
    (env : Env) (seen g : Game) (now : ℕ)
    → IsValid g
    → Call env seen g now (advance_one_transition env seen g now)
      × Tick env g now (advance_one_transition env g g now)
unfolding advance_one_transition
advance_one_transition-Call env seen g now v = (
  elim (Bool-cases (is_due seen now)) [
    | inl due ↦ rw due (inl (is_due-Due seen now due, advance_locked-Tick env g now v))
    | inr later ↦ rw later (inr (is_due-none seen now later, refl))
  ],
  elim (Bool-cases (is_due g now)) [
    | inl due ↦ rw due (advance_locked-Tick env g now v)
    | inr later ↦ rw later (is_due-none g now later, refl)
  ],
)
