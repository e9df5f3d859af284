-- ===== src/Session/Transition/Moved.antt =====
-- What it means that a game has moved: a valid game, one revision and one step further.
use umclick.Common.{ℕ, ◌+◌, ◌≤◌, ◌≡◌, Bool, true, ◌&&◌, Option, none, some, Result, ok, err, arith}
use umclick.Session.Model.{Game, Error, state_conflict, Event, Status, Phase, status_is, phase_is}
use umclick.Session.Run.{basic_state}
use umclick.Session.Run.Store.{status_is→eq, phase_is→eq}
use umclick.Session.Valid.{IsValid}
use umclick.Session.Spec.{position, total, Step}

-- A valid game, one revision and one step of the abstract machine further.
pub record Moved (g : Game) (event : Event) (g' : Game) : Type 0 where
  pub valid : IsValid g'
  pub revision : g'.session.state_revision ≡ g.session.state_revision + 1
  pub step : Step (total g) (position g) event (position g')
  pub version : g'.version ≡ g.version
  pub participants : g'.participants ≡ g.participants
  pub attempts : g'.attempts ≡ g.attempts

-- Such a game before the step is recorded and announced.
pub record Advanced (g : Game) (event : Event) (g' : Game) : Type 0 where
  pub moved : Moved g event g'
  pub open moved use *
  pub commands : g'.commands ≡ g.commands
  pub events : g'.events ≡ g.events

abbrev pub Outcome : Game → Result Error (Game × Event) → Type 0
Outcome g (ok (g', event)) = Advanced g event g'
Outcome g (err (state_conflict reason state)) = state ≡ basic_state g
Outcome g (err _) = ⊥

pub &&-split : (a b : Bool) → (a && b) ≡ true → (a ≡ true) × (b ≡ true)
&&-split a b h = ground arith

pub standing :
    (g : Game) (s : Status) (p : Phase)
    → (status_is g.session.status s && phase_is g.session.phase p) ≡ true
    → (g.session.status ≡ s) × (g.session.phase ≡ p)
standing g s p h =
    let (a, b) = &&-split (status_is g.session.status s) (phase_is g.session.phase p) h in
    (status_is→eq g.session.status s a, phase_is→eq g.session.phase p b)

-- The clock has not gone back behind the start of the phase.
abbrev pub Timely : Option ℕ → ℕ → Type 0
Timely none now = Unit
Timely (some t) now = t ≤ now
