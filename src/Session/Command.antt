-- ===== src/Session/Command.antt =====
-- `execute_manual_command` of backend/apps/session/gameplay.py: one command of the host, applied once.
pub mod Once
use umclick.Common.{
  ℕ, ◌==◌, option_eq, if◌then◌else◌, Bool, true, false, not, ◌&&◌, ◌||◌, Option, none, some, List,
  [], ◌∷◌, find, Result, ok, err, ◌>>=◌, ◌>>◌, raise_if,
}
use umclick.Session.Model.{
  Game, SessionCommand, CommandKind, Phase, BasicState, Error, command_id_reused, stale_revision,
  stale_context, Env, Event, command_facts, phase_is, kind_is,
}
use umclick.Session.Save.{insert_command}
use umclick.Session.Run.{basic_state}
use umclick.Session.Transition.{refuse, apply_transition}

-- The validated body of the request.
pub record CommandInput : Type 0 where
  pub command_id : ℕ
  pub state_revision : ℕ
  pub phase : Phase
  pub question_run_id : Option ℕ

-- `broadcast_session_event`, sent when the transaction commits.
abbrev pub broadcast : Game → Event → Game
broadcast g e = record g { events = e ∷ g.events }

abbrev pub request_digest : Env → CommandKind → CommandInput → ℕ
request_digest env kind input =
    env.digest (command_facts kind input.state_revision input.phase input.question_run_id)

abbrev pub applied_command : Env → CommandKind → CommandInput → Game → SessionCommand
applied_command env kind input g = record {
  command_id = input.command_id;
  kind = kind;
  expected_revision = input.state_revision;
  payload_digest = request_digest env kind input;
  applied_revision = g.session.state_revision;
  response = basic_state g;
}

abbrev pub differs : SessionCommand → CommandKind → CommandInput → ℕ → Bool
differs existing kind input payload_digest =
    not (kind_is existing.kind kind)
    || not (existing.expected_revision == input.state_revision)
    || not (existing.payload_digest == payload_digest)

abbrev pub find_command : ℕ → List SessionCommand → Option SessionCommand
find_command k = find (λ c. c.command_id == k)

-- A command that was applied before: its stored answer, unless the request is another one.
unfoldable pub replay_command :
    Env
    → Game
    → CommandKind
    → CommandInput
    → SessionCommand
    → Result Error (Game × BasicState × Bool)
replay_command env g kind input existing = do
  raise_if (differs existing kind input (request_digest env kind input))
      (refuse g command_id_reused)
  ok (g, existing.response, true)

unfoldable pub apply_command :
    Env → Game → CommandKind → CommandInput → ℕ → Result Error (Game × BasicState × Bool)
apply_command env g kind input now = do
  raise_if (not (g.session.state_revision == input.state_revision)) (refuse g stale_revision)
  raise_if
      (not (phase_is g.session.phase input.phase)
        || not (option_eq g.session.current_run_id input.question_run_id))
      (refuse g stale_context)
  (g', event) ← apply_transition env g kind now
  g'' ← insert_command g' (applied_command env kind input g')
  ok (broadcast g'' event, basic_state g', false)

-- The state, the response and whether the command was a repetition.
unfoldable pub execute_manual_command :
    Env → Game → CommandKind → CommandInput → ℕ → Result Error (Game × BasicState × Bool)
execute_manual_command env g kind input now = elim (find_command input.command_id g.commands) [
  | some existing ↦ replay_command env g kind input existing
  | none ↦ apply_command env g kind input now
]
