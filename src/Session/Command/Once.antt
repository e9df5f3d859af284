-- ===== src/Session/Command/Once.antt =====
-- A command is applied at most once, and answered the same way each time.
use umclick.Common.{
  ℕ, ◌+◌, ◌==◌, ◌≡◌, refl, ap, ◌∙◌, inl, inr, option_eq, Bool, true, false, none, some, List, [],
  ◌∷◌, any, Bool-cases, Option-cases, Result, ok, err, ◌>>=◌, arith, ==_iff, option_eq→eq,
}
use umclick.Session.Model.{
  Game, SessionCommand, CommandKind, BasicState, Error, state_conflict, conflict, validation_error,
  history_conflict, integrity_error, does_not_exist, Env, Event, phase_is,
}
use umclick.Session.Save.{insert_command}
use umclick.Session.Save.Laws.{insert_command_lem}
use umclick.Session.Run.{basic_state}
use umclick.Session.Run.Store.{phase_is→eq}
use umclick.Session.Transition.{apply_transition}
use umclick.Session.Transition.Moved.{Moved, Outcome, Timely}
use umclick.Session.Transition.Outcomes.{apply_transition-Outcome}
use umclick.Session.Valid.{IsValid}
use umclick.Session.Command.{
  CommandInput, broadcast, applied_command, differs, find_command, replay_command, apply_command,
  execute_manual_command, request_digest,
}

-- Commands and broadcasts are no part of the invariant.
pub IsValid-recorded :
    (g : Game) (cs : List SessionCommand) (es : List Event)
    → IsValid g
    → IsValid (record g { commands = cs; events = es })
IsValid-recorded g cs es v = record {
  linked = v.linked;
  questions = v.questions;
  placed = v.placed;
  runs = v.runs;
  people = v.people;
  finals = v.finals;
  attempts = v.attempts;
}

-- What an applied command has done: one step, from the state that its sender saw, and its record.
pub record Applied (env : Env) (g : Game) (kind : CommandKind) (input : CommandInput) (g' : Game)
    (response : BasicState) : Type 0 where
  pub event : Event
  pub advanced : Moved g event g'
  pub answer : response ≡ basic_state g'
  pub fresh : find_command input.command_id g.commands ≡ none
  pub revision_seen : g.session.state_revision ≡ input.state_revision
  pub phase_seen : g.session.phase ≡ input.phase
  pub run_seen : g.session.current_run_id ≡ input.question_run_id
  pub recorded : g'.commands ≡ applied_command env kind input g' ∷ g.commands
  pub announced : g'.events ≡ event ∷ g.events

-- What a call can come to.
abbrev pub Once :
    Env → Game → CommandKind → CommandInput → Result Error (Game × BasicState × Bool) → Type 0
Once env g kind input (ok (g', response, true)) =
    (g' ≡ g)
    × (c : SessionCommand) × (find_command input.command_id g.commands ≡ some c)
    × (c.response ≡ response)
    × (differs c kind input (request_digest env kind input) ≡ false)
Once env g kind input (ok (g', response, false)) = Applied env g kind input g' response
Once env g kind input (err (state_conflict reason state)) = state ≡ basic_state g
Once env g kind input (err _) = ⊥

pub find-any :
    (k : ℕ) (cs : List SessionCommand)
    → find_command k cs ≡ none
    → any (λ c. c.command_id == k) cs ≡ false
find-any k [] e = refl
find-any k (c ∷ cs) e = ground (arith, find-any k cs)

applied-Once :
    (env : Env) (g : Game) (kind : CommandKind) (input : CommandInput) (now : ℕ)
    (r : Result Error (Game × Event))
    → Outcome g r
    → find_command input.command_id g.commands ≡ none
    → g.session.state_revision ≡ input.state_revision
    → g.session.phase ≡ input.phase
    → g.session.current_run_id ≡ input.question_run_id
    → Once env g kind input (
        r >>= λ p. insert_command p.0 (applied_command env kind input p.0) >>= λ g''.
        ok (broadcast g'' p.1, basic_state p.0, false))
applied-Once env g kind input now (err (state_conflict reason state)) h fresh rev ph run = h
applied-Once env g kind input now (err (conflict reason)) h fresh rev ph run = h
applied-Once env g kind input now (err validation_error) h fresh rev ph run = h
applied-Once env g kind input now (err history_conflict) h fresh rev ph run = h
applied-Once env g kind input now (err integrity_error) h fresh rev ph run = h
applied-Once env g kind input now (err does_not_exist) h fresh rev ph run = h
applied-Once env g kind input now (ok (g', event)) h fresh rev ph run =
    rw
      (insert_command_lem g' (applied_command env kind input g')
        (rw h.commands (find-any input.command_id g.commands fresh))
        (h.revision ∙ ap (λ (n : ℕ). n + 1) rev))
      (record {
        event = event;
        advanced = record {
          valid = IsValid-recorded g' _ _ h.valid;
          revision = h.revision;
          step = h.step;
          version = h.version;
          participants = h.participants;
          attempts = h.attempts;
        };
        answer = refl;
        fresh = fresh;
        revision_seen = rev;
        phase_seen = ph;
        run_seen = run;
        recorded =
            ap (λ (cs : List SessionCommand). applied_command env kind input g' ∷ cs) h.commands;
        announced = ap (λ (es : List Event). event ∷ es) h.events;
      })

replay_command-Once :
    (env : Env) (g : Game) (kind : CommandKind) (input : CommandInput) (c : SessionCommand)
    → find_command input.command_id g.commands ≡ some c
    → Once env g kind input (replay_command env g kind input c)
unfolding replay_command
replay_command-Once env g kind input c e =
    elim (Bool-cases (differs c kind input (request_digest env kind input))) [
      | inl other ↦ rw other refl
      | inr same ↦ rw same (refl, c, e, refl, same)
    ]

apply_command-Once :
    (env : Env) (g : Game) (kind : CommandKind) (input : CommandInput) (now : ℕ)
    → IsValid g
    → Timely g.session.phase_started_at now
    → find_command input.command_id g.commands ≡ none
    → Once env g kind input (apply_command env g kind input now)
unfolding apply_command
apply_command-Once env g kind input now v t fresh =
    elim (Bool-cases (g.session.state_revision == input.state_revision)) [
      | inr stale ↦ rw stale refl
      | inl rev ↦ elim (Bool-cases (phase_is g.session.phase input.phase)) [
        | inr stale ↦ rw (rev, stale) refl
        | inl ph ↦ elim (Bool-cases (option_eq g.session.current_run_id input.question_run_id)) [
          | inr stale ↦ rw (rev, ph, stale) refl
          | inl run ↦
              rw (rev, ph, run)
                (applied-Once env g kind input now (apply_transition env g kind now)
                  (apply_transition-Outcome env g kind now v t) fresh
                  ((==_iff g.session.state_revision input.state_revision).0 rev)
                  (phase_is→eq g.session.phase input.phase ph)
                  (option_eq→eq g.session.current_run_id input.question_run_id run))
        ]
      ]
    ]

-- On a valid game with a timely clock, a manual command either repeats the stored answer of a
-- command with its id, kind, revision and digest, and changes nothing; or it is applied once: its id was new, the sender had
-- seen the stored revision, phase and run, the game takes one step of the abstract machine to a valid
-- game one revision further, and the command and one broadcast are recorded; or it is refused with a
-- `StateConflict` that carries a snapshot of the stored game. It does not fail in any other way.
pub execute_manual_command-Once :
    (env : Env) (g : Game) (kind : CommandKind) (input : CommandInput) (now : ℕ)
    → IsValid g
    → Timely g.session.phase_started_at now
    → Once env g kind input (execute_manual_command env g kind input now)
unfolding execute_manual_command
execute_manual_command-Once env g kind input now v t =
    elim (Option-cases (find_command input.command_id g.commands)) [
      | inr (c, e) ↦ rw (e, execute_manual_command) (replay_command-Once env g kind input c e)
      | inl fresh ↦
          rw (fresh, execute_manual_command) (apply_command-Once env g kind input now v t fresh)
    ]
