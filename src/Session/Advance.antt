-- ===== src/Session/Advance.antt =====
-- `advance_one_transition` of backend/apps/session/gameplay.py: the server's timer, one step a call.
pub mod Fires
pub mod Phases
pub mod Due
pub mod Ticks
use umclick.Common.{
  ℕ, ◌+◌, ◌-◌, leb, ltb, is_some, is_none, if◌then◌else◌, Bool, true, false, not, ◌&&◌, Option,
  none, some, List, [], ◌∷◌, Result, ok, err, ◌>>=◌, ◌>>◌,
}
use umclick.Session.Model.{
  Game, LiveSession, SessionQuestionRun, SessionCommand, CommandKind, auto_finalize_question,
  auto_start_answering, auto_start_delivery, auto_finish_session, auto_next_question, Error, Env,
  Event, question_answering_started, answer_delivery_started, live, reading, answering, delivery,
  results, status_is, phase_is, automatic_facts,
}
use umclick.Session.Save.{insert_command}
use umclick.Session.Run.{
  basic_state, current_run, next_question_of, lock_current_run, save_session, start_question,
  finish_session, finalize_locked,
}
use umclick.Session.Command.{broadcast}

-- `now >= moment`, false for a moment that is not set
abbrev pub reached : Option ℕ → ℕ → Bool
reached none now = false
reached (some t) now = leb t now

abbrev pub must_finalize : SessionQuestionRun → ℕ → Bool
must_finalize run now = is_none run.finalized_at && ltb run.delivery_deadline_at now

-- `_transition_may_be_due`
unfoldable pub transition_may_be_due : Game → Option SessionQuestionRun → ℕ → Bool
transition_may_be_due g none now = false
transition_may_be_due g (some run) now =
    if must_finalize run now
    then true
    else if phase_is g.session.phase reading
    then leb run.reading_ends_at now
    else if phase_is g.session.phase answering
    then leb run.answer_deadline_at now
    else if phase_is g.session.phase results && is_some run.results_ends_at
    then reached run.results_ends_at now
    else false

-- What one step records: its kind, the moment that was due, and its broadcast.
pub record Fired : Type 0 where
  pub kind : CommandKind
  pub boundary : ℕ
  pub event : Event

unfoldable pub fire_finalize :
    Env → Game → SessionQuestionRun → ℕ → Result Error (Game × Option Fired)
fire_finalize env g run now = do
  (g', event) ← finalize_locked env g run now
  ok (
    g',
    elim event [
      | none ↦ none
      | some e ↦
          some (record {
            kind = auto_finalize_question;
            boundary = run.delivery_deadline_at;
            event = e;
          })
    ],
  )

unfoldable pub fire_answering : Env → Game → SessionQuestionRun → Result Error (Game × Option Fired)
fire_answering env g run = do
  g' ← save_session env g (record (g.session) {
    phase = answering;
    phase_started_at = some run.answering_started_at;
    question_started_at = some run.answering_started_at;
  })
  ok (
    g',
    some (record {
      kind = auto_start_answering;
      boundary = run.reading_ends_at;
      event = question_answering_started;
    }),
  )

unfoldable pub fire_delivery : Env → Game → SessionQuestionRun → Result Error (Game × Option Fired)
fire_delivery env g run = do
  g' ←
      save_session env g
        (record (g.session) { phase = delivery; phase_started_at = some run.answer_deadline_at })
  ok (
    g',
    some (record {
      kind = auto_start_delivery;
      boundary = run.answer_deadline_at;
      event = answer_delivery_started;
    }),
  )

unfoldable pub fire_results : Env → Game → ℕ → ℕ → Result Error (Game × Option Fired)
fire_results env g ends now = elim (next_question_of g) [
  | none ↦ finish_session env g now false >>= λ r.
      ok (r.0, some (record { kind = auto_finish_session; boundary = ends; event = r.1 }))
  | some question ↦ start_question env g question now >>= λ r.
      ok (r.0, some (record { kind = auto_next_question; boundary = ends; event = r.1 }))
]

-- The chain of `if` and `elif` under the lock.
unfoldable pub fire :
    Env → Game → Option SessionQuestionRun → ℕ → Result Error (Game × Option Fired)
fire env g none now = ok (g, none)
fire env g (some run) now =
    if must_finalize run now
    then fire_finalize env g run now
    else if phase_is g.session.phase reading && leb run.reading_ends_at now
    then fire_answering env g run
    else if phase_is g.session.phase answering && leb run.answer_deadline_at now
    then fire_delivery env g run
    else if phase_is g.session.phase results
    then elim run.results_ends_at [
      | none ↦ ok (g, none)
      | some ends ↦ if leb ends now then fire_results env g ends now else ok (g, none)
    ]
    else ok (g, none)

abbrev pub or_zero : Option ℕ → ℕ
or_zero none = 0
or_zero (some k) = k

abbrev pub run_pk : Option SessionQuestionRun → Option ℕ
run_pk none = none
run_pk (some r) = some r.pk

-- `_automatic_command_id`, over the game as the step has left it
abbrev pub automatic_command_id : Env → Game → CommandKind → ℕ → ℕ
automatic_command_id env g kind boundary =
    env.uuid5 g.session.pk (or_zero g.session.current_run_id) kind boundary

abbrev pub automatic_command : Env → Game → Option SessionQuestionRun → Fired → SessionCommand
automatic_command env g run fired = record {
  command_id = automatic_command_id env g fired.kind fired.boundary;
  kind = fired.kind;
  expected_revision = g.session.state_revision - 1;
  payload_digest =
      env.digest
        (automatic_facts fired.kind (g.session.state_revision - 1) (run_pk run) fired.boundary);
  applied_revision = g.session.state_revision;
  response = basic_state g;
}

-- The record of the step and its broadcast.
unfoldable pub record_step :
    Env → Option SessionQuestionRun → Game → Option Fired → Result Error (Game × Bool)
record_step env run g none = ok (g, false)
record_step env run g (some fired) = do
  g' ← insert_command g (automatic_command env g run fired)
  ok (broadcast g' fired.event, true)

-- The transaction: `g` is the game as it is read under the lock.
unfoldable pub advance_locked : Env → Game → ℕ → Result Error (Game × Bool)
advance_locked env g now =
    if status_is g.session.status live
    then (do
      run ← lock_current_run g
      if transition_may_be_due g run now
          then fire env g run now >>= (λ r. record_step env run r.0 r.1)
          else ok (g, false))
    else ok (g, false)

-- The whole call: `seen` is the game as the reading before the transaction found it. Other
-- transactions may have changed it to `g` in between.
unfoldable pub advance_one_transition : Env → Game → Game → ℕ → Result Error (Game × Bool)
advance_one_transition env seen g now =
    if status_is seen.session.status live && transition_may_be_due seen (current_run seen) now
    then advance_locked env g now
    else ok (g, false)
