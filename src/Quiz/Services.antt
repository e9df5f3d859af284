-- ===== src/Quiz/Services.antt =====
-- The services of backend/apps/quiz/services.py and `create_live_session` of
-- backend/apps/session/services.py. The row of the card, if it is there, is locked and the whole
-- service runs in one transaction; a refusal leaves everything as it was.
pub mod Written
pub mod Saved
pub mod Save
pub mod Pins
pub mod Select
pub mod Launch
pub mod Create
pub mod Shelve
pub mod History
mod Tests
use mathlib.Core.Logic.{ite}
use umclick.Common.{
  ℕ, zero, suc, ◌+◌, ◌==◌, if◌then◌else◌, Bool, true, false, not, ◌&&◌, ◌||◌, Option, none, some,
  List, [], ◌∷◌, map, any, is_none, is_some, Result, ok, err, ◌>>=◌, ◌>>◌, raise_if, or_raise,
}
use umclick.Quiz.Model.{Text, QuizVersion, Question, fixed}
use umclick.Quiz.Content.{Content, quiz_data, canonical, Content-discrete}
use umclick.Quiz.Validation.{validate_quiz_data}
use umclick.Quiz.Refusals.{
  Refusal, permission_denied, quiz_not_found, quiz_archived, quiz_revision_conflict, no_version,
  invalid_content, open_session, history_protected, no_free_pin, integrity_error,
}
use umclick.Quiz.Merge.{Changes, merge_content}
use umclick.Quiz.Card.{
  Actor, Quiz, Card, is_admin, is_teacher, can_manage_quiz, latest_fixed, locked_draft,
}
use umclick.Quiz.Graph.{create_version_graph, update_questions, with_content}
use umclick.Session.Model.{LiveSession, waiting, lobby, v2, is_over}

-- `validate_quiz_data`, raising.
abbrev pub validated : (ℕ → Bool) → Content → Result Refusal (Unit {0})
validated is_space d = elim (validate_quiz_data is_space d) [
  | ok _ ↦ ok tt
  | err errors ↦ err (invalid_content errors)
]

-- `_canonical(left) == _canonical(right)`
abbrev pub same_content : Content → Content → Bool
same_content a b = ite (Content-discrete (canonical a) (canonical b)) true false

-- The keys that the database gives to the first rows of a card.
pub record Keys : Type 0 where
  pub quiz : ℕ
  pub version : ℕ
  pub question : ℕ
  pub choice : ℕ
  pub session : ℕ

abbrev pub new_card : Keys → Actor → Card
new_card keys actor = record {
  quiz = record { pk = keys.quiz; owner_id = actor.pk; archived_at = none; content_revision = 1 };
  versions = [];
  sessions = [];
  next_version_pk = keys.version;
  next_question_pk = keys.question;
  next_choice_pk = keys.choice;
  next_session_pk = keys.session;
}

unfoldable pub create_quiz_with_draft : (ℕ → Bool) → Keys → Actor → Changes → Result Refusal Card
create_quiz_with_draft is_space keys actor changes = do
  raise_if (not (is_admin actor || is_teacher actor)) permission_denied
  content ← merge_content none changes
  validated is_space content
  ok (create_version_graph (new_card keys actor) 1 content)

-- `_lock_quiz_or_not_found` and the check of the rights, which every service starts with.
abbrev pub managed_card : Option Card → Actor → Result Refusal Card
managed_card slot actor = do
  card ← or_raise slot quiz_not_found
  raise_if (not (can_manage_quiz actor card.quiz)) permission_denied
  ok card

abbrev pub replace_version : QuizVersion → List QuizVersion → List QuizVersion
replace_version v = map λ (w : QuizVersion). if w.pk == v.pk then v else w

-- `_update_draft_graph`
unfoldable pub update_draft_graph : Card → QuizVersion → Content → Result Refusal Card
update_draft_graph card v d = do
  (questions, next, next_choice) ←
      update_questions v.questions card.next_question_pk card.next_choice_pk d.questions
  ok (record card {
    versions = replace_version (with_content v d questions) card.versions;
    next_question_pk = next;
    next_choice_pk = next_choice;
  })

abbrev pub first_some {ℓ} : {A : Type ℓ} → Option A → Option A → Option A
first_some (some a) b = some a
first_some none b = b

-- The branch of `save_quiz_content` that writes: into the draft, or a new one after the newest
-- fixed version.
unfoldable pub write_content :
    Card → Option QuizVersion → QuizVersion → Content → Result Refusal Card
write_content card (some v) base content = update_draft_graph card v content
write_content card none base content = ok (create_version_graph card (base.number + 1) content)

abbrev pub revised : Card → Card
revised card = record card {
  quiz = record (card.quiz) { content_revision = card.quiz.content_revision + 1 };
}

-- The end of `save_quiz_content`: content that is stored already is not written.
unfoldable pub store_content : Card → QuizVersion → Content → Result Refusal Card
store_content card base content =
    if same_content content (quiz_data base)
    then ok card
    else write_content card (locked_draft card) base content >>= λ written. ok (revised written)

unfoldable pub save_quiz_content :
    (ℕ → Bool) → Option Card → Actor → ℕ → Changes → Result Refusal Card
save_quiz_content is_space slot actor expected_revision changes = do
  card ← managed_card slot actor
  raise_if (is_some card.quiz.archived_at) quiz_archived
  raise_if (not (card.quiz.content_revision == expected_revision))
      (quiz_revision_conflict card.quiz.content_revision)
  base ← or_raise (first_some (locked_draft card) (latest_fixed card)) no_version
  content ← merge_content (some (quiz_data base)) changes
  validated is_space content
  store_content card base content

-- `_lock_quiz_sessions` with the open statuses finds a row.
abbrev pub has_open_session : Card → Bool
has_open_session card = any (λ s. not (is_over s.status)) card.sessions

abbrev pub archive_card : Card → ℕ → Result Refusal Card
archive_card card now =
    if is_some card.quiz.archived_at
    then ok card
    else if has_open_session card
    then err open_session
    else ok (record card { quiz = record (card.quiz) { archived_at = some now } })

unfoldable pub archive_quiz : Option Card → Actor → ℕ → Result Refusal Card
archive_quiz slot actor now = do card ← managed_card slot actor; archive_card card now

unfoldable pub restore_quiz : Option Card → Actor → Result Refusal Card
restore_quiz slot actor = do
  card ← managed_card slot actor
  ok (
      if is_none card.quiz.archived_at
      then card
      else record card { quiz = record (card.quiz) { archived_at = none } })

-- The card is gone, with its versions.
unfoldable pub delete_quiz : Option Card → Actor → Result Refusal (Option Card)
delete_quiz slot actor = do
  card ← managed_card slot actor
  raise_if (any (λ s. true) card.sessions) history_protected
  ok none

-- The loop of `LiveSession.save` over so many drawn pins, from the draw `i`. A pin that an open
-- session has is drawn again; any other failed insertion is raised.
unfoldable pub place_pin : (ℕ → ℕ) → List ℕ → Bool → ℕ → ℕ → Result Refusal ℕ
place_pin draws open_pins token_used zero i = err no_free_pin
place_pin draws open_pins token_used (suc left) i =
    let again = place_pin draws open_pins token_used left (suc i) in
    if any (λ p. p == draws i) open_pins
    then again
    else if token_used
    then err integrity_error
    else ok (draws i)

-- What a new session takes from outside: its moment, its token, the pins that are drawn, and what
-- other sessions have.
pub record Draw : Type 0 where
  pub now : ℕ
  pub join_token : ℕ
  pub pins : ℕ → ℕ
  pub open_pins : List ℕ
  pub used_tokens : List ℕ

abbrev pub new_session : Card → QuizVersion → Actor → Text → Draw → ℕ → LiveSession
new_session card v actor host_name draw pin = record {
  pk = card.next_session_pk;
  origin = record {
    quiz_version_id = v.pk;
    created_by_id = actor.pk;
    join_token = draw.join_token;
    pin = pin;
    created_at = draw.now;
    gameplay_schema = v2;
  };
  host_name = host_name;
  status = waiting;
  phase = lobby;
  state_revision = 0;
  current_question_id = none;
  current_run_id = none;
  revealed_question_id = none;
  phase_started_at = none;
  question_started_at = none;
  started_at = none;
  finished_at = none;
}

abbrev pub fixed_at_moment : QuizVersion → ℕ → QuizVersion
fixed_at_moment v now = record v { status = fixed; fixed_at = some now }

abbrev pub fix_draft : (ℕ → Bool) → Card → QuizVersion → ℕ → Result Refusal (Card × QuizVersion)
fix_draft is_space card v now = do
  validated is_space (quiz_data v)
  let v' = fixed_at_moment v now
  ok (record card { versions = replace_version v' card.versions }, v')

-- The version that the session plays: the newest fixed one, unless a draft differs from it.
unfoldable pub select_version :
    (ℕ → Bool)
    → Card
    → Option QuizVersion
    → Option QuizVersion
    → ℕ
    → Result Refusal (Card × QuizVersion)
select_version is_space card none none now = err no_version
select_version is_space card none (some f) now = ok (card, f)
select_version is_space card (some d) none now = fix_draft is_space card d now
select_version is_space card (some d) (some f) now =
    if same_content (quiz_data d) (quiz_data f) then ok (card, f) else fix_draft is_space card d now

unfoldable pub create_live_session :
    (ℕ → Bool) → Option Card → Actor → Text → Draw → Result Refusal (Card × LiveSession)
create_live_session is_space slot actor host_name draw = do
  card ← managed_card slot actor
  raise_if (is_some card.quiz.archived_at) quiz_archived
  (card', selected) ← select_version is_space card (locked_draft card) (latest_fixed card) draw.now
  pin ← place_pin draw.pins draw.open_pins (any (λ t. t == draw.join_token) draw.used_tokens) 20 0
  let session = new_session card' selected actor host_name draw pin
  ok (
    record card' {
      sessions = session ∷ card'.sessions;
      next_session_pk = suc card'.next_session_pk;
    },
    session,
  )
