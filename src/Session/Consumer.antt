-- ===== src/Session/Consumer.antt =====
-- backend/apps/session/consumers.py: the connection of one client to the snapshots of a session.
-- This file has the rows it reads and the two checks of its access.
pub mod Connection
pub mod Handlers
pub mod Steps
pub mod Entitled
pub mod Sound
pub mod Always
pub mod Runs
pub mod Once
pub mod Watched
mod Tests
use umclick.Common.{
  ℕ, ◌+◌, ◌==◌, leb, if◌then◌else◌, Bool, true, false, not, ◌&&◌, ◌||◌, Option, none, some, List,
  [], ◌∷◌, ◌++◌, map, any, find, is_none, is_some, Result, ok, err,
}
use umclick.Quiz.Model.{Text}
use umclick.Quiz.Card.{Actor, Quiz, can_manage_quiz}
use umclick.Session.Model.{Game, LiveSession, is_over}
use umclick.Session.Access.{
  TokenKind, participant, display, Participation, DisplayAccess, Registry, ScopedAccess,
  AccessError, access_invalid, access_revoked, access_expired, Outside, display_period, over_since,
  resolve_access,
}
use umclick.Core.Leases.{Reason}
use umclick.Session.Views.Questions.{Outlook}
use umclick.Session.Views.States.{
  AccountState, DisplayState, build_account_session_state, build_display_session_state,
}
use umclick.Session.Views.Participant.{ParticipantState, build_participant_session_state}

pub data AccessType : Type 0 where
  account : AccessType
  scoped : TokenKind → AccessType

-- What the first message claims.
pub record Claim : Type 0 where
  pub access_type : AccessType
  pub secret : Text

-- The codes of `error_messages`; those of an access and of a lease are their own.
pub data CloseReason : Type 0 where
  protocol_error auth_timeout access_malformed access_scope_mismatch message_too_large : CloseReason
  access_failed : AccessError → CloseReason
  limited : Reason → CloseReason

-- The fields of a token of an account that count.
pub record AccountToken : Type 0 where
  pub user_id : ℕ
  pub exp : ℕ

-- The stored rows.
pub record Database : Type 0 where
  pub games : List Game
  pub quizzes : List Quiz
  pub users : List Actor
  pub displays : List DisplayAccess

-- What stands outside: the tokens of accounts at a moment, and the users they name.
pub record Services : Type 0 where
  pub outlook : Outlook
  pub outside : Outside
  pub get_validated_token : Text → ℕ → Option AccountToken
  pub get_user : List Actor → AccountToken → Option Actor

abbrev pub participations_of : List Game → List Participation
participations_of [] = []
participations_of (g ∷ gs) =
    map (λ p. record { session_id = g.session.pk; row = p }) g.participants ++ participations_of gs

-- The rows that `resolve_access` reads.
abbrev pub registry : Database → Registry
registry db = record {
  sessions = map (λ g. g.session) db.games;
  people = [];
  participations = participations_of db.games;
  displays = db.displays;
  next_person_pk = 0;
  next_participation_pk = 0;
}

pub data Snapshot : Type 0 where
  account_snapshot : AccountState → Snapshot
  participant_snapshot : ParticipantState → Snapshot
  display_snapshot : DisplayState → Snapshot

-- What `_state_if_allowed` notes down: `access_record_id`, `access_expires_at` and `session_id`.
pub record Grant : Type 0 where
  pub record_id : ℕ
  pub expires_at : Option ℕ
  pub session_id : ℕ

-- An exception that it does not catch is `raised`.
pub data Reading : Type 0 where
  granted : Grant → Snapshot → Reading
  refused : CloseReason → Reading
  raised : AccessError → Reading

abbrev pub quiz_of : Database → Game → Option Quiz
quiz_of db g = find (λ (q : Quiz). q.pk == g.version.quiz_id) db.quizzes

-- `can_manage_session`
abbrev pub can_manage_session : Actor → Option Quiz → Bool
can_manage_session user none = false
can_manage_session user (some quiz) = can_manage_quiz user quiz

abbrev pub account_reading : Services → Database → Game → AccountToken → Option Actor → Reading
account_reading sv db g token none = refused (access_failed access_invalid)
account_reading sv db g token (some user) =
    if can_manage_session user (quiz_of db g)
    then granted
        (record { record_id = user.pk; expires_at = some token.exp; session_id = g.session.pk })
        (account_snapshot (build_account_session_state sv.outlook g))
    else refused access_scope_mismatch

abbrev pub token_reading : Services → Database → Game → Option AccountToken → Reading
token_reading sv db g none = refused (access_failed access_invalid)
token_reading sv db g (some token) = account_reading sv db g token (sv.get_user db.users token)

-- `session.finished_at + timedelta(hours=1)` of a display
abbrev pub expiry_of : TokenKind → Option ℕ → Option ℕ
expiry_of participant finished_at = none
expiry_of display none = none
expiry_of display (some t) = some (t + display_period)

abbrev pub scoped_snapshot : Services → TokenKind → Game → ℕ → Snapshot
scoped_snapshot sv participant g record_id =
    participant_snapshot (build_participant_session_state sv.outlook g (some record_id))
scoped_snapshot sv display g record_id = display_snapshot (build_display_session_state sv.outlook g)

-- `AccessAuthenticationFailed` is caught; nothing else that `resolve_access` raises is.
abbrev pub failed_reading : AccessError → Reading
failed_reading access_invalid = refused (access_failed access_invalid)
failed_reading access_revoked = refused (access_failed access_revoked)
failed_reading access_expired = refused (access_failed access_expired)
failed_reading e = raised e

abbrev pub scoped_reading : Services → TokenKind → Game → Result AccessError ScopedAccess → Reading
scoped_reading sv kind g (err e) = failed_reading e
scoped_reading sv kind g (ok access) =
    if access.session_id == g.session.pk
    then granted
        (record {
          record_id = access.record_id;
          expires_at = expiry_of kind g.session.finished_at;
          session_id = g.session.pk;
        })
        (scoped_snapshot sv kind g access.record_id)
    else refused access_scope_mismatch

abbrev pub claimed_reading : Services → Database → ℕ → Text → Game → AccessType → Reading
claimed_reading sv db now secret g account =
    token_reading sv db g (sv.get_validated_token secret now)
claimed_reading sv db now secret g (scoped kind) =
    scoped_reading sv kind g (resolve_access sv.outside (registry db) kind secret now)

abbrev pub reading_of : Services → Database → ℕ → Claim → Option Game → Reading
reading_of sv db now claim none = refused access_scope_mismatch
reading_of sv db now claim (some g) = claimed_reading sv db now claim.secret g claim.access_type

-- `_state_if_allowed`
unfoldable pub state_if_allowed : Services → Database → ℕ → ℕ → Claim → Reading
state_if_allowed sv db now session_uuid claim =
    reading_of sv db now claim (find (λ (g : Game). g.session.join_token == session_uuid) db.games)

-- The query for an active user who is an administrator, or a teacher with a quiz of this session.
abbrev pub manages : Database → ℕ → Actor → Bool
manages db session_id user =
    user.is_active
    && (user.is_staff
        || (user.in_teachers
            && any
                (λ (g : Game).
                  g.session.pk == session_id
                  && any (λ (q : Quiz). q.pk == g.version.quiz_id && q.owner_id == user.pk)
                      db.quizzes)
                db.games))

abbrev pub account_allowed : Database → Grant → Option AccountToken → Option CloseReason
account_allowed db grant none = some (access_failed access_invalid)
account_allowed db grant (some token) =
    if any (λ (u : Actor). u.pk == grant.record_id && manages db grant.session_id u) db.users
    then none
    else some access_scope_mismatch

-- A display row that was found, with its session.
abbrev pub display_allowed : DisplayAccess → Option LiveSession → ℕ → Option CloseReason
display_allowed d none now = some (access_failed access_invalid)
display_allowed d (some s) now =
    if is_some d.revoked_at
    then some (access_failed access_revoked)
    else if is_over s.status && (is_none s.finished_at || over_since s.finished_at now)
    then some (access_failed access_expired)
    else none

abbrev pub display_row_allowed : Database → Grant → Option DisplayAccess → ℕ → Option CloseReason
display_row_allowed db grant none now = some (access_failed access_invalid)
display_row_allowed db grant (some d) now =
    display_allowed d
      (find (λ (s : LiveSession). s.pk == d.session_id) (map (λ g. g.session) db.games)) now

abbrev pub claim_allowed : Services → Database → ℕ → Text → Grant → AccessType → Option CloseReason
claim_allowed sv db now secret grant account =
    account_allowed db grant (sv.get_validated_token secret now)
claim_allowed sv db now secret grant (scoped participant) =
    if any
      (λ (p : Participation).
        p.pk == grant.record_id
        && p.session_id == grant.session_id
        && p.token_digest == sv.outside.token_digest participant secret)
      (participations_of db.games)
    then none
    else some (access_failed access_invalid)
claim_allowed sv db now secret grant (scoped display) =
    display_row_allowed db grant
      (find
        (λ (d : DisplayAccess).
          d.id == grant.record_id
          && d.session_id == grant.session_id
          && d.token_digest == sv.outside.token_digest display secret)
        db.displays)
      now

-- `_access_is_allowed`: `none`, or the reason that it notes down.
unfoldable pub access_is_allowed : Services → Database → ℕ → Claim → Grant → Option CloseReason
access_is_allowed sv db now claim grant =
    claim_allowed sv db now claim.secret grant claim.access_type
