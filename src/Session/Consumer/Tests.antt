-- ===== src/Session/Consumer/Tests.antt =====
-- A participant and a host who watch a session.
use umclick.Common.{
  ◌==◌, ◌≤◌, ◌≡◌, refl, subst, find, true, false, none, some, List, [], ◌∷◌, length, All, count_if,
}
use umclick.Quiz.Model.{Text}
use umclick.Quiz.Card.{Actor}
use umclick.Core.Leases.{Decision}
use umclick.Session.Games.{answering_game}
use umclick.Session.Access.{participant, Outside}
use umclick.Session.Views.Questions.{Outlook}
use umclick.Session.Views.States.{build_account_session_state}
use umclick.Session.Views.Participant.{build_participant_session_state}
use umclick.Session.Consumer.{
  account, scoped, Claim, auth_timeout, AccountToken, Database, Services, Snapshot,
  participant_snapshot, account_snapshot, Grant, granted, state_if_allowed, access_is_allowed,
}
use umclick.Session.Consumer.Connection.{
  connection_error, session_state, close_with_error, finish_closing, disconnect,
}
use umclick.Session.Consumer.Handlers.{
  decided, auth, known, connect, receive, receive_json, state_read, lease_answered, state_reread,
  wait_for_auth, expire_access,
}
use umclick.Session.Consumer.Steps.{
  Step, frame, first_reading, second_reading, expiry, lease_answer, deadline, finishing, World,
  step, steps,
}
use umclick.Session.Consumer.Sound.{IsAllowed, is_error, is_opened, is_released}
use umclick.Session.Consumer.Runs.{steps-MaySee}
use umclick.Session.Consumer.Once.{steps-once}
use umclick.Session.Consumer.Watched.{NamesStored, access_is_allowed-granted}

abbrev secret : Text
secret =
    1 ∷ 1 ∷ 1 ∷ 1 ∷ 1 ∷ 1 ∷ 1 ∷ 1 ∷ 1 ∷ 1 ∷ 1 ∷ 1 ∷ 1 ∷ 1 ∷ 1 ∷ 1 ∷ 1 ∷ 1 ∷ 1 ∷ 1 ∷ 1 ∷ 1 ∷ 1 ∷ 1
    ∷ 1 ∷ 1 ∷ 1 ∷ 1 ∷ 1 ∷ 1 ∷ 1 ∷ 1 ∷ 1 ∷ 1 ∷ 1 ∷ 1 ∷ 1 ∷ 1 ∷ 1 ∷ 1 ∷ []

abbrev outlook : Outlook
outlook = record {
  positions = λ session question token n. 1 ∷ 0 ∷ [];
  percent = λ part whole. part;
  legacy_answers = [];
}

abbrev host : Actor
host = record {
  pk = 2;
  is_authenticated = true;
  is_active = true;
  is_staff = false;
  in_teachers = true;
}

abbrev host_token : AccountToken
host_token = record { user_id = 2; exp = 99_000_000 }

-- The digest of every secret is that of the player; every token is that of the host.
abbrev services : Services
services = record {
  outlook = outlook;
  outside = record {
    token_digest = λ kind secret. 500;
    is_space = λ c. false;
    privacy_version = [];
    personal_version = [];
  };
  get_validated_token = λ secret now. some host_token;
  get_user = λ users token. some host;
}

abbrev database : Database
database = record {
  games = answering_game ∷ [];
  quizzes = record { pk = 3; owner_id = 2; archived_at = none; content_revision = 1 } ∷ [];
  users = host ∷ [];
  displays = [];
}

abbrev world : World
world = record { session_uuid = 77; services = services; limits = true; database = λ now. database }

abbrev yes_decision : Decision
yes_decision = record { allowed = true; reason = none; retry_after = none }

abbrev player_claim : Claim
player_claim = record { access_type = scoped participant; secret = secret }

abbrev player_grant : Grant
player_grant = record { record_id = 5; expires_at = none; session_id = 1 }

abbrev player_snapshot : Snapshot
player_snapshot =
    participant_snapshot (build_participant_session_state outlook answering_game (some 5))

player_reading :
    state_if_allowed services database 7 77 player_claim ≡ granted player_grant player_snapshot
unfolding state_if_allowed umclick.Session.Access.resolve_access
player_reading = refl

abbrev host_claim : Claim
host_claim = record { access_type = account; secret = secret }

abbrev host_grant : Grant
host_grant = record { record_id = 2; expires_at = some 99_000_000; session_id = 1 }

abbrev host_snapshot : Snapshot
host_snapshot = account_snapshot (build_account_session_state outlook answering_game)

host_reading : state_if_allowed services database 7 77 host_claim ≡ granted host_grant host_snapshot
unfolding state_if_allowed
host_reading = refl

-- A client that every check lets through.
abbrev let_in : List Step
let_in =
    frame 60 (some (decided yes_decision)) (auth (known (scoped participant)) (some secret))
    ∷ first_reading 7
    ∷ lease_answer (some (decided yes_decision))
    ∷ second_reading 7
    ∷ []

-- It is sent the snapshot.
shown_where :
    (w : World)
    → state_if_allowed w.services (w.database 7) 7 w.session_uuid player_claim
      ≡ granted player_grant player_snapshot
    → (steps w let_in (connect (some (decided yes_decision)))).sent
      ≡ session_state player_snapshot ∷ []
unfolding steps step connect receive receive_json state_read lease_answered state_reread
shown_where w h = rw (h, h) refl

let_in_test :
    (steps world let_in (connect (some (decided yes_decision)))).sent
    ≡ session_state player_snapshot ∷ []
let_in_test = shown_where world player_reading

-- Only this claim is made.
abbrev IsPlayer : Claim → Type 0
IsPlayer claim = claim ≡ player_claim

steps-MaySee_example :
    All (IsAllowed world IsPlayer) (steps world let_in (connect (some (decided yes_decision)))).sent
steps-MaySee_example =
    steps-MaySee world IsPlayer (some (decided yes_decision)) let_in (refl, (tt, (tt, (tt, tt))))

steps-once_example :
    (count_if is_error (steps world let_in (connect (some (decided yes_decision)))).sent ≤ 1)
    × (length (steps world let_in (connect (some (decided yes_decision)))).closed
        ≤ count_if is_error (steps world let_in (connect (some (decided yes_decision)))).sent)
    × (count_if is_opened
          (disconnect (steps world let_in (connect (some (decided yes_decision))))).calls
        ≡ count_if is_released
            (disconnect (steps world let_in (connect (some (decided yes_decision))))).calls)
steps-once_example = steps-once world (some (decided yes_decision)) let_in

same_host : (user : Actor) → some host ≡ some user → host ≡ user
same_host user e = cc

named : NamesStored services database
named token user e =
    subst (λ u. find (λ (x : Actor). x.pk == u.pk) database.users ≡ some u) (same_host user e) refl

access_is_allowed-granted_example :
    access_is_allowed services database 7 host_claim host_grant ≡ none
access_is_allowed-granted_example =
    access_is_allowed-granted services database 7 77 host_claim host_grant host_snapshot named
      host_reading

-- The time for the first message ends while the lease is on its way: the client is told so, and then
-- it is let in, which cancels the task that was about to close the connection. From then on nothing
-- closes it: here the time of the access ends without an effect.
abbrev late : List Step
late =
    frame 60 (some (decided yes_decision)) (auth (known account) (some secret))
    ∷ first_reading 7
    ∷ deadline
    ∷ lease_answer (some (decided yes_decision))
    ∷ second_reading 7
    ∷ expiry 99_000_000
    ∷ finishing
    ∷ []

late_test :
    (let c = steps world late (connect (some (decided yes_decision))) in
      (c.sent ≡ session_state host_snapshot ∷ connection_error auth_timeout none ∷ [])
      × (c.authorized ≡ true)
      × (c.closing ≡ true)
      × (c.closed ≡ [])
      × (c.open_lease_acquired ≡ true))
unfolding steps step connect receive receive_json state_read lease_answered state_reread
    state_if_allowed wait_for_auth expire_access finish_closing close_with_error
late_test = (refl, refl, refl, refl, refl)
