-- ===== src/Session/Access.antt =====
-- Joining a session and presenting a token: backend/apps/session/participation.py and access.py, with
-- `save` of Participant and SessionParticipant in backend/apps/session/models.py.
pub mod Joined
pub mod Return
pub mod Display
mod Tests
use mathlib.Core.List.{reverse}
use umclick.Common.{
  ℕ, suc, ◌+◌, ◌==◌, leb, option_eq, if◌then◌else◌, Bool, true, false, not, ◌&&◌, ◌||◌, Option,
  none, some, List, [], ◌∷◌, length, any, find, is_none, is_some, Result, ok, err, ◌>>=◌, ◌>>◌,
  raise_if, or_raise,
}
use umclick.Quiz.Model.{Text}
use umclick.Quiz.Validation.{is_blank}
use umclick.Session.Model.{LiveSession, SessionParticipant, waiting, live, is_over, status_is}

pub data TokenKind : Type 0 where
  participant display : TokenKind

abbrev pub is_participant : TokenKind → Bool
is_participant k = elim k [ participant ↦ true | display ↦ false ]

-- The columns of `Participant`.
pub record Person : Type 0 where
  pub pk : ℕ
  pub user_id : Option ℕ
  pub name : Text
  pub phone : Option Text
  pub consent : Bool
  pub consent_given_at : Option ℕ
  pub privacy_policy_version : Text
  pub personal_data_consent_version : Text

-- A row of `SessionParticipant`, with its session.
pub record Participation : Type 0 where
  pub session_id : ℕ
  pub row : SessionParticipant
  pub open row use *

pub record DisplayAccess : Type 0 where
  pub id : ℕ
  pub session_id : ℕ
  pub token_digest : ℕ
  pub revoked_at : Option ℕ

-- The stored rows, and the next keys that the database gives out.
pub record Registry : Type 0 where
  pub sessions : List LiveSession
  pub people : List Person
  pub participations : List Participation
  pub displays : List DisplayAccess
  pub next_person_pk : ℕ
  pub next_participation_pk : ℕ

pub record ScopedAccess : Type 0 where
  pub kind : TokenKind
  pub record_id : ℕ
  pub session_id : ℕ

pub data AccessError : Type 0 where
  access_invalid access_revoked access_expired : AccessError
  session_not_found authentication_failed : AccessError
  -- the two conflicts of `join_session`
  already_registered registration_closed : AccessError
  name_required does_not_exist history_conflict integrity_error : AccessError

-- What stands outside: the digest of a token, `str.isspace`, and the versions of the legal texts.
pub record Outside : Type 0 where
  pub token_digest : TokenKind → Text → ℕ
  pub is_space : ℕ → Bool
  pub privacy_version : Text
  pub personal_version : Text

-- `timedelta(hours=1)` in microseconds
abbrev pub display_period : ℕ
display_period = 3_600_000_000

abbrev pub find_session : Registry → ℕ → Option LiveSession
find_session reg k = find (λ (s : LiveSession). s.pk == k) reg.sessions

abbrev pub over_since : Option ℕ → ℕ → Bool
over_since none now = false
over_since (some t) now = leb (t + display_period) now

abbrev pub display_expired : LiveSession → ℕ → Bool
display_expired s now = (is_over s.status && is_none s.finished_at) || over_since s.finished_at now

-- `SessionDisplayAccess.is_valid`
unfoldable pub is_valid : DisplayAccess → LiveSession → ℕ → Bool
is_valid d s now =
    if is_over s.status && is_none s.finished_at
    then false
    else is_none d.revoked_at && (is_none s.finished_at || not (over_since s.finished_at now))

abbrev pub resolve_display : Registry → DisplayAccess → ℕ → Result AccessError ScopedAccess
resolve_display reg d now = do
  raise_if (is_some d.revoked_at) access_revoked
  session ← or_raise (find_session reg d.session_id) does_not_exist
  raise_if (display_expired session now) access_expired
  ok (record { kind = display; record_id = d.id; session_id = d.session_id })

abbrev pub resolve_digest : Registry → TokenKind → ℕ → ℕ → Result AccessError ScopedAccess
resolve_digest reg participant digest now = do
  p ←
      or_raise (find (λ (p : Participation). p.token_digest == digest) reg.participations)
        access_invalid
  ok (record { kind = participant; record_id = p.pk; session_id = p.session_id })
resolve_digest reg display digest now = do
  d ← or_raise (find (λ (d : DisplayAccess). d.token_digest == digest) reg.displays) access_invalid
  resolve_display reg d now

unfoldable pub resolve_access :
    Outside → Registry → TokenKind → Text → ℕ → Result AccessError ScopedAccess
resolve_access out reg kind secret now = do
  raise_if (not (leb 40 (length secret) && leb (length secret) 128)) access_invalid
  resolve_digest reg kind (out.token_digest kind secret) now

-- What a request to join brings. A missing field is `none`.
pub record JoinData : Type 0 where
  pub pin : ℕ
  pub join_token : Option ℕ
  pub name : Option Text
  pub phone : Option Text
  pub consent : Bool

unfoldable pub resolve_join_session : Registry → JoinData → Result AccessError LiveSession
resolve_join_session reg request = or_raise (found request.join_token) session_not_found
  where
    found : Option ℕ → Option LiveSession
    found (some token) = find (λ (s : LiveSession). s.join_token == token) reg.sessions
    found none =
        find (λ (s : LiveSession). s.pin == request.pin && not (is_over s.status)) reg.sessions

abbrev pub strip_left : (ℕ → Bool) → Text → Text
strip_left is_space [] = []
strip_left is_space (c ∷ cs) =
    let rest = strip_left is_space cs in if is_space c then rest else c ∷ cs

-- `str.strip`
abbrev pub strip : (ℕ → Bool) → Text → Text
strip is_space text = reverse (strip_left is_space (reverse (strip_left is_space text)))

abbrev pub none_if_empty : Text → Option Text
none_if_empty [] = none
none_if_empty (c ∷ cs) = some (c ∷ cs)

-- `(phone or '').strip() or None`
abbrev pub stored_phone : Outside → Option Text → Option Text
stored_phone out none = none
stored_phone out (some phone) = none_if_empty (strip out.is_space phone)

abbrev pub new_person : Outside → Registry → Option ℕ → JoinData → Text → ℕ → Person
new_person out reg user request name now = record {
  pk = reg.next_person_pk;
  user_id = user;
  name = name;
  phone = stored_phone out request.phone;
  consent = request.consent;
  consent_given_at = if request.consent then some now else none;
  privacy_policy_version = if request.consent then out.privacy_version else [];
  personal_data_consent_version = if request.consent then out.personal_version else [];
}

abbrev pub with_person : Registry → Person → Registry
with_person reg p = record reg { people = p ∷ reg.people; next_person_pk = suc reg.next_person_pk }

abbrev pub person_of : Registry → Option ℕ → Option Person
person_of reg none = none
person_of reg (some u) = find (λ (p : Person). option_eq p.user_id (some u)) reg.people

-- `get_or_create` for a user, `create` for anybody else
abbrev pub profile : Outside → Registry → Option ℕ → JoinData → Text → ℕ → Registry × Person
profile out reg user request name now = elim (person_of reg user) [
  | some p ↦ (reg, p)
  | none ↦ (
    with_person reg (new_person out reg user request name now),
    new_person out reg user request name now,
  )
]

-- Somebody who has a participation in the session has this account.
abbrev pub is_registered : Registry → ℕ → Option ℕ → Bool
is_registered reg session_id none = false
is_registered reg session_id (some u) =
    any
      (λ (p : Participation).
        p.session_id == session_id
        && any (λ (q : Person). q.pk == p.participant_id && option_eq q.user_id (some u))
            reg.people)
      reg.participations

abbrev pub digest_used : Registry → ℕ → Bool
digest_used reg digest = any (λ (p : Participation). p.token_digest == digest) reg.participations

abbrev pub seat_taken : Registry → ℕ → ℕ → Bool
seat_taken reg session_id participant_id =
    any (λ (p : Participation). p.session_id == session_id && p.participant_id == participant_id)
      reg.participations

-- `SessionParticipant.save` of a new row, with the constraints of its table. A digest has 64 digits.
unfoldable pub insert_participation :
    Outside → Registry → LiveSession → Participation → Result AccessError Registry
insert_participation out reg session p = do
  raise_if (not (status_is waiting session.status)) history_conflict
  raise_if (is_blank out.is_space p.name_snapshot) history_conflict
  raise_if (digest_used reg p.token_digest || seat_taken reg p.session_id p.participant_id)
      integrity_error
  ok (record reg {
    participations = p ∷ reg.participations;
    next_participation_pk = suc reg.next_participation_pk;
  })

abbrev pub required_name : Option Text → Result AccessError Text
required_name none = err name_required
required_name (some []) = err name_required
required_name (some (c ∷ cs)) = ok (c ∷ cs)

-- A request that carries a token of access.
abbrev pub join_again :
    Registry
    → LiveSession
    → ScopedAccess
    → Result AccessError (Registry × Participation × Option Text)
join_again reg session access = do
  raise_if (not (is_participant access.kind) || not (access.session_id == session.pk))
      authentication_failed
  p ←
      or_raise (find (λ (p : Participation). p.pk == access.record_id) reg.participations)
        does_not_exist
  ok (reg, p, none)

abbrev pub new_participation :
    Outside → Registry → LiveSession → Person → Text → Text → Participation
new_participation out reg session p name secret = record {
  session_id = session.pk;
  row = record {
    pk = reg.next_participation_pk;
    participant_id = p.pk;
    token_digest = out.token_digest participant secret;
    name_snapshot = name;
  };
}

-- A request without one; `secret` is what `issue_secret` draws.
abbrev pub join_first :
    Outside
    → Registry
    → LiveSession
    → Option ℕ
    → JoinData
    → Text
    → ℕ
    → Result AccessError (Registry × Participation × Option Text)
join_first out reg session user request secret now = do
  raise_if (is_registered reg session.pk user) already_registered
  raise_if (not (status_is waiting session.status)) registration_closed
  name ← required_name request.name
  let (with_profile, person) = profile out reg user request name now
  let p = new_participation out with_profile session person name secret
  after ← insert_participation out with_profile session p
  ok (after, p, some secret)

-- The session is resolved before it is locked: `seen` is what that reading saw.
unfoldable pub join_session :
    Outside
    → Registry
    → Registry
    → Option ScopedAccess
    → Option ℕ
    → JoinData
    → Text
    → ℕ
    → Result AccessError (Registry × Participation × Option Text)
join_session out seen reg none user request secret now = do
  found ← resolve_join_session seen request
  session ← or_raise (find_session reg found.pk) does_not_exist
  join_first out reg session user request secret now
join_session out seen reg (some access) user request secret now = do
  found ← resolve_join_session seen request
  session ← or_raise (find_session reg found.pk) does_not_exist
  join_again reg session access
