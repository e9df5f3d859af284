-- ===== src/Session/Access/Tests.antt =====
-- One waiting session that a user joins, and a display.
use umclick.Common.{
  ℕ, zero, suc, ◌==◌, ◌≡◌, ◌↔◌, refl, true, false, none, some, [], ◌∷◌, length, ok, arith,
}
use umclick.Quiz.Model.{Text}
use umclick.Session.Games.{session}
use umclick.Session.Access.{
  TokenKind, participant, display, Participation, DisplayAccess, Registry, Outside, JoinData,
  resolve_access, resolve_join_session, join_session, is_valid, AccessError, registration_closed,
}
use umclick.Session.Access.Return.{access_of, join_session-resolves}
use umclick.Session.Access.Display.{display_access, resolve_access-is_valid}

abbrev fill : ℕ → Text
fill zero = []
fill (suc n) = 1 ∷ fill n

abbrev out : Outside
out = record {
  token_digest = λ kind secret. length secret;
  is_space = λ c. c == b' ';
  privacy_version = 1 ∷ [];
  personal_version = 2 ∷ [];
}

abbrev screen : DisplayAccess
screen = record { id = 4; session_id = 1; token_digest = 50; revoked_at = none }

abbrev before : Registry
before = record {
  sessions = session ∷ [];
  people = [];
  participations = [];
  displays = screen ∷ [];
  next_person_pk = 1;
  next_participation_pk = 1;
}

abbrev request : JoinData
request = record {
  pin = 123_456;
  join_token = none;
  name = some (b'A' ∷ []);
  phone = none;
  consent = false;
}

abbrev mine : Participation
mine = record {
  session_id = 1;
  row = record { pk = 1; participant_id = 1; token_digest = 43; name_snapshot = b'A' ∷ [] };
}

abbrev joined : Registry
joined = record {
  sessions = session ∷ [];
  people =
      record {
        pk = 1;
        user_id = some 9;
        name = b'A' ∷ [];
        phone = none;
        consent = false;
        consent_given_at = none;
        privacy_policy_version = [];
        personal_data_consent_version = [];
      }
      ∷ [];
  participations = mine ∷ [];
  displays = screen ∷ [];
  next_person_pk = 2;
  next_participation_pk = 2;
}

joined_test :
    join_session out before before none (some 9) request (fill 43) 7
    ≡ ok (joined, mine, some (fill 43))
unfolding join_session resolve_join_session umclick.Session.Access.insert_participation
joined_test = refl

join_session-resolves_example :
    (some (fill 43) ≡ some (fill 43))
    × (resolve_access out joined participant (fill 43) 8 ≡ ok (access_of mine))
join_session-resolves_example =
    join_session-resolves out before before (some 9) request (fill 43) 7 joined mine
      (some (fill 43)) joined_test 8 (omega arith) (omega arith)

resolve_access-is_valid_example :
    (resolve_access out before display (fill 50) 8 ≡ ok (display_access screen))
    ↔ (is_valid screen session 8 ≡ true)
resolve_access-is_valid_example =
    resolve_access-is_valid out before (fill 50) screen session 8 (omega arith) (omega arith) refl
      refl
