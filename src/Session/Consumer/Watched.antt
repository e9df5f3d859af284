-- ===== src/Session/Consumer/Watched.antt =====
-- The two checks of an access: the one that reads a snapshot, and the one that is repeated.
use umclick.Common.{
  ℕ, ◌==◌, ◌≡◌, refl, sym, subst, ap, ◌∙◌, Bool, true, false, ◌&&◌, ◌||◌, Option, none, some, find,
  find-test, any-find, find-narrow, eq_same, Bool-cases, inl, inr, Result, ok, err, arith, Returns,
}
use umclick.Quiz.Card.{Actor, Quiz}
use umclick.Session.Model.{Game, LiveSession}
use umclick.Session.Access.{
  TokenKind, participant, display, Participation, DisplayAccess, ScopedAccess, AccessError,
  is_valid, resolve_access,
}
use umclick.Session.Consumer.{
  AccessType, account, scoped, Claim, AccountToken, Database, Services, participations_of, registry,
  expiry_of, Snapshot, Grant, granted, quiz_of, can_manage_session, account_reading, token_reading,
  scoped_reading, claimed_reading, reading_of, state_if_allowed, manages, display_allowed,
  claim_allowed, access_is_allowed,
}
use umclick.Session.Consumer.Entitled.{
  Allows, failed_reading-Allows, Resolved, resolve_access-Resolved,
}

all_three : (a b c : Bool) → a ≡ true → b ≡ true → c ≡ true → (a && b && c) ≡ true
all_three a b c ha hb hc = rw (ha, hb, hc) refl

not_third : (a b c : Bool) → c ≡ false → (a && b && c) ≡ false
not_third a b c h = ground (arith, h)

-- The administrator and the teacher with a quiz, in the two ways of asking for them.
manages_either :
    (authenticated active staff teacher owner found : Bool)
    → ((authenticated && active && staff) || (authenticated && active && teacher && owner)) ≡ true
    → (owner ≡ true → found ≡ true)
    → (active && (staff || (teacher && found))) ≡ true
manages_either authenticated active staff teacher owner found h k = ground (arith, h, k)

-- What the rows of a valid display say to the second check.
display_allowed-is_valid :
    (d : DisplayAccess) (s : LiveSession) (now : ℕ)
    → is_valid d s now ≡ true
    → display_allowed d (some s) now ≡ none
unfolding is_valid
display_allowed-is_valid d s now h = ground (arith, h)

-- A user that the service names for a token is the first stored one with its key.
abbrev pub NamesStored : Services → Database → Type 0
NamesStored sv db =
    (token : AccountToken) (user : Actor)
    → sv.get_user db.users token ≡ some user
    → find (λ (u : Actor). u.pk == user.pk) db.users ≡ some user

module _ (sv : Services) (db : Database) (now session_uuid : ℕ) (claim : Claim) where
  abbrev Passes : AccessType → Grant → Type 0
  Passes type grant = claim_allowed sv db now claim.secret grant type ≡ none

  participant-Passes :
      (g : Game) (access : ScopedAccess)
      → Resolved sv db now session_uuid claim participant access
      → (access.session_id == g.session.pk) ≡ true
      → (expires : Option ℕ)
      → Passes
          (scoped participant)
          (record { record_id = access.record_id; expires_at = expires; session_id = g.session.pk })
  participant-Passes g access (p, found, is_p) here expires =
      rw
        (any-find
          (λ (p : Participation).
            p.token_digest == sv.outside.token_digest participant claim.secret)
          (λ (p : Participation).
            p.pk == access.record_id
            && p.session_id == g.session.pk
            && p.token_digest == sv.outside.token_digest participant claim.secret)
          (participations_of db.games) p found
          (all_three _ _ _ (eq_same p.pk access.record_id (ap (λ a. a.record_id) (sym is_p)))
            (ap (λ a. a.session_id == g.session.pk) (sym is_p) ∙ here)
            (find-test
              (λ (p : Participation).
                p.token_digest == sv.outside.token_digest participant claim.secret)
              (participations_of db.games) p found)))
        refl

  display-Passes :
      (g : Game) (access : ScopedAccess)
      → Resolved sv db now session_uuid claim display access
      → (access.session_id == g.session.pk) ≡ true
      → (expires : Option ℕ)
      → Passes
          (scoped display)
          (record { record_id = access.record_id; expires_at = expires; session_id = g.session.pk })
  display-Passes g access (d, s, found, stored, valid, is_d) here expires =
      rw
        (
          find-narrow
              (λ (d : DisplayAccess).
                d.token_digest == sv.outside.token_digest display claim.secret)
              (λ (d : DisplayAccess).
                d.id == access.record_id
                && d.session_id == g.session.pk
                && d.token_digest == sv.outside.token_digest display claim.secret)
              db.displays d
              (λ d h. not_third (d.id == access.record_id) (d.session_id == g.session.pk) _ h) found
              (all_three _ _ _ (eq_same d.id access.record_id (ap (λ a. a.record_id) (sym is_d)))
                (ap (λ a. a.session_id == g.session.pk) (sym is_d) ∙ here)
                (find-test
                  (λ (d : DisplayAccess).
                    d.token_digest == sv.outside.token_digest display claim.secret)
                  db.displays d found)),
          stored,
        )
        (display_allowed-is_valid d s now valid)

  account-Passes :
      (g : Game) (token : AccountToken) (user : Actor)
      → find (λ (g : Game). g.session.join_token == session_uuid) db.games ≡ some g
      → sv.get_validated_token claim.secret now ≡ some token
      → find (λ (u : Actor). u.pk == user.pk) db.users ≡ some user
      → can_manage_session user (quiz_of db g) ≡ true
      → Passes account
          (record { record_id = user.pk; expires_at = some token.exp; session_id = g.session.pk })
  account-Passes g token user eg et eu em =
      rw
        (
          et,
          any-find (λ (u : Actor). u.pk == user.pk)
              (λ (u : Actor). u.pk == user.pk && manages db g.session.pk u) db.users user eu
              (both _ _ (eq_same user.pk user.pk refl) (managed (quiz_of db g) refl em)),
        )
        refl
    where
      both : (a b : Bool) → a ≡ true → b ≡ true → (a && b) ≡ true
      both a b ha hb = rw (ha, hb) refl

      managed :
          (q : Option Quiz)
          → quiz_of db g ≡ q
          → can_manage_session user q ≡ true
          → manages db g.session.pk user ≡ true
      managed none eq h = absurd (cc)
      managed (some q) eq h =
          manages_either user.is_authenticated user.is_active user.is_staff user.in_teachers
            (q.owner_id == user.pk) _ h
            λ own.
              any-find (λ (g : Game). g.session.join_token == session_uuid) _ db.games g eg
                (both _ _ (eq_same g.session.pk g.session.pk refl) (
                  any-find (λ (q : Quiz). q.pk == g.version.quiz_id) _ db.quizzes q eq
                    (both _ _ (find-test (λ (q : Quiz). q.pk == g.version.quiz_id) db.quizzes q eq)
                      own)))

  scoped-Passes :
      (kind : TokenKind) (g : Game) (r : Result AccessError ScopedAccess)
      → Returns (Resolved sv db now session_uuid claim kind) r
      → Allows sv db now session_uuid claim
          (λ grant _. Passes (scoped kind) grant)
          (scoped_reading sv kind g r)
  scoped-Passes kind g (err e) h =
      failed_reading-Allows sv db now session_uuid claim (λ grant _. Passes (scoped kind) grant) e
  scoped-Passes participant g (ok access) h =
      elim (Bool-cases (access.session_id == g.session.pk)) [
        | inl e ↦
            rw e (participant-Passes g access h e (expiry_of participant g.session.finished_at))
        | inr e ↦ rw e tt
      ]
  scoped-Passes display g (ok access) h = elim (Bool-cases (access.session_id == g.session.pk)) [
    | inl e ↦ rw e (display-Passes g access h e (expiry_of display g.session.finished_at))
    | inr e ↦ rw e tt
  ]

  token-Passes :
      NamesStored sv db
      → (g : Game) (token : Option AccountToken)
      → find (λ (g : Game). g.session.join_token == session_uuid) db.games ≡ some g
      → sv.get_validated_token claim.secret now ≡ token
      → Allows sv db now session_uuid claim
          (λ grant _. Passes account grant)
          (token_reading sv db g token)
  token-Passes stored g none eg et = tt
  token-Passes stored g (some token) eg et = named (sv.get_user db.users token) refl
    where
      named :
          (user : Option Actor)
          → sv.get_user db.users token ≡ user
          → Allows sv db now session_uuid claim
              (λ grant _. Passes account grant)
              (account_reading sv db g token user)
      named none eu = tt
      named (some user) eu = elim (Bool-cases (can_manage_session user (quiz_of db g))) [
        | inl e ↦ rw e (account-Passes g token user eg et (stored token user eu) e)
        | inr e ↦ rw e tt
      ]

  claimed-Passes :
      NamesStored sv db
      → (g : Game) (type : AccessType)
      → find (λ (g : Game). g.session.join_token == session_uuid) db.games ≡ some g
      → Allows sv db now session_uuid claim
          (λ grant _. Passes type grant)
          (claimed_reading sv db now claim.secret g type)
  claimed-Passes stored g account eg =
      token-Passes stored g (sv.get_validated_token claim.secret now) eg refl
  claimed-Passes stored g (scoped kind) eg =
      scoped-Passes kind g (resolve_access sv.outside (registry db) kind claim.secret now)
        (resolve_access-Resolved sv db now session_uuid claim kind)

  reading-Passes :
      NamesStored sv db
      → Allows sv db now session_uuid claim
          (λ grant _. Passes claim.access_type grant)
          (state_if_allowed sv db now session_uuid claim)
  unfolding state_if_allowed
  reading-Passes stored =
      found (find (λ (g : Game). g.session.join_token == session_uuid) db.games) refl
    where
      found :
          (o : Option Game)
          → find (λ (g : Game). g.session.join_token == session_uuid) db.games ≡ o
          → Allows sv db now session_uuid claim
              (λ grant _. Passes claim.access_type grant)
              (reading_of sv db now claim o)
      found none e = tt
      found (some g) e = claimed-Passes stored g claim.access_type e

  -- An access that is granted passes the repeated check on the same rows at the same moment, if the
  -- service names only users that are stored, each the first with its key.
  pub access_is_allowed-granted :
      (grant : Grant) (snapshot : Snapshot)
      → NamesStored sv db
      → state_if_allowed sv db now session_uuid claim ≡ granted grant snapshot
      → access_is_allowed sv db now claim grant ≡ none
  unfolding access_is_allowed
  access_is_allowed-granted grant snapshot stored e =
      subst (λ r. Allows sv db now session_uuid claim (λ grant _. Passes claim.access_type grant) r)
        e (reading-Passes stored)
