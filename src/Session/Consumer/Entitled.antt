-- ===== src/Session/Consumer/Entitled.antt =====
-- Who may see which snapshot, said of the stored rows alone, and that every snapshot that is read is
-- one of these.
use umclick.Common.{
  ℕ, ◌==◌, ◌≡◌, refl, sym, ap, ◌∙◌, true, not, ◌&&◌, Option, none, some, find, is_some, Bool-cases,
  inl, inr, Result, ok, err, arith, Returns, Returns-raise_if, Returns-or_raise, leb, length,
}
use umclick.Quiz.Card.{Actor}
use umclick.Session.Model.{Game, LiveSession}
use umclick.Session.Access.{
  TokenKind, participant, display, Participation, DisplayAccess, ScopedAccess, AccessError,
  access_invalid, access_revoked, access_expired, session_not_found, authentication_failed,
  already_registered, registration_closed, name_required, does_not_exist, history_conflict,
  integrity_error, display_expired, find_session, is_valid, resolve_display, resolve_access,
}
use umclick.Session.Access.Display.{display_access, resolve_display-is_valid}
use umclick.Session.Views.States.{build_account_session_state, build_display_session_state}
use umclick.Session.Views.Participant.{build_participant_session_state}
use umclick.Session.Consumer.{
  AccessType, account, scoped, Claim, AccountToken, Database, Services, participations_of, registry,
  Snapshot, account_snapshot, participant_snapshot, display_snapshot, Grant, Reading, granted,
  refused, raised, quiz_of, can_manage_session, account_reading, token_reading, scoped_reading,
  failed_reading, claimed_reading, reading_of, state_if_allowed,
}

module _ (sv : Services) (db : Database) (now session_uuid : ℕ) (claim : Claim) where
  -- The participation that the secret belongs to.
  pub record MyParticipation (g : Game) (p : Participation) : Type 0 where
    pub claims_participant : claim.access_type ≡ scoped participant
    pub has_secret :
        find
          (λ (p : Participation).
            p.token_digest == sv.outside.token_digest participant claim.secret)
          (participations_of db.games)
        ≡ some p
    pub in_game : p.session_id ≡ g.session.pk

  -- The display that the secret belongs to, and the session that its row names.
  pub record ValidDisplay (g : Game) (d : DisplayAccess) (s : LiveSession) : Type 0 where
    pub claims_display : claim.access_type ≡ scoped display
    pub has_secret :
        find
          (λ (d : DisplayAccess). d.token_digest == sv.outside.token_digest display claim.secret)
          db.displays
        ≡ some d
    pub in_game : d.session_id ≡ g.session.pk
    pub its_session : find_session (registry db) d.session_id ≡ some s
    pub not_over : is_valid d s now ≡ true

  pub record Manager (g : Game) (token : AccountToken) (user : Actor) : Type 0 where
    pub claims_account : claim.access_type ≡ account
    pub has_token : sv.get_validated_token claim.secret now ≡ some token
    pub is_user : sv.get_user db.users token ≡ some user
    pub may_manage : can_manage_session user (quiz_of db g) ≡ true

  pub data Entitled (g : Game) : Snapshot → Type 0 where
    as_participant :
        (p : Participation)
        → MyParticipation g p
        → Entitled g
            (participant_snapshot (build_participant_session_state sv.outlook g (some p.pk)))
    as_display :
        (d : DisplayAccess) (s : LiveSession)
        → ValidDisplay g d s
        → Entitled g (display_snapshot (build_display_session_state sv.outlook g))
    as_account :
        (token : AccountToken) (user : Actor)
        → Manager g token user
        → Entitled g (account_snapshot (build_account_session_state sv.outlook g))

  -- Of the session of this connection.
  pub record MaySee (snapshot : Snapshot) : Type 0 where
    pub game : Game
    pub is_game : find (λ (g : Game). g.session.join_token == session_uuid) db.games ≡ some game
    pub entitled : Entitled game snapshot

  -- What a reading may be.
  abbrev pub Allows : (Grant → Snapshot → Type 0) → Reading → Type 0
  Allows P (granted grant snapshot) = P grant snapshot
  Allows P (refused reason) = Unit
  Allows P (raised e) = Unit

  account_reading-Entitled :
      (g : Game) (token : AccountToken) (user : Option Actor)
      → claim.access_type ≡ account
      → sv.get_validated_token claim.secret now ≡ some token
      → sv.get_user db.users token ≡ user
      → Allows (λ _. Entitled g) (account_reading sv db g token user)
  account_reading-Entitled g token none ea et eu = tt
  account_reading-Entitled g token (some user) ea et eu =
      elim (Bool-cases (can_manage_session user (quiz_of db g))) [
        | inl e ↦ rw e (
            as_account token user
              (record { claims_account = ea; has_token = et; is_user = eu; may_manage = e }))
        | inr e ↦ rw e tt
      ]

  token_reading-Entitled :
      (g : Game) (token : Option AccountToken)
      → claim.access_type ≡ account
      → sv.get_validated_token claim.secret now ≡ token
      → Allows (λ _. Entitled g) (token_reading sv db g token)
  token_reading-Entitled g none ea et = tt
  token_reading-Entitled g (some token) ea et =
      account_reading-Entitled g token (sv.get_user db.users token) ea et refl

  pub failed_reading-Allows :
      (P : Grant → Snapshot → Type 0) (e : AccessError) → Allows P (failed_reading e)
  failed_reading-Allows P access_invalid = tt
  failed_reading-Allows P access_revoked = tt
  failed_reading-Allows P access_expired = tt
  failed_reading-Allows P session_not_found = tt
  failed_reading-Allows P authentication_failed = tt
  failed_reading-Allows P already_registered = tt
  failed_reading-Allows P registration_closed = tt
  failed_reading-Allows P name_required = tt
  failed_reading-Allows P does_not_exist = tt
  failed_reading-Allows P history_conflict = tt
  failed_reading-Allows P integrity_error = tt

  -- What a secret was resolved to.
  abbrev pub Resolved : TokenKind → ScopedAccess → Type 0
  Resolved participant access =
      (p : Participation) × (find
          (λ (p : Participation).
            p.token_digest == sv.outside.token_digest participant claim.secret)
          (participations_of db.games)
        ≡ some p)
      × (access ≡ record { kind = participant; record_id = p.pk; session_id = p.session_id })
  Resolved display access =
      (d : DisplayAccess) × (s : LiveSession) × (find
          (λ (d : DisplayAccess). d.token_digest == sv.outside.token_digest display claim.secret)
          db.displays
        ≡ some d)
      × (find_session (registry db) d.session_id ≡ some s)
      × (is_valid d s now ≡ true)
      × (access ≡ display_access d)

  resolve_display-Resolved :
      (d : DisplayAccess)
      → find
          (λ (d : DisplayAccess). d.token_digest == sv.outside.token_digest display claim.secret)
          db.displays
        ≡ some d
      → Returns (Resolved display) (resolve_display (registry db) d now)
  resolve_display-Resolved d found = Returns-raise_if _ _ (is_some d.revoked_at) _ λ not_revoked.
      Returns-or_raise _ _ (find_session (registry db) d.session_id) _ λ s stored.
        Returns-raise_if _ _ (display_expired s now) _ λ in_time. (
          d,
          s,
          found,
          stored,
          (resolve_display-is_valid (registry db) d s now stored).0
              (rw (resolve_display, not_revoked, stored, in_time) refl),
          refl,
        )

  pub resolve_access-Resolved :
      (kind : TokenKind)
      → Returns (Resolved kind) (resolve_access sv.outside (registry db) kind claim.secret now)
  unfolding resolve_access
  resolve_access-Resolved participant =
      Returns-raise_if _ _ (not (leb 40 (length claim.secret) && leb (length claim.secret) 128)) _
        λ _.
          Returns-or_raise _ _
            (find
              (λ (p : Participation).
                p.token_digest == sv.outside.token_digest participant claim.secret)
              (participations_of db.games))
            _ λ p found. (p, found, refl)
  resolve_access-Resolved display =
      Returns-raise_if _ _ (not (leb 40 (length claim.secret) && leb (length claim.secret) 128)) _
        λ _.
          Returns-or_raise _ _
            (find
              (λ (d : DisplayAccess).
                d.token_digest == sv.outside.token_digest display claim.secret)
              db.displays)
            _ resolve_display-Resolved

  scoped_reading-Entitled :
      (kind : TokenKind) (g : Game) (r : Result AccessError ScopedAccess)
      → claim.access_type ≡ scoped kind
      → Returns (Resolved kind) r
      → Allows (λ _. Entitled g) (scoped_reading sv kind g r)
  scoped_reading-Entitled kind g (err e) ek h = failed_reading-Allows (λ _. Entitled g) e
  scoped_reading-Entitled participant g (ok access) ek (p, found, is_p) =
      elim (Bool-cases (access.session_id == g.session.pk)) [
        | inl e ↦ rw e (
            rw is_p (
              as_participant p (record {
                claims_participant = ek;
                has_secret = found;
                in_game =
                    same p.session_id g.session.pk
                      (ap (λ a. a.session_id == g.session.pk) (sym is_p) ∙ e);
              })))
        | inr e ↦ rw e tt
      ]
    where
      same : (a b : ℕ) → (a == b) ≡ true → a ≡ b
      same a b e = ground (arith, e)
  scoped_reading-Entitled display g (ok access) ek (d, s, found, stored, valid, is_d) =
      elim (Bool-cases (access.session_id == g.session.pk)) [
        | inl e ↦ rw e (
            as_display d s (record {
              claims_display = ek;
              has_secret = found;
              in_game =
                  same d.session_id g.session.pk
                    (ap (λ a. a.session_id == g.session.pk) (sym is_d) ∙ e);
              its_session = stored;
              not_over = valid;
            }))
        | inr e ↦ rw e tt
      ]
    where
      same : (a b : ℕ) → (a == b) ≡ true → a ≡ b
      same a b e = ground (arith, e)

  claimed_reading-Entitled :
      (g : Game) (type : AccessType)
      → claim.access_type ≡ type
      → Allows (λ _. Entitled g) (claimed_reading sv db now claim.secret g type)
  claimed_reading-Entitled g account e =
      token_reading-Entitled g (sv.get_validated_token claim.secret now) e refl
  claimed_reading-Entitled g (scoped kind) e =
      scoped_reading-Entitled kind g (resolve_access sv.outside (registry db) kind claim.secret now)
        e (resolve_access-Resolved kind)

  -- A reading gives a snapshot only to somebody who is entitled to it by the rows it reads.
  pub state_if_allowed-MaySee : Allows (λ _. MaySee) (state_if_allowed sv db now session_uuid claim)
  unfolding state_if_allowed
  state_if_allowed-MaySee =
      found (find (λ (g : Game). g.session.join_token == session_uuid) db.games) refl
    where
      seen :
          (g : Game) (r : Reading)
          → find (λ (g : Game). g.session.join_token == session_uuid) db.games ≡ some g
          → Allows (λ _. Entitled g) r
          → Allows (λ _. MaySee) r
      seen g (granted grant snapshot) e h = record { game = g; is_game = e; entitled = h }
      seen g (refused reason) e h = tt
      seen g (raised x) e h = tt

      found :
          (o : Option Game)
          → find (λ (g : Game). g.session.join_token == session_uuid) db.games ≡ o
          → Allows (λ _. MaySee) (reading_of sv db now claim o)
      found none e = tt
      found (some g) e =
          seen g (reading_of sv db now claim (some g)) e
            (claimed_reading-Entitled g claim.access_type refl)
