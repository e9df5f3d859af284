-- ===== src/Session/Access/Display.antt =====
-- The token of a display, against `is_valid` of its row.
use umclick.Common.{
  ℕ, ◌≤◌, ◌==◌, ◌≡◌, ◌↔◌, refl, leb, if◌then◌else◌, Bool, true, false, not, ◌&&◌, ◌||◌, Option,
  none, some, length, find, is_none, is_some, Bool-cases, inl, inr, Result, ok, err, ◌>>◌, raise_if,
  arith,
}
use umclick.Quiz.Model.{Text}
use umclick.Session.Model.{LiveSession, is_over}
use umclick.Session.Access.{
  display, DisplayAccess, Registry, ScopedAccess, AccessError, Outside, find_session, over_since,
  is_valid, resolve_display, resolve_digest, resolve_access, access_revoked, access_expired,
}

abbrev pub display_access : DisplayAccess → ScopedAccess
display_access d = record { kind = display; record_id = d.id; session_id = d.session_id }

abbrev checked : Option ℕ → Option ℕ → Bool → ℕ → ScopedAccess → Result AccessError ScopedAccess
checked revoked finished over now access =
    raise_if (is_some revoked) access_revoked
    >> (raise_if ((over && is_none finished) || over_since finished now) access_expired
        >> ok access)

abbrev valid : Option ℕ → Option ℕ → Bool → ℕ → Bool
valid revoked finished over now =
    if over && is_none finished
    then false
    else is_none revoked && (is_none finished || not (over_since finished now))

not_ok :
    {e : AccessError} {access : ScopedAccess} {P : Type 0}
    → (let r : Result AccessError ScopedAccess = err e in r ≡ ok access)
    → P
not_ok h = absurd (cc)

not_true : {P : Type 0} → false ≡ true → P
not_true h = absurd (cc)

-- Both read the same conditions.
agreed :
    (revoked finished : Option ℕ) (over : Bool) (now : ℕ) (access : ScopedAccess)
    → (checked revoked finished over now access ≡ ok access)
      ↔ (valid revoked finished over now ≡ true)
agreed (some t) none true now access = (not_ok, not_true)
agreed (some t) none false now access = (not_ok, not_true)
agreed (some t) (some f) true now access = (not_ok, not_true)
agreed (some t) (some f) false now access = (not_ok, not_true)
agreed none none true now access = (not_ok, not_true)
agreed none none false now access = (λ h. refl, λ h. refl)
agreed none (some f) true now access = elim (Bool-cases (over_since (some f) now)) [
  | inl e ↦ rw e (not_ok, not_true)
  | inr e ↦ rw e (λ h. refl, λ h. refl)
]
agreed none (some f) false now access = elim (Bool-cases (over_since (some f) now)) [
  | inl e ↦ rw e (not_ok, not_true)
  | inr e ↦ rw e (λ h. refl, λ h. refl)
]

pub resolve_display-is_valid :
    (reg : Registry) (d : DisplayAccess) (session : LiveSession) (now : ℕ)
    → find_session reg d.session_id ≡ some session
    → (resolve_display reg d now ≡ ok (display_access d)) ↔ (is_valid d session now ≡ true)
unfolding is_valid
resolve_display-is_valid reg d session now e =
    rw (resolve_display, e)
      (agreed d.revoked_at session.finished_at (is_over session.status) now (display_access d))

-- A secret of from 40 to 128 characters whose digest is that of the first display access found with it gives
-- the access to that display at a moment just when `is_valid` holds of the row at that moment, where the row's
-- session is stored: it is not revoked, and its session is not over for an hour, nor over without
-- a time.
pub resolve_access-is_valid :
    (out : Outside) (reg : Registry) (secret : Text) (d : DisplayAccess) (session : LiveSession)
    (now : ℕ)
    → 40 ≤ length secret
    → length secret ≤ 128
    → find (λ (x : DisplayAccess). x.token_digest == out.token_digest display secret) reg.displays
      ≡ some d
    → find_session reg d.session_id ≡ some session
    → (resolve_access out reg display secret now ≡ ok (display_access d))
      ↔ (is_valid d session now ≡ true)
unfolding resolve_access
resolve_access-is_valid out reg secret d session now low high found stored =
    rw (fits (length secret) low high, resolve_digest, found)
      (resolve_display-is_valid reg d session now stored)
  where
    fits : (n : ℕ) → 40 ≤ n → n ≤ 128 → (leb 40 n && leb n 128) ≡ true
    fits n low high = ground (arith, low, high)
