-- ===== src/Session/Access/Return.antt =====
-- Coming back to a session after the first join.
use umclick.Common.{
  ℕ, ◌≤◌, ◌==◌, ◌≡◌, refl, ap, ◌∙◌, subst, leb, true, ◌&&◌, Option, none, some, List, [], ◌∷◌,
  length, find, Option-cases, inl, inr, Result, ok, err, Returns, Result-cases, arith,
}
use umclick.Quiz.Model.{Text}
use umclick.Session.Model.{LiveSession}
use umclick.Session.Access.{
  participant, Participation, Registry, ScopedAccess, AccessError, Outside, JoinData, find_session,
  resolve_access, resolve_join_session, join_session,
}
use umclick.Session.Access.Joined.{Seated, SeatedFor, join_first-Seated}

-- The access that the token of a participation gives.
abbrev pub access_of : Participation → ScopedAccess
access_of p = record { kind = participant; record_id = p.pk; session_id = p.session_id }

find_session-pk :
    (reg : Registry) (k : ℕ) (s : LiveSession) → find_session reg k ≡ some s → s.pk ≡ k
find_session-pk reg k s e = key reg.sessions e
  where
    key : (ss : List LiveSession) → find (λ (s : LiveSession). s.pk == k) ss ≡ some s → s.pk ≡ k
    key [] f = absurd (cc)
    key (x ∷ xs) f = ground (arith, f, key xs)

-- What stands behind a first join that returned.
record First (out : Outside) (reg : Registry) (user : Option ℕ) (secret : Text) (after : Registry)
    (p : Participation) : Type 0 where
  session : LiveSession
  stored : find_session reg p.session_id ≡ some session
  seated : Seated out reg session user secret after p

module _ (out : Outside) (seen reg : Registry) (user : Option ℕ) (request : JoinData)
    (secret : Text) (now : ℕ) (after : Registry) (p : Participation) (shown : Option Text)
    (joined : join_session out seen reg none user request secret now ≡ ok (after, p, shown)) where
  first : First out reg user secret after p × (shown ≡ some secret)
  unfolding join_session
  first = elim (Result-cases (resolve_join_session seen request)) [
    | inl (e, r) ↦ absurd (not_ok (rw r at joined))
    | inr (found, r) ↦ elim (Option-cases (find_session reg found.pk)) [
      | inl e ↦ absurd (not_ok (rw (r, e) at joined))
      | inr (session, e) ↦
          let (s, told) =
            subst (Returns (SeatedFor out reg session user secret)) (rw (r, e) at joined)
              (join_first-Seated out reg session user request secret now) in
          (
            record {
              session = session;
              stored =
                  ap (find_session reg) (s.session_id ∙ find_session-pk reg found.pk session e) ∙ e;
              seated = s;
            },
            told,
          )
    ]
  ]
    where
      not_ok :
          {e : AccessError}
          → (let r : Result AccessError (Registry × Participation × Option Text) = err e in
              r ≡ ok (after, p, shown))
          → ⊥
      not_ok x = cc

  same : (a b : ℕ) → a ≡ b → (a == b) ≡ true
  same a b e = ground (arith, e)

  -- The token that a first join shows gives access to the participation that it has stored, at any later
  -- moment, if the drawn secret has from 40 to 128 characters.
  pub join_session-resolves :
      (later : ℕ)
      → 40 ≤ length secret
      → length secret ≤ 128
      → (shown ≡ some secret)
        × (resolve_access out after participant secret later ≡ ok (access_of p))
  unfolding resolve_access
  join_session-resolves later low high =
      let (f, told) = first in
      (
        told,
        rw
            (
              fits (length secret) low high,
              f.seated.added,
              same p.token_digest (out.token_digest participant secret) f.seated.token,
            )
            refl,
      )
    where
      fits : (n : ℕ) → 40 ≤ n → n ≤ 128 → (leb 40 n && leb n 128) ≡ true
      fits n low high = ground (arith, low, high)
