-- ===== src/Session/Access/Joined.antt =====
-- What a first join leaves, and how its token and its account come back.
use umclick.Common.{
  ℕ, ◌==◌, ◌≡◌, refl, sym, ap, ◌∙◌, subst, option_eq, Bool, true, false, ◌&&◌, ◌||◌, Option, none,
  some, List, [], ◌∷◌, any, find, Bool-cases, Option-cases, inl, inr, ok, ◌>>=◌, Returns,
  Result-cases, arith,
}
use umclick.Quiz.Model.{Text}
use umclick.Quiz.Validation.{is_blank}
use umclick.Session.Model.{LiveSession, waiting, status_is}
use umclick.Session.Access.{
  participant, Person, Participation, Registry, Outside, JoinData, new_person, with_person,
  person_of, profile, is_registered, digest_used, seat_taken, insert_participation, required_name,
  new_participation, join_first,
}

-- The account of a user is this profile.
abbrev pub Owns : Registry → ℕ → ℕ → Type 0
Owns reg participant_id u =
    any (λ (q : Person). q.pk == participant_id && option_eq q.user_id (some u)) reg.people ≡ true

pub record Seated (out : Outside) (reg : Registry) (session : LiveSession) (user : Option ℕ)
    (secret : Text) (after : Registry) (p : Participation) : Type 0 where
  pub waits : status_is waiting session.status ≡ true
  pub session_id : p.session_id ≡ session.pk
  pub token : p.token_digest ≡ out.token_digest participant secret
  pub added : after.participations ≡ p ∷ reg.participations
  pub fresh : digest_used reg p.token_digest ≡ false
  pub seat : seat_taken reg p.session_id p.participant_id ≡ false
  pub sessions : after.sessions ≡ reg.sessions
  pub owner : (u : ℕ) → user ≡ some u → Owns after p.participant_id u

-- The profile of a user is among the people afterwards; nothing else has changed.
record Profiled (reg : Registry) (user : Option ℕ) (r : Registry × Person) : Type 0 where
  participations : r.0.participations ≡ reg.participations
  sessions : r.0.sessions ≡ reg.sessions
  owner : (u : ℕ) → user ≡ some u → Owns r.0 r.1.pk u

found-Owns :
    (u : ℕ) (people : List Person) (p : Person)
    → find (λ (q : Person). option_eq q.user_id (some u)) people ≡ some p
    → any (λ (q : Person). q.pk == p.pk && option_eq q.user_id (some u)) people ≡ true
found-Owns u [] p e = absurd (cc)
found-Owns u (q ∷ qs) p e = elim (Bool-cases (option_eq q.user_id (some u))) [
  | inl t ↦ rw t (front q.pk p.pk _ (ap (λ (x : Person). x.pk) (some_eq (rw t at e))))
  | inr t ↦ behind _ (found-Owns u qs p (rw t at e))
]
  where
    some_eq : some q ≡ some p → q ≡ p
    some_eq x = cc

    front : (a b : ℕ) (c : Bool) → a ≡ b → ((a == b && true) || c) ≡ true
    front a b c e = ground (arith, e)

    behind : (b : Bool) {c : Bool} → c ≡ true → (b || c) ≡ true
    behind true h = refl
    behind false h = h

profile-Profiled :
    (out : Outside) (reg : Registry) (user : Option ℕ) (request : JoinData) (name : Text) (now : ℕ)
    → Profiled reg user (profile out reg user request name now)
profile-Profiled out reg user request name now = elim (Option-cases (person_of reg user)) [
  | inl e ↦
      rw (profile, e)
        (record { participations = refl; sessions = refl; owner = λ u h. new_owner user u h })
  | inr (p, e) ↦
      rw (profile, e)
        (record {
          participations = refl;
          sessions = refl;
          owner = λ u h. found-Owns u reg.people p (ap (person_of reg) (sym h) ∙ e);
        })
]
  where
    new_owner :
        (user : Option ℕ) (u : ℕ)
        → user ≡ some u
        → Owns (with_person reg (new_person out reg user request name now)) reg.next_person_pk u
    new_owner none u h = absurd (cc)
    new_owner (some w) u h = ground (arith, some_eq h)
      where
        some_eq : some w ≡ some u → w ≡ u
        some_eq x = cc

record Inserted (reg : Registry) (session : LiveSession) (p : Participation) (after : Registry)
    : Type 0 where
  waits : status_is waiting session.status ≡ true
  fresh : digest_used reg p.token_digest ≡ false
  seat : seat_taken reg p.session_id p.participant_id ≡ false
  added : after.participations ≡ p ∷ reg.participations
  people : after.people ≡ reg.people
  sessions : after.sessions ≡ reg.sessions

insert_participation-Inserted :
    (out : Outside) (reg : Registry) (session : LiveSession) (p : Participation)
    → Returns (Inserted reg session p) (insert_participation out reg session p)
unfolding insert_participation
insert_participation-Inserted out reg session p =
    elim (Bool-cases (status_is waiting session.status)) [
      | inr e ↦ rw e tt
      | inl waits ↦ elim (Bool-cases (is_blank out.is_space p.name_snapshot)) [
        | inl e ↦ rw (waits, e) tt
        | inr named ↦ elim (Bool-cases (digest_used reg p.token_digest)) [
          | inl e ↦ rw (waits, named, e) tt
          | inr fresh ↦ elim (Bool-cases (seat_taken reg p.session_id p.participant_id)) [
            | inl e ↦ rw (waits, named, fresh, e) tt
            | inr seat ↦
                rw (waits, named, fresh, seat)
                  (record {
                    waits = waits;
                    fresh = fresh;
                    seat = seat;
                    added = refl;
                    people = refl;
                    sessions = refl;
                  })
          ]
        ]
      ]
    ]

abbrev pub SeatedFor :
    Outside
    → Registry
    → LiveSession
    → Option ℕ
    → Text
    → Registry × Participation × Option Text
    → Type 0
SeatedFor out reg session user secret (after, p, shown) =
    Seated out reg session user secret after p × (shown ≡ some secret)

-- The end of the first join, for a profile.
inserted-Seated :
    (out : Outside) (reg : Registry) (session : LiveSession) (user : Option ℕ) (name secret : Text)
    (r : Registry × Person)
    → Profiled reg user r
    → let p = new_participation out r.0 session r.1 name secret in
      Returns
        (SeatedFor out reg session user secret)
        (insert_participation out r.0 session p >>= λ after. ok (after, p, some secret))
inserted-Seated out reg session user name secret (with_profile, person) h =
    let p = new_participation out with_profile session person name secret in
    elim (Result-cases (insert_participation out with_profile session p)) [
      | inl (e, x) ↦ rw x tt
      | inr (after, x) ↦
          let i =
            subst (Returns (Inserted with_profile session p)) x
              (insert_participation-Inserted out with_profile session p) in
          rw x (
            record {
              waits = i.waits;
              session_id = refl;
              token = refl;
              added = i.added ∙ ap (λ ps. p ∷ ps) h.participations;
              fresh =
                  ap (λ ps. any (λ (q : Participation). q.token_digest == p.token_digest) ps)
                    (sym h.participations)
                  ∙ i.fresh;
              seat =
                  ap
                    (λ ps.
                      any
                        (λ (q : Participation).
                          q.session_id == p.session_id && q.participant_id == p.participant_id)
                        ps)
                    (sym h.participations)
                  ∙ i.seat;
              sessions = i.sessions ∙ h.sessions;
              owner = λ u e.
                  ap (any (λ (q : Person). q.pk == person.pk && option_eq q.user_id (some u)))
                    i.people
                  ∙ h.owner u e;
            },
            refl,
          )
    ]

pub join_first-Seated :
    (out : Outside) (reg : Registry) (session : LiveSession) (user : Option ℕ) (request : JoinData)
    (secret : Text) (now : ℕ)
    → Returns
        (SeatedFor out reg session user secret)
        (join_first out reg session user request secret now)
join_first-Seated out reg session user request secret now =
    elim (Bool-cases (is_registered reg session.pk user)) [
      | inl e ↦ rw (join_first, e) tt
      | inr new ↦ elim (Bool-cases (status_is waiting session.status)) [
        | inr e ↦ rw (join_first, new, e) tt
        | inl waits ↦ elim (Result-cases (required_name request.name)) [
          | inl (x, e) ↦ rw (join_first, new, waits, e) tt
          | inr (name, e) ↦
              rw (join_first, new, waits, e)
                (inserted-Seated out reg session user name secret
                  (profile out reg user request name now)
                  (profile-Profiled out reg user request name now))
        ]
      ]
    ]
