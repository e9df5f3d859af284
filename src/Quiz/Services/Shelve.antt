-- ===== src/Quiz/Services/Shelve.antt =====
-- Archiving, restoring and deleting a card.
use umclick.Common.{
  ℕ, ◌≡◌, ◌≢◌, ◌||◌, refl, sym, ◌∙◌, Bool, true, false, not, Option, none, some, List, [], ◌∷◌, any,
  is_none, is_some, Bool-cases, inl, inr, Result, ok, err, ◌>>◌, raise_if, arith,
}
use umclick.Quiz.Refusals.{Refusal, permission_denied, open_session, history_protected}
use umclick.Quiz.Card.{Actor, Card, can_manage_quiz}
use umclick.Quiz.Card.Valid.{IsValid, AllOver}
use umclick.Quiz.Services.{has_open_session, archive_card, archive_quiz, restore_quiz, delete_quiz}
use umclick.Session.Model.{LiveSession, is_over}

closed-AllOver : (ss : List LiveSession) → any (λ s. not (is_over s.status)) ss ≡ false → AllOver ss
closed-AllOver [] e = tt
closed-AllOver (s ∷ ss) e =
    (over (is_over s.status) _ e, closed-AllOver ss (under (is_over s.status) _ e))
  where
    over : (b c : Bool) → (not b || c) ≡ false → b ≡ true
    over b c e = ground (arith, e)

    under : (b c : Bool) → (not b || c) ≡ false → c ≡ false
    under b c e = ground (arith, e)

-- All of the card is kept, but for the moment of its archiving.
abbrev pub Kept : Card → Card → Type 0
Kept card after =
    (after.versions ≡ card.versions)
    × (after.sessions ≡ card.sessions)
    × (after.quiz.content_revision ≡ card.quiz.content_revision)
    × (after.quiz.owner_id ≡ card.quiz.owner_id)
    × (after.quiz.pk ≡ card.quiz.pk)
    × (after.next_version_pk ≡ card.next_version_pk)
    × (after.next_question_pk ≡ card.next_question_pk)
    × (after.next_choice_pk ≡ card.next_choice_pk)
    × (after.next_session_pk ≡ card.next_session_pk)

Kept-refl : (card : Card) → Kept card card
Kept-refl card = (refl, refl, refl, refl, refl, refl, refl, refl, refl)

-- The moment of the first archiving stays.
abbrev pub ArchivedSince : Option ℕ → ℕ → Option ℕ → Type 0
ArchivedSince none now after = after ≡ some now
ArchivedSince (some t) now after = after ≡ some t

module _ (card : Card) (actor : Actor) where
  abbrev pub ArchiveEnds : ℕ → Result Refusal Card → Type 0
  ArchiveEnds now (ok after) =
      (can_manage_quiz actor card.quiz ≡ true)
      × IsValid after
      × ArchivedSince card.quiz.archived_at now after.quiz.archived_at
      × AllOver after.sessions
      × Kept card after
  ArchiveEnds now (err permission_denied) = can_manage_quiz actor card.quiz ≡ false
  ArchiveEnds now (err open_session) =
      (is_some card.quiz.archived_at ≡ false) × (has_open_session card ≡ true)
  ArchiveEnds now (err _) = ⊥

  archive_card-ends :
      (now : ℕ)
      → can_manage_quiz actor card.quiz ≡ true
      → IsValid card
      → ArchiveEnds now (archive_card card now)
  archive_card-ends now can h = elim (Bool-cases (is_some card.quiz.archived_at)) [
    | inl hidden ↦
        rw hidden (can, h, since card.quiz.archived_at hidden, h.archived hidden, Kept-refl card)
    | inr shown ↦ elim (Bool-cases (has_open_session card)) [
      | inl busy ↦ rw (shown, busy) (shown, busy)
      | inr idle ↦
          let over = closed-AllOver card.sessions idle in
          rw (shown, idle)
            (
              can,
              record {
                versions = h.versions;
                falling = h.falling;
                present = h.present;
                sessions = h.sessions;
                archived = λ _. over;
              },
              first card.quiz.archived_at shown,
              over,
              Kept-refl card,
            )
    ]
  ]
    where
      since : (o : Option ℕ) → is_some o ≡ true → ArchivedSince o now o
      since none e = absurd (cc)
      since (some t) e = refl

      first : (o : Option ℕ) → is_some o ≡ false → ArchivedSince o now (some now)
      first none e = refl
      first (some t) e = absurd (cc)

  -- On a valid card that is there, `archive_quiz` ends in just these ways. It returns to an actor who may
  -- manage the card; then the card is archived since now, or since the moment at which it was archived
  -- before, it is valid, all its sessions are over, and all else of it is as it was: its versions, its
  -- sessions, its revision, its owner and its keys. It refuses an actor without the right, and a card
  -- that is not archived and has an open session.
  pub archive_quiz-ends :
      (now : ℕ) → IsValid card → ArchiveEnds now (archive_quiz (some card) actor now)
  unfolding archive_quiz
  archive_quiz-ends now h = elim (Bool-cases (can_manage_quiz actor card.quiz)) [
    | inl can ↦ rw can (archive_card-ends now can h)
    | inr barred ↦ rw barred barred
  ]

  abbrev pub RestoreEnds : Result Refusal Card → Type 0
  RestoreEnds (ok after) =
      (can_manage_quiz actor card.quiz ≡ true)
      × IsValid after
      × (after.quiz.archived_at ≡ none)
      × Kept card after
  RestoreEnds (err permission_denied) = can_manage_quiz actor card.quiz ≡ false
  RestoreEnds (err _) = ⊥

  -- Restoring a card ends with the card open, or for want of rights.
  pub restore_quiz-ends : IsValid card → RestoreEnds (restore_quiz (some card) actor)
  unfolding restore_quiz
  restore_quiz-ends h = elim (Bool-cases (can_manage_quiz actor card.quiz)) [
    | inl can ↦ rw can (elim (Bool-cases (is_none card.quiz.archived_at)) [
      | inl shown ↦ rw shown (can, h, open_at card.quiz.archived_at shown, Kept-refl card)
      | inr hidden ↦ rw hidden (
        can,
        record {
          versions = h.versions;
          falling = h.falling;
          present = h.present;
          sessions = h.sessions;
          archived = λ e. absurd (cc);
        },
        refl,
        Kept-refl card,
      )
    ])
    | inr barred ↦ rw barred barred
  ]
    where
      open_at : (o : Option ℕ) → is_none o ≡ true → o ≡ none
      open_at none e = refl
      open_at (some t) e = absurd (cc)

  abbrev pub DeleteEnds : Result Refusal (Option Card) → Type 0
  DeleteEnds (ok after) =
      (can_manage_quiz actor card.quiz ≡ true) × (card.sessions ≡ []) × (after ≡ none)
  DeleteEnds (err permission_denied) = can_manage_quiz actor card.quiz ≡ false
  DeleteEnds (err history_protected) = card.sessions ≢ []
  DeleteEnds (err _) = ⊥

  -- On a card that is there, `delete_quiz` returns to an actor who may manage the card when it has no
  -- session, and then the card is gone; it refuses an actor without the right, and a card that has one.
  pub delete_quiz-ends : DeleteEnds (delete_quiz (some card) actor)
  unfolding delete_quiz
  delete_quiz-ends = elim (Bool-cases (can_manage_quiz actor card.quiz)) [
    | inl can ↦ rw can (kept can card.sessions refl)
    | inr barred ↦ rw barred barred
  ]
    where
      cons_not : {s : LiveSession} {ss : List LiveSession} → s ∷ ss ≡ [] → ⊥
      cons_not p = cc

      kept :
          can_manage_quiz actor card.quiz ≡ true
          → (ss : List LiveSession) → card.sessions ≡ ss
          → DeleteEnds (raise_if (any (λ s. true) ss) history_protected >> ok none)
      kept can [] e = (can, e, refl)
      kept can (s ∷ ss) e = λ p. cons_not (sym e ∙ p)
