-- ===== src/Quiz/Card/Newest.antt =====
-- The newest version of a card, and a card whose newest version is replaced or gets a newer one.
use umclick.Common.{
  ℕ, ◌≤◌, ◌≡◌, refl, sym, ap, ◌∙◌, subst, false, List, [], ◌∷◌, length, is_some, All, All-map,
  arith,
}
use umclick.Quiz.Model.{QuizVersion}
use umclick.Quiz.Card.{Quiz, Card, is_fixed}
use umclick.Quiz.Card.Valid.{VersionValid, Falling, Plays, IsValid, VersionValid-mono}
use umclick.Session.Model.{LiveSession}

-- A card whose newest version is `v`, with the versions before it.
pub record Newest (card : Card) (v : QuizVersion) (vs : List QuizVersion) : Type 0 where
  pub at : card.versions ≡ v ∷ vs
  pub head : VersionValid card.quiz.pk card.next_version_pk card.next_question_pk v
  pub tail : All (VersionValid card.quiz.pk card.next_version_pk card.next_question_pk) vs
  pub falling : Falling (v ∷ vs)
  pub sessions : All (Plays (v ∷ vs)) card.sessions

pub newest :
    (card : Card) → IsValid card → (v : QuizVersion) × (vs : List QuizVersion) × Newest card v vs
newest card h = take_apart card.versions refl
  where
    take_apart :
        (vs : List QuizVersion)
        → card.versions ≡ vs
        → (v : QuizVersion) × (older : List QuizVersion) × Newest card v older
    take_apart [] e =
        absurd (none_left (subst (λ (xs : List QuizVersion). 1 ≤ length xs) e h.present))
      where
        none_left : 1 ≤ 0 → ⊥
        none_left p = omega (arith, p)
    take_apart (v ∷ vs) e =
        let all =
          subst (All (VersionValid card.quiz.pk card.next_version_pk card.next_question_pk)) e
            h.versions in
        (
          v,
          vs,
          record {
            at = e;
            head = all.0;
            tail = all.1;
            falling = subst Falling e h.falling;
            sessions = subst (λ (xs : List QuizVersion). All (Plays xs) card.sessions) e h.sessions;
          },
        )

-- A session that plays an older version keeps playing it under another newest one.
pub Plays-over :
    (v : QuizVersion) (vs : List QuizVersion) (ss : List LiveSession)
    → All (Plays vs) ss
    → All (Plays (v ∷ vs)) ss
Plays-over v vs ss h = All-map (λ (s : LiveSession) p. over s p) ss h
  where
    over : (s : LiveSession) → Plays vs s → Plays (v ∷ vs) s
    over s p = ground (arith, p)

pub Plays-under :
    (v : QuizVersion) (vs : List QuizVersion) (ss : List LiveSession)
    → is_fixed v ≡ false
    → All (Plays (v ∷ vs)) ss
    → All (Plays vs) ss
Plays-under v vs ss e h = All-map (λ (s : LiveSession) p. under s p) ss h
  where
    under : (s : LiveSession) → Plays (v ∷ vs) s → Plays vs s
    under s p = ground (arith, e, p)

-- A card with the newest version `d` over `vs` is valid.
pub with_newest-IsValid :
    (card : Card) (d : QuizVersion) (vs : List QuizVersion) (quiz : Quiz) (a b c : ℕ)
    → IsValid card
    → quiz.pk ≡ card.quiz.pk
    → quiz.archived_at ≡ card.quiz.archived_at
    → card.next_version_pk ≤ a
    → card.next_question_pk ≤ b
    → VersionValid card.quiz.pk a b d
    → All (VersionValid card.quiz.pk card.next_version_pk card.next_question_pk) vs
    → Falling (d ∷ vs)
    → All (Plays (d ∷ vs)) card.sessions
    → IsValid (record card {
      quiz = quiz;
      versions = d ∷ vs;
      next_version_pk = a;
      next_question_pk = b;
      next_choice_pk = c;
    })
with_newest-IsValid card d vs quiz a b c h pk archived le_a le_b new old falling plays = record {
  versions =
      subst (λ p. All (VersionValid p a b) (d ∷ vs)) (sym pk)
        (new, All-map (λ v w. VersionValid-mono v le_a le_b w) vs old);
  falling = falling;
  present = omega arith;
  sessions = plays;
  archived = λ e. h.archived (ap (λ t. is_some t) (sym archived) ∙ e);
}
