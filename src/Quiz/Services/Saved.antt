-- ===== src/Quiz/Services/Saved.antt =====
-- When `save_quiz_content` accepts a request, what it leaves, and with what it refuses the others.
use mathlib.Core.Logic.{ite}
use umclick.Common.{
  ℕ, ◌+◌, ◌≡◌, ◌≢◌, refl, sym, ap, ◌∙◌, Bool, true, false, some, List, keep, is_some, ok, ◌>>=◌,
  if◌then◌else◌,
}
use umclick.Quiz.Model.{QuizVersion}
use umclick.Quiz.Content.{Content, quiz_data, canonical, Content-discrete}
use umclick.Quiz.Validation.Accepts.{Playable}
use umclick.Quiz.Merge.{Changes, merge_content}
use umclick.Quiz.Merge.Laws.{Merged}
use umclick.Quiz.Card.{
  Actor, Quiz, Card, is_fixed, can_manage_quiz, get_effective_version, locked_draft,
}
use umclick.Quiz.Card.Valid.{IsValid, effective_head}
use umclick.Quiz.Card.Newest.{Newest}
use umclick.Quiz.Services.{same_content, write_content, store_content, revised}
use umclick.Quiz.Services.Written.{write_content-Drafted, revised-IsValid}

-- What a request to save must fulfil; `base` is the version that is shown, `d` what the changes make
-- of it.
pub record Accepted (is_space : ℕ → Bool) (card : Card) (actor : Actor) (expected : ℕ)
    (changes : Changes) (base : QuizVersion) (d : Content) : Type 0 where
  pub allowed : can_manage_quiz actor card.quiz ≡ true
  pub shown : is_some card.quiz.archived_at ≡ false
  pub current : card.quiz.content_revision ≡ expected
  pub effective : get_effective_version card ≡ some base
  pub merged : merge_content (some (quiz_data base)) changes ≡ ok d
  pub playable : Playable is_space d

-- What a save leaves: the content, the fixed versions and the sessions, and the revision, which moves
-- just when the content is another one.
pub record Saved (card : Card) (base : QuizVersion) (d : Content) (after : Card) : Type 0 where
  pub valid : IsValid after
  pub content :
      (v : QuizVersion) × (get_effective_version after ≡ some v)
      × (canonical (quiz_data v) ≡ canonical d)
  pub history : keep is_fixed after.versions ≡ keep is_fixed card.versions
  pub sessions : after.sessions ≡ card.sessions
  pub unchanged : canonical d ≡ canonical (quiz_data base) → after ≡ card
  pub changed : canonical d ≢ canonical (quiz_data base) → after.quiz ≡ (revised card).quiz

held {ℓ} : {A : Type ℓ} (d : Dec A) → A → ite d true false ≡ true
held (yes a) x = refl
held (no f) x = absurd (f x)

denied {ℓ} : {A : Type ℓ} (d : Dec A) → (A → ⊥) → ite d true false ≡ false
denied (yes a) f = absurd (f a)
denied (no g) f = refl

pub same_content-true : (a b : Content) → canonical a ≡ canonical b → same_content a b ≡ true
same_content-true a b = held (Content-discrete (canonical a) (canonical b))

pub same_content-false : (a b : Content) → canonical a ≢ canonical b → same_content a b ≡ false
same_content-false a b = denied (Content-discrete (canonical a) (canonical b))

pub store_content-Saved :
    (card : Card) (v : QuizVersion) (vs : List QuizVersion) (d : Content)
    → IsValid card
    → Newest card v vs
    → Merged (quiz_data v).questions d.questions
    → (after : Card) × (store_content card v d ≡ ok after) × Saved card v d after
unfolding store_content get_effective_version
store_content-Saved card v vs d h n m =
    elim (Content-discrete (canonical d) (canonical (quiz_data v))) [
      | yes e ↦ (
        card,
        stored (same_content-true d (quiz_data v) e),
        record {
          valid = h;
          content = (v, effective_head card v vs n.at n.falling, sym e);
          history = refl;
          sessions = refl;
          unchanged = λ _. refl;
          changed = λ f. absurd (f e);
        },
      )
      | no f ↦
          let (after, r, done) = write_content-Drafted card v vs d h n m in
          let (w, found, _, same) = done.content in
          (
            revised after,
            written (same_content-false d (quiz_data v) f) r,
            record {
              valid = revised-IsValid after done.valid;
              content = (w, effective_revised after found, same);
              history = done.history;
              sessions = done.sessions;
              unchanged = λ e. absurd (f e);
              changed = λ _.
                  ap (λ (q : Quiz). record q { content_revision = q.content_revision + 1 })
                    done.quiz;
            },
          )
    ]
  where
    stored : same_content d (quiz_data v) ≡ true → store_content card v d ≡ ok card
    stored e =
        ap
          (λ b.
            if b
            then ok card
            else (write_content card (locked_draft card) v d >>= λ x. ok (revised x)))
          e

    written :
        {after : Card}
        → same_content d (quiz_data v) ≡ false
        → write_content card (locked_draft card) v d ≡ ok after
        → store_content card v d ≡ ok (revised after)
    written {after} e r =
        ap
          (λ b.
            if b
            then ok card
            else (write_content card (locked_draft card) v d >>= λ x. ok (revised x)))
          e
        ∙ ap (λ w. w >>= λ x. ok (revised x)) r

    effective_revised :
        {w : QuizVersion} (after : Card)
        → get_effective_version after ≡ some w
        → get_effective_version (revised after) ≡ some w
    effective_revised after e = e
