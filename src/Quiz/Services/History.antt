-- ===== src/Quiz/Services/History.antt =====
-- Whatever services follow one another on a card, beside the gameplay of its sessions.
use umclick.Common.{
  ℕ, ◌≡◌, refl, sym, ap, ◌∙◌, subst, Bool, true, ◌⊎◌, inl, inr, some, List, [], ◌∷◌, ◌++◌, keep,
  All, ok,
}
use umclick.Quiz.Model.{Text, QuizVersion}
use umclick.Quiz.Merge.{Changes}
use umclick.Quiz.Card.{Actor, Card, is_fixed}
use umclick.Quiz.Card.Valid.{Plays, AllOver, IsValid}
use umclick.Quiz.Services.{Draw, save_quiz_content, archive_quiz, restore_quiz, create_live_session}
use umclick.Quiz.Services.Save.{SaveEnds, save_quiz_content-ends}
use umclick.Quiz.Services.Launch.{LaunchEnds, create_live_session-ends}
use umclick.Quiz.Services.Shelve.{ArchiveEnds, RestoreEnds, archive_quiz-ends, restore_quiz-ends}
use umclick.Session.Model.{LiveSession, Game, Env, is_over}
use umclick.Session.Valid
use umclick.Session.History.{History}
use umclick.Session.History.Lasting.{Lasts, History-Lasts}

-- Rows of sessions after gameplay: each has its version still, and one that was over is over.
abbrev PlayedOn : List LiveSession → List LiveSession → Type 0
PlayedOn [] [] = Unit {0}
PlayedOn (s ∷ ss) (t ∷ ts) =
    (t.quiz_version_id ≡ s.quiz_version_id)
    × (is_over s.status ≡ true → is_over t.status ≡ true)
    × PlayedOn ss ts
PlayedOn _ _ = ⊥

-- One service that returned, or committed gameplay of one session.
pub data Service (env : Env) (is_space : ℕ → Bool) (card : Card) : Card → Type 0 where
  saved :
      (actor : Actor) (expected : ℕ) (changes : Changes) (after : Card)
      → save_quiz_content is_space (some card) actor expected changes ≡ ok after
      → Service env is_space card after
  archived :
      (actor : Actor) (now : ℕ) (after : Card)
      → archive_quiz (some card) actor now ≡ ok after
      → Service env is_space card after
  restored :
      (actor : Actor) (after : Card)
      → restore_quiz (some card) actor ≡ ok after
      → Service env is_space card after
  launched :
      (actor : Actor) (host_name : Text) (draw : Draw) (after : Card) (session : LiveSession)
      → create_live_session is_space (some card) actor host_name draw ≡ ok (after, session)
      → Service env is_space card after
  played :
      (before after : List LiveSession) (g h : Game)
      → card.sessions ≡ before ++ (g.session ∷ after)
      → Valid.IsValid g
      → History env g h
      → Service env is_space card (record card { sessions = before ++ (h.session ∷ after) })

pub data Services (env : Env) (is_space : ℕ → Bool) (card : Card) : Card → Type 0 where
  start : Services env is_space card card
  next :
      (middle after : Card)
      → Services env is_space card middle
      → Service env is_space middle after
      → Services env is_space card after

-- The fixed versions of before are the older ones among those of after.
abbrev pub Keeps : Card → Card → Type 0
Keeps card after =
    (new : List QuizVersion) × (keep is_fixed after.versions ≡ new ++ keep is_fixed card.versions)

PlayedOn-refl : (ss : List LiveSession) → PlayedOn ss ss
PlayedOn-refl [] = tt
PlayedOn-refl (s ∷ ss) = (refl, (λ e. e), PlayedOn-refl ss)

PlayedOn-middle :
    (before after : List LiveSession) {g h : Game}
    → Lasts g h
    → PlayedOn (before ++ (g.session ∷ after)) (before ++ (h.session ∷ after))
PlayedOn-middle [] after l = (l.version, l.over, PlayedOn-refl after)
PlayedOn-middle (s ∷ before) after l = (refl, (λ e. e), PlayedOn-middle before after l)

PlayedOn-Plays :
    (vs : List QuizVersion) (ss ts : List LiveSession)
    → PlayedOn ss ts
    → All (Plays vs) ss
    → All (Plays vs) ts
PlayedOn-Plays vs [] [] p h = tt
PlayedOn-Plays vs (s ∷ ss) (t ∷ ts) (e, o, p) h = (rw e h.0, PlayedOn-Plays vs ss ts p h.1)
PlayedOn-Plays vs [] (t ∷ ts) p h = elim p [ ]
PlayedOn-Plays vs (s ∷ ss) [] p h = elim p [ ]

PlayedOn-AllOver : (ss ts : List LiveSession) → PlayedOn ss ts → AllOver ss → AllOver ts
PlayedOn-AllOver [] [] p h = tt
PlayedOn-AllOver (s ∷ ss) (t ∷ ts) (e, o, p) h = (o h.0, PlayedOn-AllOver ss ts p h.1)
PlayedOn-AllOver [] (t ∷ ts) p h = elim p [ ]
PlayedOn-AllOver (s ∷ ss) [] p h = elim p [ ]

Service-Keeps :
    (env : Env) (is_space : ℕ → Bool) (card after : Card)
    → Service env is_space card after
    → IsValid card
    → IsValid after × Keeps card after
Service-Keeps env is_space card _ (saved actor expected changes after e) h =
    let (base, d, _, s) =
      subst (SaveEnds is_space card actor expected changes) e
        (save_quiz_content-ends is_space card actor expected changes h) in
    (s.valid, ([], s.history))
Service-Keeps env is_space card _ (archived actor now after e) h =
    let (can, valid, at, over, kept) =
      subst (ArchiveEnds card actor now) e (archive_quiz-ends card actor now h) in
    (valid, ([], ap (keep is_fixed) kept.0))
Service-Keeps env is_space card _ (restored actor after e) h =
    let (can, valid, at, kept) =
      subst (RestoreEnds card actor) e (restore_quiz-ends card actor h) in
    (valid, ([], ap (keep is_fixed) kept.0))
Service-Keeps env is_space card _ (launched actor host_name draw after session e) h =
    let (can, shown, base, found, l) =
      subst (LaunchEnds is_space card actor host_name draw) e
        (create_live_session-ends is_space card actor host_name draw h) in
    let (f, same, valid, history) = l.game in (l.valid, grown f history)
  where
    grown :
        (f : QuizVersion)
        → (keep is_fixed after.versions ≡ keep is_fixed card.versions)
          ⊎ (keep is_fixed after.versions ≡ f ∷ keep is_fixed card.versions)
        → Keeps card after
    grown f (inl p) = ([], p)
    grown f (inr p) = (f ∷ [], p)
Service-Keeps env is_space card _ (played before after g g' e v p) h =
    let on =
      subst (λ ss. PlayedOn ss (before ++ (g'.session ∷ after))) (sym e)
        (PlayedOn-middle before after (History-Lasts env g g' v p)) in
    (
      record {
        versions = h.versions;
        falling = h.falling;
        present = h.present;
        sessions = PlayedOn-Plays card.versions card.sessions _ on h.sessions;
        archived = λ a. PlayedOn-AllOver card.sessions _ on (h.archived a);
      },
      ([], refl),
    )

append_assoc {ℓ} : {A : Type ℓ} (xs ys zs : List A) → xs ++ (ys ++ zs) ≡ (xs ++ ys) ++ zs
append_assoc [] ys zs = refl
append_assoc (x ∷ xs) ys zs = ap (λ r. x ∷ r) (append_assoc xs ys zs)

-- Whatever services return one after another on a valid card (saves, archivings, restorings, launches),
-- and whatever is committed between them in valid games of its sessions (commands, timer steps, presses),
-- the card is valid afterwards, and its fixed versions of before are the oldest of its fixed versions, row
-- for row with their questions and choices.
pub Services-Keeps :
    (env : Env) (is_space : ℕ → Bool) (card after : Card)
    → IsValid card
    → Services env is_space card after
    → IsValid after × Keeps card after
Services-Keeps env is_space card _ h start = (h, ([], refl))
Services-Keeps env is_space card _ h (next middle after steps step) =
    let (valid, (old, e)) = Services-Keeps env is_space card middle h steps in
    let (valid', (new, e')) = Service-Keeps env is_space middle after step valid in
    (
      valid',
      (
        new ++ old,
        e' ∙ ap (λ xs. new ++ xs) e ∙ append_assoc new old (keep is_fixed card.versions),
      ),
    )
