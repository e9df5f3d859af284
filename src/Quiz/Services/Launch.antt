-- ===== src/Quiz/Services/Launch.antt =====
-- Every end of `create_live_session` on a card that is there.
use umclick.Common.{
  ℕ, suc, ◌==◌, ◌≡◌, refl, ap, ◌∙◌, Bool, true, false, ◌⊎◌, some, [], ◌∷◌, any, keep, is_some,
  Bool-cases, inl, inr, Result, ok, err, ◌>>=◌,
}
use umclick.Quiz.Model.{Text, QuizVersion, ordered_questions}
use umclick.Quiz.Content.{quiz_data, canonical}
use umclick.Quiz.Content.Rows.{RowsTidy}
use umclick.Quiz.Validation.{validate_quiz_data}
use umclick.Quiz.Refusals.{
  Refusal, permission_denied, quiz_archived, invalid_content, no_free_pin, integrity_error,
}
use umclick.Quiz.Card.{
  Actor, Quiz, Card, is_draft, is_fixed, can_manage_quiz, get_effective_version, latest_fixed,
  locked_draft,
}
use umclick.Quiz.Card.Valid.{Plays, IsValid, effective_head}
use umclick.Quiz.Card.Newest.{newest}
use umclick.Quiz.Services.{Draw, new_session, place_pin, select_version, create_live_session}
use umclick.Quiz.Services.Pins.{AllTaken, FirstFree, PinEnds, place_pin-ends}
use umclick.Quiz.Services.Select.{Selected, SelectEnds, select_version-ends}
use umclick.Session.Model.{LiveSession, Game, is_over}
use umclick.Session.Valid

-- The stored rows of a session that was just created.
abbrev pub new_game : QuizVersion → LiveSession → Game
new_game v s = record {
  session = s;
  version = v;
  runs = [];
  participants = [];
  attempts = [];
  finals = [];
  commands = [];
  events = [];
  next_run_pk = 1;
  next_attempt_pk = 1;
}

module _ (card : Card) (f : QuizVersion) (actor : Actor) (host_name : Text) (draw : Draw)
    (pin : ℕ) where
  new_game-IsValid :
      RowsTidy f.questions
      → Valid.IsValid (new_game f (new_session card f actor host_name draw pin))
  new_game-IsValid rows = record {
    linked = refl;
    questions = rows.keys;
    placed = ((refl, refl), refl, refl, refl);
    runs = record {
      below = tt;
      numbered = tt;
      played = ([], ordered_questions f, refl, tt);
      dated = tt;
    };
    people = tt;
    finals = tt;
    attempts = tt;
  }

-- What a launch leaves. The session waits, plays a fixed version with the content that is shown, and is
-- the first row of a game in which everything holds that the gameplay relies on.
pub record Launched (card : Card) (draw : Draw) (base : QuizVersion) (after : Card)
    (s : LiveSession) : Type 0 where
  pub valid : IsValid after
  pub plays : Plays after.versions s
  pub game :
      (f : QuizVersion) × (canonical (quiz_data f) ≡ canonical (quiz_data base))
      × Valid.IsValid (new_game f s)
      × ((keep is_fixed after.versions ≡ keep is_fixed card.versions)
          ⊎ (keep is_fixed after.versions ≡ f ∷ keep is_fixed card.versions))
  pub sessions : after.sessions ≡ s ∷ card.sessions
  pub waits : is_over s.status ≡ false
  pub pin : FirstFree draw.pins draw.open_pins 20 0 s.pin
  pub token : any (λ t. t == s.join_token) draw.used_tokens ≡ false

module _ (is_space : ℕ → Bool) (card : Card) (actor : Actor) (host_name : Text) (draw : Draw) where
  abbrev pub LaunchEnds : Result Refusal (Card × LiveSession) → Type 0
  LaunchEnds (ok (after, s)) =
      (can_manage_quiz actor card.quiz ≡ true)
      × (is_some card.quiz.archived_at ≡ false)
      × (base : QuizVersion) × (get_effective_version card ≡ some base)
      × Launched card draw base after s
  LaunchEnds (err permission_denied) = can_manage_quiz actor card.quiz ≡ false
  LaunchEnds (err quiz_archived) = is_some card.quiz.archived_at ≡ true
  LaunchEnds (err (invalid_content errors)) =
      (base : QuizVersion) × (get_effective_version card ≡ some base)
      × (is_draft base ≡ true)
      × (validate_quiz_data is_space (quiz_data base) ≡ err errors)
  LaunchEnds (err no_free_pin) = AllTaken draw.pins draw.open_pins 20 0
  LaunchEnds (err integrity_error) = any (λ t. t == draw.join_token) draw.used_tokens ≡ true
  LaunchEnds (err _) = ⊥

  abbrev stored : Card → QuizVersion → ℕ → Card × LiveSession
  stored chosen f pin =
      let session = new_session chosen f actor host_name draw pin in
      (
        record chosen {
          sessions = session ∷ chosen.sessions;
          next_session_pk = suc chosen.next_session_pk;
        },
        session,
      )

  abbrev used : Bool
  used = any (λ t. t == draw.join_token) draw.used_tokens

  abbrev rest : Card × QuizVersion → Result Refusal (Card × LiveSession)
  rest (chosen, f) =
      place_pin draw.pins draw.open_pins used 20 0 >>= λ pin. ok (stored chosen f pin)

  stored-Launched :
      (base : QuizVersion) (chosen : Card) (f : QuizVersion) (pin : ℕ)
      → is_some card.quiz.archived_at ≡ false
      → Selected card base chosen f
      → used ≡ false
      → FirstFree draw.pins draw.open_pins 20 0 pin
      → Launched card draw base (stored chosen f pin).0 (stored chosen f pin).1
  stored-Launched base chosen f pin shown s fresh free = record {
    valid = record {
      versions = s.valid.versions;
      falling = s.valid.falling;
      present = s.valid.present;
      sessions = (s.among, s.valid.sessions);
      archived = λ e. absurd (closed (ap (λ (q : Quiz). is_some q.archived_at) s.quiz ∙ shown) e);
    };
    plays = s.among;
    game = (f, s.content, new_game-IsValid chosen f actor host_name draw pin s.rows, s.history);
    sessions = ap (λ ss. new_session chosen f actor host_name draw pin ∷ ss) s.sessions;
    waits = refl;
    pin = free;
    token = fresh;
  }
    where
      closed : {b : Bool} → b ≡ false → b ≡ true → ⊥
      closed e h = cc

  rest_ends :
      (base : QuizVersion) (chosen : Card) (f : QuizVersion)
      → can_manage_quiz actor card.quiz ≡ true
      → is_some card.quiz.archived_at ≡ false
      → get_effective_version card ≡ some base
      → Selected card base chosen f
      → (r : Result Refusal ℕ) → PinEnds draw.pins draw.open_pins used 20 0 r
      → LaunchEnds (r >>= λ pin. ok (stored chosen f pin))
  rest_ends base chosen f can shown found s (ok pin) (fresh, free) =
      (can, shown, base, found, stored-Launched base chosen f pin shown s fresh free)
  rest_ends base chosen f can shown found s (err no_free_pin) h = h
  rest_ends base chosen f can shown found s (err integrity_error) h = h.0
  rest_ends base chosen f can shown found s (err _) h = elim h [ ]

  select_ends :
      (base : QuizVersion)
      → can_manage_quiz actor card.quiz ≡ true
      → is_some card.quiz.archived_at ≡ false
      → get_effective_version card ≡ some base
      → (r : Result Refusal (Card × QuizVersion)) → SelectEnds is_space card base r
      → LaunchEnds (r >>= rest)
  select_ends base can shown found (ok (chosen, f)) s =
      rest_ends base chosen f can shown found s (place_pin draw.pins draw.open_pins used 20 0)
        (place_pin-ends draw.pins draw.open_pins used 20 0)
  select_ends base can shown found (err (invalid_content errors)) (e, i) = (base, found, e, i)
  select_ends base can shown found (err _) h = elim h [ ]

  -- On a valid card that is there, `create_live_session` ends in just these ways. It returns to an actor
  -- who may manage the card, if the card is not archived; the card then has one more session and is valid
  -- again. The session waits, plays a fixed version with the content that was shown, up to the keys of
  -- rows, starts a valid game, and has a token that no session has and the first drawn pin of at most
  -- twenty that no open session has. The fixed versions of before are kept, and at most the version
  -- played is new among them. The refusals are: no right to manage the card, an archived card, a draft
  -- that the validation refuses, with its errors, twenty drawn pins that are all taken, and a token that
  -- is used.
  pub create_live_session-ends :
      IsValid card → LaunchEnds (create_live_session is_space (some card) actor host_name draw)
  unfolding create_live_session
  create_live_session-ends h = elim (Bool-cases (can_manage_quiz actor card.quiz)) [
    | inl can ↦ elim (Bool-cases (is_some card.quiz.archived_at)) [
      | inl hidden ↦ rw (can, hidden) hidden
      | inr shown ↦
          let (v, vs, n) = newest card h in
          rw (can, shown)
            (select_ends v can shown (effective_head card v vs n.at n.falling)
              (select_version is_space card (locked_draft card) (latest_fixed card) draw.now)
              (select_version-ends is_space card v vs h n draw.now))
    ]
    | inr barred ↦ rw barred barred
  ]
