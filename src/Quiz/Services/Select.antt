-- ===== src/Quiz/Services/Select.antt =====
-- Which version `create_live_session` plays, and what it makes of the card.
use umclick.Common.{
  ℕ, ◌==◌, ◌≡◌, refl, sym, ap, ◌∙◌, subst, Bool, true, false, ◌&&◌, ◌||◌, Option, none, some, List,
  [], ◌∷◌, find, keep, any, Bool-cases, inl, inr, ◌⊎◌, Result, ok, err, Result-cases, arith,
  if◌then◌else◌,
}
use umclick.Quiz.Model.{QuizVersion, ordered_questions}
use umclick.Quiz.Content.{quiz_data, canonical, Content-discrete}
use umclick.Quiz.Content.Rows.{RowsTidy}
use umclick.Quiz.Validation.{Errors, validate_quiz_data}
use umclick.Quiz.Refusals.{Refusal, invalid_content}
use umclick.Quiz.Merge.Known.{find-All}
use umclick.Quiz.Card.{Card, is_draft, is_fixed, get_effective_version, latest_fixed, locked_draft}
use umclick.Quiz.Card.Valid.{
  VersionValid, IsValid, draft-not_fixed, not_draft-fixed, effective_head, locked_draft_head,
  latest_fixed_head,
}
use umclick.Quiz.Card.Newest.{Newest, Plays-over, Plays-under, with_newest-IsValid}
use umclick.Quiz.Services.{validated, replace_version, fixed_at_moment, fix_draft, select_version}
use umclick.Quiz.Services.Saved.{same_content-true, same_content-false}
use umclick.Quiz.Services.Written.{replace_version-head}

-- The version `f` is a fixed one among these.
abbrev pub Among : QuizVersion → List QuizVersion → Type 0
Among f vs = any (λ (v : QuizVersion). v.pk == f.pk && is_fixed v) vs ≡ true

-- A selection of the version `f`: it is fixed and holds what the version shown held. The fixed versions
-- of before are still there, and `f` is one of them or the draft that was fixed now.
pub record Selected (card : Card) (base : QuizVersion) (after : Card) (f : QuizVersion)
    : Type 0 where
  pub valid : IsValid after
  pub among : Among f after.versions
  pub content : canonical (quiz_data f) ≡ canonical (quiz_data base)
  pub shown :
      (v : QuizVersion) × (get_effective_version after ≡ some v)
      × (canonical (quiz_data v) ≡ canonical (quiz_data base))
  pub history :
      (keep is_fixed after.versions ≡ keep is_fixed card.versions)
      ⊎ (keep is_fixed after.versions ≡ f ∷ keep is_fixed card.versions)
  pub sessions : after.sessions ≡ card.sessions
  pub quiz : after.quiz ≡ card.quiz
  pub key : after.next_session_pk ≡ card.next_session_pk
  pub rows : RowsTidy f.questions

abbrev pub SelectEnds :
    (ℕ → Bool) → Card → QuizVersion → Result Refusal (Card × QuizVersion) → Type 0
SelectEnds is_space card base (ok (after, f)) = Selected card base after f
SelectEnds is_space card base (err (invalid_content errors)) =
    (is_draft base ≡ true) × (validate_quiz_data is_space (quiz_data base) ≡ err errors)
SelectEnds is_space card base (err _) = ⊥

find-Among : (vs : List QuizVersion) (f : QuizVersion) → find is_fixed vs ≡ some f → Among f vs
find-Among [] f e = absurd (cc)
find-Among (v ∷ vs) f e = elim (Bool-cases (is_fixed v)) [
  | inl t ↦ here t (some_eq (rw t at e))
  | inr t ↦ rw t (there (v.pk == f.pk) (find-Among vs f (rw t at e)))
]
  where
    some_eq : some v ≡ some f → v ≡ f
    some_eq p = cc

    here : is_fixed v ≡ true → v ≡ f → Among f (v ∷ vs)
    here t p = rw (t, same (ap (λ (x : QuizVersion). x.pk) p)) refl
      where
        same : {a b : ℕ} → a ≡ b → (a == b) ≡ true
        same p = ground arith

    there : (b : Bool) {c : Bool} → c ≡ true → ((b && false) || c) ≡ true
    there b p = ground arith

module _ (is_space : ℕ → Bool) (card : Card) (v : QuizVersion) (vs : List QuizVersion)
    (h : IsValid card) (n : Newest card v vs) where
  -- A version that was fixed before is selected.
  stored-Selected :
      (f : QuizVersion)
      → find is_fixed (v ∷ vs) ≡ some f
      → canonical (quiz_data f) ≡ canonical (quiz_data v)
      → Selected card v card f
  stored-Selected f e same = record {
    valid = h;
    among = subst (Among f) (sym n.at) (find-Among (v ∷ vs) f e);
    content = same;
    shown = (v, effective_head card v vs n.at n.falling, refl);
    history = inl refl;
    sessions = refl;
    quiz = refl;
    key = refl;
    rows =
        (find-All (VersionValid card.quiz.pk card.next_version_pk card.next_question_pk) is_fixed
          (v ∷ vs) f e (n.head, n.tail)).rows;
  }

  validated_fix :
      (now : ℕ)
      → validate_quiz_data is_space (quiz_data v) ≡ ok tt
      → fix_draft is_space card v now
        ≡ ok (
          record card { versions = replace_version (fixed_at_moment v now) card.versions },
          fixed_at_moment v now,
        )
  validated_fix now e = rw (validated, e) refl

  refused_fix :
      (now : ℕ) (errors : Errors)
      → validate_quiz_data is_space (quiz_data v) ≡ err errors
      → fix_draft is_space card v now ≡ err (invalid_content errors)
  refused_fix now errors e = rw (validated, e) refl

  fix_draft-ends :
      (now : ℕ) → is_draft v ≡ true → SelectEnds is_space card v (fix_draft is_space card v now)
  unfolding ordered_questions
  fix_draft-ends now e =
      let f = fixed_at_moment v now in
      let fresh = draft-not_fixed v e in
      let after : Card = record card { versions = f ∷ vs } in
      let at : replace_version f card.versions ≡ f ∷ vs =
        ap (replace_version f) n.at ∙ replace_version-head v f vs refl n.falling in
      elim (Result-cases (validate_quiz_data is_space (quiz_data v))) [
        | inl (errors, i) ↦
            subst (SelectEnds is_space card v) (sym (refused_fix now errors i)) (e, i)
        | inr (done, p) ↦
            subst (SelectEnds is_space card v)
              (sym (validated_fix now p ∙ ap (λ xs. ok (record card { versions = xs }, f)) at))
              (record {
                valid =
                    with_newest-IsValid card f vs card.quiz card.next_version_pk
                      card.next_question_pk card.next_choice_pk h refl refl (omega arith)
                      (omega arith)
                      (record {
                        quiz_id = n.head.quiz_id;
                        key = n.head.key;
                        rows = n.head.rows;
                        below = n.head.below;
                        stamped = refl;
                      })
                      n.tail n.falling
                      (Plays-over f vs card.sessions
                        (Plays-under v vs card.sessions fresh n.sessions));
                among = ground arith;
                content = refl;
                shown = (f, effective_head after f vs refl n.falling, refl);
                history = inr (ap (λ xs. f ∷ xs) (rw fresh refl ∙ ap (keep is_fixed) (sym n.at)));
                sessions = refl;
                quiz = refl;
                key = refl;
                rows = n.head.rows;
              })
      ]

  drafted_ends :
      (now : ℕ) (latest : Option QuizVersion)
      → is_draft v ≡ true
      → find is_fixed (v ∷ vs) ≡ latest
      → SelectEnds is_space card v (select_version is_space card (some v) latest now)
  unfolding select_version
  drafted_ends now none e found = fix_draft-ends now e
  drafted_ends now (some f) e found =
      elim (Content-discrete (canonical (quiz_data v)) (canonical (quiz_data f))) [
        | yes same ↦
            rw (same_content-true (quiz_data v) (quiz_data f) same)
              (stored-Selected f found (sym same))
        | no differ ↦
            rw (same_content-false (quiz_data v) (quiz_data f) differ) (fix_draft-ends now e)
      ]

  pub select_version-ends :
      (now : ℕ)
      → SelectEnds is_space card v
          (select_version is_space card (locked_draft card) (latest_fixed card) now)
  unfolding select_version
  select_version-ends now =
      subst
        (λ o. SelectEnds is_space card v (select_version is_space card o (latest_fixed card) now))
        (sym (locked_draft_head card v vs n.at n.falling))
        (subst
          (λ o.
            SelectEnds is_space card v
              (select_version is_space card (if is_draft v then some v else none) o now))
          (sym (latest_fixed_head card v vs n.at n.falling)) (either (is_draft v) refl))
    where
      either :
          (b : Bool)
          → is_draft v ≡ b
          → SelectEnds is_space card v (
              select_version is_space card
                (if b then some v else none)
                (find is_fixed (v ∷ vs))
                now)
      either true e = drafted_ends now (find is_fixed (v ∷ vs)) e refl
      either false e =
          let old = not_draft-fixed v e in rw old (stored-Selected v (rw old refl) refl)
