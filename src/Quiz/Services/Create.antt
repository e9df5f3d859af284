-- ===== src/Quiz/Services/Create.antt =====
-- Every end of `create_quiz_with_draft`.
use umclick.Common.{
  ℕ, ◌≡◌, refl, subst, Bool, true, false, ◌||◌, none, [], ◌∷◌, Bool-cases, inl, inr, Result, ok,
  err, ◌>>=◌, ◌>>◌, Returns, Raises, arith,
}
use umclick.Quiz.Model.{QuizVersion, draft}
use umclick.Quiz.Content.{Content, quiz_data, canonical}
use umclick.Quiz.Content.Rows.{rows-RowsTidy}
use umclick.Quiz.Validation.{Errors, validate_quiz_data}
use umclick.Quiz.Validation.Accepts.{Playable, validate_quiz_data-Playable}
use umclick.Quiz.Refusals.{
  Refusal, permission_denied, unknown_question, unknown_choice, invalid_content,
}
use umclick.Quiz.Merge.{Changes, blank_content, merge_content}
use umclick.Quiz.Merge.Errors.{MergeError, merge_content-Raises}
use umclick.Quiz.Merge.Known.{Stored}
use umclick.Quiz.Merge.Laws.{Merged, merge_content-Merged}
use umclick.Quiz.Merge.Requested.{Requested, merge_content-Requested}
use umclick.Quiz.Card.{Actor, Card, is_draft, is_admin, is_teacher}
use umclick.Quiz.Card.Valid.{IsValid}
use umclick.Quiz.Graph.{new_questions, create_version_graph}
use umclick.Quiz.Graph.Writes.{new_questions-Written}
use umclick.Quiz.Services.{Keys, new_card, validated, create_quiz_with_draft}
use umclick.Quiz.Services.Written.{stored_back}

-- A new card: one draft with the content, no session.
pub record Created (actor : Actor) (d : Content) (card : Card) : Type 0 where
  pub valid : IsValid card
  pub content :
      (v : QuizVersion) × (card.versions ≡ v ∷ [])
      × (is_draft v ≡ true)
      × (canonical (quiz_data v) ≡ canonical d)
  pub owner : card.quiz.owner_id ≡ actor.pk
  pub shown : card.quiz.archived_at ≡ none
  pub revision : card.quiz.content_revision ≡ 1
  pub sessions : card.sessions ≡ []

nothing-Stored : Stored blank_content.questions
nothing-Stored = record {
  tidy = record { places = tt; choices = tt };
  ids = tt;
  own = tt;
  choices = tt;
}

new_card-Created :
    (keys : Keys) (actor : Actor) (d : Content)
    → Merged blank_content.questions d.questions
    → Created actor d (create_version_graph (new_card keys actor) 1 d)
unfolding create_version_graph
new_card-Created keys actor d m =
    let w = new_questions-Written keys.question keys.choice d.questions in
    let rows = new_questions keys.question keys.choice d.questions in
    let v : QuizVersion = record {
      pk = keys.version;
      quiz_id = keys.quiz;
      number = 1;
      status = draft;
      fixed_at = none;
      title = d.title;
      description = d.description;
      question_only_on_display = d.question_only_on_display;
      show_choices_on_participant = d.show_choices_on_participant;
      reading_time_sec = d.reading_time_sec;
      results_time_sec = d.results_time_sec;
      questions = rows;
    } in
    record {
      valid = record {
        versions = (
          record {
            quiz_id = refl;
            key = omega arith;
            rows = rows-RowsTidy rows d.questions w.same m.tidy w.keys;
            below = w.below;
            stamped = refl;
          },
          tt,
        );
        falling = (tt, tt);
        present = omega arith;
        sessions = tt;
        archived = λ e. tt;
      };
      content = (v, refl, refl, stored_back v d rows w m.tidy);
      owner = refl;
      shown = refl;
      revision = refl;
      sessions = refl;
    }

module _ (is_space : ℕ → Bool) (keys : Keys) (actor : Actor) (changes : Changes) where
  abbrev pub CreateRefused : Refusal → Type 0
  CreateRefused permission_denied = (is_admin actor || is_teacher actor) ≡ false
  CreateRefused (unknown_question i) = merge_content none changes ≡ err (unknown_question i)
  CreateRefused (unknown_choice i j) = merge_content none changes ≡ err (unknown_choice i j)
  CreateRefused (invalid_content errors) =
      (d : Content) × (merge_content none changes ≡ ok d)
      × (validate_quiz_data is_space d ≡ err errors)
  CreateRefused _ = ⊥

  abbrev pub CreateEnds : Result Refusal Card → Type 0
  CreateEnds (ok card) =
      ((is_admin actor || is_teacher actor) ≡ true)
      × (d : Content) × (merge_content none changes ≡ ok d)
      × Requested changes d
      × Playable is_space d
      × Created actor d card
  CreateEnds (err e) = CreateRefused e

  merge_refused :
      (e : Refusal) → merge_content none changes ≡ err e → MergeError e → CreateRefused e
  merge_refused (unknown_question i) r h = r
  merge_refused (unknown_choice i j) r h = r
  merge_refused _ r h = elim h [ ]

  abbrev made : Content → Result Refusal Card
  made d = ok (create_version_graph (new_card keys actor) 1 d)

  checked_ends :
      (d : Content) (r : Result Errors (Unit {0}))
      → (is_admin actor || is_teacher actor) ≡ true
      → merge_content none changes ≡ ok d
      → validate_quiz_data is_space d ≡ r
      → CreateEnds (validated is_space d >> made d)
  checked_ends d (ok done) can m e =
      rw (validated, e)
        (
          can,
          d,
          m,
          subst (Returns (Requested changes)) m (merge_content-Requested changes),
          (validate_quiz_data-Playable is_space d).0 e,
          new_card-Created keys actor d (
              subst (Returns (λ (x : Content). Merged blank_content.questions x.questions)) m
                (merge_content-Merged none changes nothing-Stored)),
        )
  checked_ends d (err errors) can m e = rw (validated, e) (d, m, e)

  merge_ends :
      (r : Result Refusal Content)
      → (is_admin actor || is_teacher actor) ≡ true
      → merge_content none changes ≡ r
      → CreateEnds (r >>= λ d. validated is_space d >> made d)
  merge_ends (ok d) can m = checked_ends d (validate_quiz_data is_space d) can m refl
  merge_ends (err e) can m =
      merge_refused e m (subst (Raises MergeError) m (merge_content-Raises none changes))

  -- `create_quiz_with_draft` ends in just these ways. It returns to an admin or a teacher when the
  -- request makes a playable content: each field, question and choice is what the request has, in its
  -- order and without keys, and what the request leaves out has its default, 15 and 10 seconds for reading
  -- and results, 20 for a question, empty texts and lists, choices shown and not correct. Then there is a
  -- valid card of that actor at revision 1, not archived, without sessions, whose one version is a draft
  -- with that content, up to the keys of rows. It refuses others for want of rights, and with what the
  -- merge or the validation reports.
  pub create_quiz_with_draft-ends : CreateEnds (create_quiz_with_draft is_space keys actor changes)
  unfolding create_quiz_with_draft
  create_quiz_with_draft-ends = elim (Bool-cases (is_admin actor || is_teacher actor)) [
    | inl can ↦ rw can (merge_ends (merge_content none changes) can refl)
    | inr barred ↦ rw barred barred
  ]
