-- ===== src/Quiz/Services/Save.antt =====
-- Every end of `save_quiz_content` on a card that is there.
use umclick.Common.{
  ℕ, ◌==◌, ◌≡◌, ◌≢◌, refl, sym, ◌∙◌, subst, Bool, true, false, not, none, some, List, find, is_some,
  Bool-cases, inl, inr, Result, ok, err, ◌>>=◌, ◌>>◌, Returns, Raises, Result-cases, arith,
  if◌then◌else◌,
}
use umclick.Quiz.Model.{QuizVersion, ordered_questions}
use umclick.Quiz.Content.{Content, quiz_data}
use umclick.Quiz.Validation.{Errors, validate_quiz_data}
use umclick.Quiz.Validation.Accepts.{validate_quiz_data-Playable}
use umclick.Quiz.Refusals.{
  Refusal, permission_denied, quiz_archived, quiz_revision_conflict, unknown_question,
  unknown_choice, invalid_content,
}
use umclick.Quiz.Merge.{Changes, merge_content}
use umclick.Quiz.Merge.Errors.{MergeError, merge_content-Raises}
use umclick.Quiz.Merge.Laws.{Merged, merge_content-Merged}
use umclick.Quiz.Card.{
  Actor, Card, is_draft, is_fixed, can_manage_quiz, get_effective_version, latest_fixed,
  locked_draft,
}
use umclick.Quiz.Card.Valid.{
  IsValid, draft_or_fixed, effective_head, locked_draft_head, latest_fixed_head,
}
use umclick.Quiz.Card.Newest.{Newest, newest}
use umclick.Quiz.Graph.Stored.{rows-Stored}
use umclick.Quiz.Services.{validated, first_some, store_content, save_quiz_content}
use umclick.Quiz.Services.Saved.{Accepted, Saved, store_content-Saved}

-- The version whose content is changed is the newest one.
base_found :
    (card : Card) (v : QuizVersion) (vs : List QuizVersion)
    → Newest card v vs
    → first_some (locked_draft card) (latest_fixed card) ≡ some v
base_found card v vs n =
    rw (locked_draft_head card v vs n.at n.falling, latest_fixed_head card v vs n.at n.falling)
      (either (is_draft v) (is_fixed v) (draft_or_fixed v))
  where
    either :
        (d f : Bool)
        → d ≡ not f
        → first_some (if d then some v else none) (if f then some v else find is_fixed vs) ≡ some v
    either true f e = refl
    either false true e = refl
    either false false e = absurd (cc)

-- Behind the checks of the card.
save_step :
    (is_space : ℕ → Bool) (card : Card) (actor : Actor) (expected : ℕ) (changes : Changes)
    (v : QuizVersion) (vs : List QuizVersion)
    → Newest card v vs
    → can_manage_quiz actor card.quiz ≡ true
    → is_some card.quiz.archived_at ≡ false
    → (card.quiz.content_revision == expected) ≡ true
    → save_quiz_content is_space (some card) actor expected changes ≡ (
        merge_content (some (quiz_data v)) changes >>= λ d.
        validated is_space d >> store_content card v d)
unfolding save_quiz_content
save_step is_space card actor expected changes v vs n can shown current =
    rw (can, shown, current, base_found card v vs n) refl

-- What each refusal of a save tells of the request.
module _ (is_space : ℕ → Bool) (card : Card) (actor : Actor) (expected : ℕ)
    (changes : Changes) where
  abbrev pub SaveRefused : Refusal → Type 0
  SaveRefused permission_denied = can_manage_quiz actor card.quiz ≡ false
  SaveRefused quiz_archived = is_some card.quiz.archived_at ≡ true
  SaveRefused (quiz_revision_conflict n) =
      (n ≡ card.quiz.content_revision) × (card.quiz.content_revision ≢ expected)
  SaveRefused (unknown_question i) =
      (base : QuizVersion) × (get_effective_version card ≡ some base)
      × (merge_content (some (quiz_data base)) changes ≡ err (unknown_question i))
  SaveRefused (unknown_choice i j) =
      (base : QuizVersion) × (get_effective_version card ≡ some base)
      × (merge_content (some (quiz_data base)) changes ≡ err (unknown_choice i j))
  SaveRefused (invalid_content errors) =
      (base : QuizVersion) × (d : Content) × (get_effective_version card ≡ some base)
      × (merge_content (some (quiz_data base)) changes ≡ ok d)
      × (validate_quiz_data is_space d ≡ err errors)
  SaveRefused _ = ⊥

  abbrev pub SaveDone : Card → Type 0
  SaveDone after =
      (base : QuizVersion) × (d : Content) × Accepted is_space card actor expected changes base d
      × Saved card base d after

  abbrev pub SaveEnds : Result Refusal Card → Type 0
  SaveEnds (ok after) = SaveDone after
  SaveEnds (err e) = SaveRefused e

  merge_refused :
      (base : QuizVersion) (e : Refusal)
      → get_effective_version card ≡ some base
      → merge_content (some (quiz_data base)) changes ≡ err e
      → MergeError e
      → SaveRefused e
  merge_refused base (unknown_question i) found r h = (base, found, r)
  merge_refused base (unknown_choice i j) found r h = (base, found, r)
  merge_refused base _ found r h = elim h [ ]

  -- What the changes make of a stored version fits its rows.
  fits_rows :
      (v : QuizVersion) (vs : List QuizVersion) (d : Content)
      → Newest card v vs
      → merge_content (some (quiz_data v)) changes ≡ ok d
      → Merged (quiz_data v).questions d.questions
  unfolding ordered_questions
  fits_rows v vs d n r =
      subst (Returns (λ (x : Content). Merged (quiz_data v).questions x.questions)) r
        (merge_content-Merged (some (quiz_data v)) changes (rows-Stored v.questions n.head.rows))

  validated-err :
      (d : Content) (errors : Errors) (k : Result Refusal Card)
      → validate_quiz_data is_space d ≡ err errors
      → (validated is_space d >> k) ≡ err (invalid_content errors)
  validated-err d errors k e = rw (validated, e) refl

  validated-ok :
      (d : Content) (k : Result Refusal Card)
      → validate_quiz_data is_space d ≡ ok tt
      → (validated is_space d >> k) ≡ k
  validated-ok d k e = rw (validated, e) refl

  merged_ends :
      (v : QuizVersion) (vs : List QuizVersion) (d : Content)
      → IsValid card
      → Newest card v vs
      → can_manage_quiz actor card.quiz ≡ true
      → is_some card.quiz.archived_at ≡ false
      → card.quiz.content_revision ≡ expected
      → merge_content (some (quiz_data v)) changes ≡ ok d
      → SaveEnds (validated is_space d >> store_content card v d)
  merged_ends v vs d h n can shown current r =
      let found = effective_head card v vs n.at n.falling in
      elim (Result-cases (validate_quiz_data is_space d)) [
        | inl (errors, i) ↦
            subst SaveEnds (sym (validated-err d errors (store_content card v d) i))
              (v, d, found, r, i)
        | inr (done, p) ↦
            let (after, s, saved) = store_content-Saved card v vs d h n (fits_rows v vs d n r) in
            subst SaveEnds (sym (validated-ok d (store_content card v d) p ∙ s)) (
              v,
              d,
              record {
                allowed = can;
                shown = shown;
                current = current;
                effective = found;
                merged = r;
                playable = (validate_quiz_data-Playable is_space d).0 p;
              },
              saved,
            )
      ]

  checked_ends :
      (v : QuizVersion) (vs : List QuizVersion)
      → IsValid card
      → Newest card v vs
      → can_manage_quiz actor card.quiz ≡ true
      → is_some card.quiz.archived_at ≡ false
      → card.quiz.content_revision ≡ expected
      → SaveEnds (
          merge_content (some (quiz_data v)) changes >>= λ d.
          validated is_space d >> store_content card v d)
  checked_ends v vs h n can shown current =
      elim (Result-cases (merge_content (some (quiz_data v)) changes)) [
        | inl (e, r) ↦ rw r (
            merge_refused v e (effective_head card v vs n.at n.falling) r
              (subst (Raises MergeError) r (merge_content-Raises (some (quiz_data v)) changes)))
        | inr (d, r) ↦ rw r (merged_ends v vs d h n can shown current r)
      ]

  open_ends :
      IsValid card
      → can_manage_quiz actor card.quiz ≡ true
      → is_some card.quiz.archived_at ≡ false
      → (b : Bool) → (card.quiz.content_revision == expected) ≡ b
      → SaveEnds (save_quiz_content is_space (some card) actor expected changes)
  unfolding save_quiz_content
  open_ends h can shown true e =
      let (v, vs, n) = newest card h in
      subst SaveEnds (sym (save_step is_space card actor expected changes v vs n can shown e))
        (checked_ends v vs h n can shown (ground (arith, e)))
  open_ends h can shown false e = rw (can, shown, e) (refl, ground (arith, e))

  -- On a valid card that is there, `save_quiz_content` ends in just these ways. It returns when the actor may
  -- manage the card, the card is not archived, the expected revision is the card's, and the changes merge
  -- with the content that is shown into a playable one; then the newest version holds that content up to
  -- the keys of its rows, the fixed versions and the sessions are as they were, the card is untouched if the
  -- content was the same and has the next revision if not. It refuses for want of rights, on an archived
  -- card, on another revision, which it names, and with what the merge or the validation reports. It never
  -- fails on a row that is missing or on a card without a version.
  pub save_quiz_content-ends :
      IsValid card → SaveEnds (save_quiz_content is_space (some card) actor expected changes)
  unfolding save_quiz_content
  save_quiz_content-ends h = elim (Bool-cases (can_manage_quiz actor card.quiz)) [
    | inl can ↦ elim (Bool-cases (is_some card.quiz.archived_at)) [
      | inl hidden ↦ rw (can, hidden) hidden
      | inr shown ↦ open_ends h can shown (card.quiz.content_revision == expected) refl
    ]
    | inr barred ↦ rw barred barred
  ]
