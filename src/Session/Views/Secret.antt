-- ===== src/Session/Views/Secret.antt =====
-- What the snapshots keep to themselves: texts that the participants are not shown, and the marks
-- of the choices before a question is finalized.
use umclick.Common.{
  ℕ, suc, ◌≡◌, refl, ap, Bool, true, false, not, ◌||◌, Option, none, some, List, [], ◌∷◌, map,
  Bool-cases, inl, inr, is_some,
}
use mathlib.Core.Option.{map as option_map}
use umclick.Quiz.Model.{Text, Choice, Question}
use umclick.Session.Model.{Game, SessionQuestionRun}
use umclick.Session.Run.{current_run}
use umclick.Session.Results.{build_stage_b_leaderboard}
use umclick.Session.Results.Legacy.{LegacyAnswer, build_leaderboard, build_legacy_leaderboard}
use umclick.Session.Views.Questions.{
  Outlook, ordered_choices_for_session, asked_question, text_if, choice_views, display_choices,
  serialize_question_for_participants, serialize_question_for_display, technical_question,
}
use umclick.Session.Views.Reveal.{revealed_choices, reveal_of, build_answer_reveal_payload}
use umclick.Session.Views.States.{
  is_finalized, reveal_if, build_display_session_state, build_account_session_state,
}
use umclick.Session.Views.Participant.{
  materialize_participant_attempts, build_participant_session_state,
}
use umclick.Session.Views.Edit.{
  edit_choice, edit_question, edit, asked_question-edit, ordered_choices_for_session-edit,
}

module _ (o : Outlook) (g : Game) (title : Question → Text) (text : Choice → Text)
    (mark : Choice → Bool) where
  leaderboard-edit :
      (answers : List LegacyAnswer)
      → build_leaderboard answers (edit title text mark g) ≡ build_leaderboard answers g
  unfolding build_leaderboard build_stage_b_leaderboard build_legacy_leaderboard
  leaderboard-edit answers = refl

  -- Texts that are not shown may be any.
  choice_views-edit :
      (shown : Bool)
      → (shown ≡ true → (c : Choice) → text c ≡ c.text)
      → (order : ℕ) (cs : List Choice)
      → choice_views shown order (map (edit_choice text mark) cs) ≡ choice_views shown order cs
  choice_views-edit shown h order [] = refl
  choice_views-edit false h order (c ∷ cs) =
      ap (λ rest. record { id = c.pk; text = []; order = order; original_order = c.order } ∷ rest)
        (choice_views-edit false h (suc order) cs)
  choice_views-edit true h order (c ∷ cs) =
      rw (h refl c, choice_views-edit true h (suc order) cs) refl

  text_if-edit :
      (shown : Bool)
      → (shown ≡ true → (q : Question) → title q ≡ q.text)
      → (q : Question) → text_if shown (title q) ≡ text_if shown q.text
  text_if-edit false h q = refl
  text_if-edit true h q = h refl q

  question-edit :
      (not g.version.question_only_on_display ≡ true → (q : Question) → title q ≡ q.text)
      → (g.version.show_choices_on_participant ≡ true → (c : Choice) → text c ≡ c.text)
      → (q : Option Question)
      → serialize_question_for_participants o
          (edit title text mark g)
          (option_map (edit_question title text mark) q)
        ≡ serialize_question_for_participants o g q
  unfolding serialize_question_for_participants
  question-edit ht hc none = refl
  question-edit ht hc (some q) =
      rw
        (
          ordered_choices_for_session-edit o g title text mark q,
          choice_views-edit g.version.show_choices_on_participant hc 1
              (ordered_choices_for_session o g q),
          text_if-edit (not g.version.question_only_on_display) ht q,
        )
        refl

  revealed_choices-edit :
      (run : SessionQuestionRun) (shown : Bool)
      → (shown ≡ true → (c : Choice) → text c ≡ c.text)
      → ((c : Choice) → mark c ≡ c.is_correct)
      → (order : ℕ) (cs : List Choice)
      → revealed_choices o (edit title text mark g) run shown order (map (edit_choice text mark) cs)
        ≡ revealed_choices o g run shown order cs
  revealed_choices-edit run shown h hm order [] = refl
  revealed_choices-edit run false h hm order (c ∷ cs) =
      rw (hm c, revealed_choices-edit run false h hm (suc order) cs) refl
  revealed_choices-edit run true h hm order (c ∷ cs) =
      rw (hm c, h refl c, revealed_choices-edit run true h hm (suc order) cs) refl

  reveal_of-edit :
      (for_display : Bool)
      → (for_display || not g.version.question_only_on_display ≡ true
          → (q : Question) → title q ≡ q.text)
      → (for_display || g.version.show_choices_on_participant ≡ true
          → (c : Choice) → text c ≡ c.text)
      → (q : Option Question) (run : Option SessionQuestionRun)
      → (is_finalized run ≡ true → (c : Choice) → mark c ≡ c.is_correct)
      → reveal_of o
          (edit title text mark g)
          for_display
          (option_map (edit_question title text mark) q)
          run
        ≡ reveal_of o g for_display q run
  reveal_of-edit for_display ht hc none run hm = refl
  reveal_of-edit for_display ht hc (some q) none hm = refl
  reveal_of-edit for_display ht hc (some q) (some run) hm =
      elim (Bool-cases (is_some run.finalized_at)) [
        | inl e ↦
            rw
              (
                e,
                ordered_choices_for_session-edit o g title text mark q,
                revealed_choices-edit run (for_display || g.version.show_choices_on_participant) hc
                    (hm e) 1 (ordered_choices_for_session o g q),
                text_if-edit (for_display || not g.version.question_only_on_display) ht q,
                leaderboard-edit o.legacy_answers,
              )
              refl
        | inr e ↦ rw e refl
      ]

  reveal_if-edit :
      (for_display : Bool)
      → (for_display || not g.version.question_only_on_display ≡ true
          → (q : Question) → title q ≡ q.text)
      → (for_display || g.version.show_choices_on_participant ≡ true
          → (c : Choice) → text c ≡ c.text)
      → (is_finalized (current_run g) ≡ true → (c : Choice) → mark c ≡ c.is_correct)
      → reveal_if o (edit title text mark g) for_display ≡ reveal_if o g for_display
  unfolding build_answer_reveal_payload
  reveal_if-edit for_display ht hc hm =
      rw
        (
          asked_question-edit o g title text mark,
          reveal_of-edit for_display ht hc (asked_question g) (current_run g) hm,
        )
        refl

  -- The snapshot of a participant is the same whatever the texts of the questions are, if the
  -- version shows them on the display only, whatever the texts of the choices are, if it does not
  -- show them to participants, and whatever choices are the correct ones, if the current question
  -- is not finalized.
  pub build_participant_session_state-edit :
      (participation_id : Option ℕ)
      → (not g.version.question_only_on_display ≡ true → (q : Question) → title q ≡ q.text)
      → (g.version.show_choices_on_participant ≡ true → (c : Choice) → text c ≡ c.text)
      → (is_finalized (current_run g) ≡ true → (c : Choice) → mark c ≡ c.is_correct)
      → build_participant_session_state o (edit title text mark g) participation_id
        ≡ build_participant_session_state o g participation_id
  unfolding build_participant_session_state materialize_participant_attempts
  build_participant_session_state-edit participation_id ht hc hm =
      rw
        (
          asked_question-edit o g title text mark,
          question-edit ht hc (asked_question g),
          reveal_if-edit false ht hc hm,
          leaderboard-edit o.legacy_answers,
        )
        refl

module _ (o : Outlook) (g : Game) (mark : Choice → Bool) where
  abbrev remarked : Choice → Choice
  remarked = edit_choice (λ c. c.text) mark

  abbrev remark : Game → Game
  remark = edit (λ q. q.text) (λ c. c.text) mark

  display_choices-edit :
      (shown : Bool)
      → (shown ≡ true → (c : Choice) → mark c ≡ c.is_correct)
      → (order : ℕ) (cs : List Choice)
      → display_choices shown order (map remarked cs) ≡ display_choices shown order cs
  display_choices-edit shown hm order [] = refl
  display_choices-edit false hm order (c ∷ cs) =
      rw (display_choices-edit false hm (suc order) cs) refl
  display_choices-edit true hm order (c ∷ cs) =
      rw (hm refl c, display_choices-edit true hm (suc order) cs) refl

  display_question-edit :
      (is_finalized (current_run g) ≡ true → (c : Choice) → mark c ≡ c.is_correct)
      → (q : Option Question)
      → serialize_question_for_display o
          (remark g)
          (is_finalized (current_run g))
          (option_map (edit_question (λ q. q.text) (λ c. c.text) mark) q)
        ≡ serialize_question_for_display o g (is_finalized (current_run g)) q
  unfolding serialize_question_for_display
  display_question-edit hm none = refl
  display_question-edit hm (some q) =
      rw
        (
          ordered_choices_for_session-edit o g (λ q. q.text) (λ c. c.text) mark q,
          display_choices-edit (is_finalized (current_run g)) hm 1
              (ordered_choices_for_session o g q),
        )
        refl

  technical_question-edit :
      (q : Option Question)
      → technical_question (option_map (edit_question (λ q. q.text) (λ c. c.text) mark) q)
        ≡ technical_question q
  unfolding technical_question
  technical_question-edit none = refl
  technical_question-edit (some q) = refl

  -- Unless the current question is finalized, the snapshots of the display and of the account of
  -- the host are the same whatever choices are the correct ones.
  pub build_session_state-mark :
      (is_finalized (current_run g) ≡ true → (c : Choice) → mark c ≡ c.is_correct)
      → (build_display_session_state o (edit (λ q. q.text) (λ c. c.text) mark g)
          ≡ build_display_session_state o g)
        × (build_account_session_state o (edit (λ q. q.text) (λ c. c.text) mark g)
            ≡ build_account_session_state o g)
  unfolding build_display_session_state build_account_session_state
  build_session_state-mark hm = (
    rw
        (
          asked_question-edit o g (λ q. q.text) (λ c. c.text) mark,
          display_question-edit hm (asked_question g),
          reveal_if-edit o g (λ q. q.text) (λ c. c.text) mark true (λ _ _. refl) (λ _ _. refl) hm,
          leaderboard-edit o g (λ q. q.text) (λ c. c.text) mark o.legacy_answers,
        )
        refl,
    rw
        (
          asked_question-edit o g (λ q. q.text) (λ c. c.text) mark,
          technical_question-edit (asked_question g),
          reveal_if-edit o g (λ q. q.text) (λ c. c.text) mark true (λ _ _. refl) (λ _ _. refl) hm,
          leaderboard-edit o g (λ q. q.text) (λ c. c.text) mark o.legacy_answers,
        )
        refl,
  )
