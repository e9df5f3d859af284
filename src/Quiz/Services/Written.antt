-- ===== src/Quiz/Services/Written.antt =====
-- Content that is written into the draft of a card, or into a new one.
use umclick.Common.{
  ℕ, suc, ◌+◌, ◌<◌, ◌==◌, ◌≡◌, refl, sym, ap, ◌∙◌, subst, true, false, none, some, List, [], ◌∷◌,
  length, keep, All, All-both, Bool-cases, inl, inr, ok, arith,
}
use umclick.Quiz.Model.{Question, QuizVersion, draft, ordered_questions}
use umclick.Quiz.Content.{Content, quiz_data, canonical}
use umclick.Quiz.Content.Rows.{Tidy, questions_back, rows-RowsTidy}
use umclick.Quiz.Merge.Laws.{Merged}
use umclick.Quiz.Card.{Card, is_draft, is_fixed, get_effective_version, locked_draft}
use umclick.Quiz.Card.Valid.{
  Falling, IsValid, draft-not_fixed, not_draft-fixed, effective_head, locked_draft_head,
}
use umclick.Quiz.Card.Newest.{Newest, Plays-over, Plays-under, with_newest-IsValid}
use umclick.Quiz.Graph.{new_questions, count_choices, create_version_graph, with_content}
use umclick.Quiz.Graph.Writes.{Written, update_questions-Written, new_questions-Written}
use umclick.Quiz.Graph.Stored.{known_rows}
use umclick.Quiz.Services.{replace_version, update_draft_graph, write_content, revised}

-- The card after the write: its newest version holds the content, its fixed versions and its sessions
-- are those of before.
pub record Drafted (card : Card) (d : Content) (after : Card) : Type 0 where
  pub valid : IsValid after
  pub content :
      (v : QuizVersion) × (get_effective_version after ≡ some v)
      × (is_draft v ≡ true)
      × (canonical (quiz_data v) ≡ canonical d)
  pub history : keep is_fixed after.versions ≡ keep is_fixed card.versions
  pub sessions : after.sessions ≡ card.sessions
  pub quiz : after.quiz ≡ card.quiz

pub stored_back :
    (v : QuizVersion) (d : Content) (rows : List Question) {next last : ℕ}
    → Written next d.questions rows last
    → Tidy d.questions
    → canonical (quiz_data (with_content v d rows)) ≡ canonical d
unfolding ordered_questions
stored_back v d rows w t =
    ap (λ qs. record (canonical d) { questions = qs }) (questions_back rows d.questions w.same t)

pub replace_version-head :
    (v v' : QuizVersion) (vs : List QuizVersion)
    → v'.pk ≡ v.pk
    → Falling (v ∷ vs)
    → replace_version v' (v ∷ vs) ≡ v' ∷ vs
replace_version-head v v' vs e f = rw (same v.pk v'.pk e) (ap (λ xs. v' ∷ xs) (others vs f.0))
  where
    same : (a b : ℕ) → b ≡ a → (a == b) ≡ true
    same a b e = ground arith

    apart : (a b c : ℕ) → b ≡ c → a < c → (a == b) ≡ false
    apart a b c e h = ground arith

    others :
        (ws : List QuizVersion)
        → All (λ (w : QuizVersion). (w.number < v.number) × (w.pk < v.pk) × (is_fixed w ≡ true)) ws
        → replace_version v' ws ≡ ws
    others [] h = refl
    others (w ∷ ws) h = rw (apart w.pk v'.pk v.pk e h.0.1) (ap (λ xs. w ∷ xs) (others ws h.1))

module _ (card : Card) (v : QuizVersion) (vs : List QuizVersion) (d : Content) (h : IsValid card)
    (n : Newest card v vs) (m : Merged (quiz_data v).questions d.questions) where
  into_draft :
      is_draft v ≡ true
      → (after : Card) × (update_draft_graph card v d ≡ ok after) × Drafted card d after
  unfolding update_draft_graph ordered_questions
  into_draft e =
      let (rows, last, last_choice, r, w) =
        update_questions-Written v.questions card.next_question_pk card.next_choice_pk d.questions
          (known_rows v.questions d.questions n.head.rows.keys m.known) m.ids n.head.below in
      let v' = with_content v d rows in
      let fresh = draft-not_fixed v e in
      let after : Card = record card {
        versions = v' ∷ vs;
        next_question_pk = last;
        next_choice_pk = last_choice;
      } in
      (
        after,
        rw r (
            ap
              (λ xs. ok (record card {
                versions = xs;
                next_question_pk = last;
                next_choice_pk = last_choice;
              }))
              (ap (replace_version v') n.at ∙ replace_version-head v v' vs refl n.falling)),
        record {
          valid =
              with_newest-IsValid card v' vs card.quiz card.next_version_pk last last_choice h refl
                refl (omega arith) w.grown
                (record {
                  quiz_id = n.head.quiz_id;
                  key = n.head.key;
                  rows = rows-RowsTidy rows d.questions w.same m.tidy w.keys;
                  below = w.below;
                  stamped = n.head.stamped;
                })
                n.tail n.falling
                (Plays-over v' vs card.sessions (Plays-under v vs card.sessions fresh n.sessions));
          content =
              (v', effective_head after v' vs refl n.falling, e, stored_back v d rows w m.tidy);
          history = (rw fresh refl) ∙ ap (keep is_fixed) (sym n.at);
          sessions = refl;
          quiz = refl;
        },
      )

  after_fixed : is_fixed v ≡ true → Drafted card d (create_version_graph card (v.number + 1) d)
  unfolding create_version_graph
  after_fixed e =
      let w = new_questions-Written card.next_question_pk card.next_choice_pk d.questions in
      let rows = new_questions card.next_question_pk card.next_choice_pk d.questions in
      let after : Card = create_version_graph card (v.number + 1) d in
      let new : QuizVersion = record {
        pk = card.next_version_pk;
        quiz_id = card.quiz.pk;
        number = v.number + 1;
        status = draft;
        fixed_at = none;
        title = d.title;
        description = d.description;
        question_only_on_display = d.question_only_on_display;
        show_choices_on_participant = d.show_choices_on_participant;
        reading_time_sec = d.reading_time_sec;
        results_time_sec = d.results_time_sec;
        questions = rows;
      } in
      let falling : Falling (new ∷ card.versions) =
        subst (λ (xs : List QuizVersion). Falling (new ∷ xs)) (sym n.at)
          (
            (
              (omega arith, n.head.key, e),
              All-both (λ (x : QuizVersion) f k. (omega (arith, f.0), k.key, f.2)) vs n.falling.0
                  n.tail,
            ),
            n.falling,
          ) in
      record {
        valid =
            with_newest-IsValid card new card.versions card.quiz (suc card.next_version_pk)
              (card.next_question_pk + length d.questions)
              (card.next_choice_pk + count_choices d.questions) h refl refl (omega arith) w.grown
              (record {
                quiz_id = refl;
                key = omega arith;
                rows = rows-RowsTidy rows d.questions w.same m.tidy w.keys;
                below = w.below;
                stamped = refl;
              })
              h.versions falling (Plays-over new card.versions card.sessions h.sessions);
        content = (
          new,
          effective_head after new card.versions refl falling,
          refl,
          stored_back new d rows w m.tidy,
        );
        history = refl;
        sessions = refl;
        quiz = refl;
      }

  pub write_content-Drafted :
      (after : Card) × (write_content card (locked_draft card) v d ≡ ok after)
      × Drafted card d after
  unfolding write_content
  write_content-Drafted = elim (Bool-cases (is_draft v)) [
    | inl e ↦
        let (after, r, done) = into_draft e in
        (after, rw (locked_draft_head card v vs n.at n.falling) (rw e r), done)
    | inr e ↦ (
      create_version_graph card (v.number + 1) d,
      rw (locked_draft_head card v vs n.at n.falling) (rw e refl),
      after_fixed (not_draft-fixed v e),
    )
  ]

pub revised-IsValid : (card : Card) → IsValid card → IsValid (revised card)
revised-IsValid card h = record {
  versions = h.versions;
  falling = h.falling;
  present = h.present;
  sessions = h.sessions;
  archived = h.archived;
}
