-- ===== src/Session/Valid/Finals.antt =====
-- The loop of `_finalize_locked` over the participants: it cannot fail on a valid game, and gives
-- each participant the answer that a plain function computes.
use mathlib.Core.List.{append_assoc, append-nil}
use umclick.Common.{
  ℕ, ◌==◌, ◌≡◌, ◌≢◌, refl, sym, ap, ◌∙◌, inl, inr, is_some, Bool, true, false, ◌&&◌, Option, none,
  some, List, [], ◌∷◌, ◌++◌, map, any, All, All-keep, All-both, any-append, Option-cases, ok, ◌>>=◌,
  or_raise, arith,
}
use umclick.Quiz.Model.{Question, Choice, find_choice}
use umclick.Session.Model.{
  Game, SessionQuestionRun, SessionParticipant, AnswerAttempt, FinalAnswer, Env, does_not_exist,
}
use umclick.Session.Save.{insert_final}
use umclick.Session.Save.Laws.{insert_final_lem}
use umclick.Session.Run.{
  unanswered_final, answered_final, attempts_of, finalize_participant, finalize_participants,
}
use umclick.Session.Run.Select.{select_final_attempts}
use umclick.Session.Run.Streak.{Chosen, select_final_attempts-Chosen}
use umclick.Session.Valid.{DistinctPeople}

abbrev pub correct_choice : Option Choice → Bool
correct_choice none = false
correct_choice (some c) = c.is_correct

abbrev pub picked_final :
    Env
    → List Question
    → SessionQuestionRun
    → ℕ
    → ℕ
    → Option (AnswerAttempt × AnswerAttempt)
    → FinalAnswer
picked_final env questions run now participant none = unanswered_final run participant now
picked_final env questions run now participant (some (selected, timing)) =
    answered_final env run participant now selected timing
      (correct_choice (find_choice questions selected.choice_id))

-- The final answer of one participant, as a function of the attempts that count.
pub final_of :
    Env
    → List Question
    → SessionQuestionRun
    → ℕ
    → List AnswerAttempt
    → SessionParticipant
    → FinalAnswer
final_of env questions run now attempts p =
    picked_final env questions run now p.pk (select_final_attempts (attempts_of attempts p.pk))

-- An attempt that may count for a run.
abbrev pub Countable : List Question → SessionQuestionRun → AnswerAttempt → Type 0
Countable questions run a =
    ((a.run_id == run.pk) ≡ true) × (is_some (find_choice questions a.choice_id) ≡ true)

-- Nobody of the list has an answer for the run yet.
abbrev pub Unsettled : SessionQuestionRun → List FinalAnswer → List SessionParticipant → Type 0
Unsettled run finals ps =
    All (λ p. any (λ x. x.run_id == run.pk && x.session_participant_id == p.pk) finals ≡ false) ps

abbrev pub Known : List SessionParticipant → List SessionParticipant → Type 0
Known people ps = All (λ p. any (λ x. x.pk == p.pk) people ≡ true) ps

module _ (env : Env) (run : SessionQuestionRun) (now : ℕ) (g : Game) where
  picked-ok :
      (participant : ℕ) (picked : Option (AnswerAttempt × AnswerAttempt))
      → Chosen
          (λ a.
            Countable g.version.questions run a
            × ((a.session_participant_id == participant) ≡ true))
          picked
      → any (λ x. x.pk == participant) g.participants ≡ true
      → any (λ x. x.run_id == run.pk && x.session_participant_id == participant) g.finals ≡ false
      → (elim picked [
        | none ↦ insert_final g (unanswered_final run participant now)
        | some (selected, timing) ↦
            or_raise (find_choice g.version.questions selected.choice_id) does_not_exist
            >>= λ choice.
                insert_final g
                  (answered_final env run participant now selected timing choice.is_correct)
      ])
        ≡ ok (record g {
          finals =
              g.finals ++ (picked_final env g.version.questions run now participant picked ∷ []);
        })
  picked-ok participant none h known fresh =
      insert_final_lem g (unanswered_final run participant now) known refl refl fresh refl
  picked-ok participant (some (selected, timing)) h known fresh =
      elim (Option-cases (find_choice g.version.questions selected.choice_id)) [
        | inl e ↦ absurd (cc)
        | inr (c, e) ↦ rw e (
            insert_final_lem g (answered_final env run participant now selected timing c.is_correct)
              known (ground (arith, h.0)) (ground (arith, h.1)) fresh refl)
      ]

  finalize_participant-ok :
      (attempts : List AnswerAttempt) (p : SessionParticipant)
      → All (Countable g.version.questions run) attempts
      → any (λ x. x.pk == p.pk) g.participants ≡ true
      → any (λ x. x.run_id == run.pk && x.session_participant_id == p.pk) g.finals ≡ false
      → finalize_participant env run now attempts g p.pk
        ≡ ok (record g {
          finals = g.finals ++ (final_of env g.version.questions run now attempts p ∷ []);
        })
  unfolding finalize_participant final_of
  finalize_participant-ok attempts p h known fresh =
      picked-ok p.pk (select_final_attempts (attempts_of attempts p.pk))
        (select_final_attempts-Chosen
          (λ a. Countable g.version.questions run a × ((a.session_participant_id == p.pk) ≡ true))
          (attempts_of attempts p.pk)
          (All-keep (Countable g.version.questions run) (λ a. a.session_participant_id == p.pk)
            attempts h))
        known fresh

picked_final-keys :
    (env : Env) (questions : List Question) (run : SessionQuestionRun) (now participant : ℕ)
    (picked : Option (AnswerAttempt × AnswerAttempt))
    → ((picked_final env questions run now participant picked).run_id ≡ run.pk)
      × ((picked_final env questions run now participant picked).session_participant_id
          ≡ participant)
picked_final-keys env questions run now participant none = (refl, refl)
picked_final-keys env questions run now participant (some (selected, timing)) = (refl, refl)

pub final_of-keys :
    (env : Env) (questions : List Question) (run : SessionQuestionRun) (now : ℕ)
    (attempts : List AnswerAttempt) (p : SessionParticipant)
    → ((final_of env questions run now attempts p).run_id ≡ run.pk)
      × ((final_of env questions run now attempts p).session_participant_id ≡ p.pk)
unfolding final_of
final_of-keys env questions run now attempts p =
    picked_final-keys env questions run now p.pk (select_final_attempts (attempts_of attempts p.pk))

abbrev pub finals_of :
    Env
    → List Question
    → SessionQuestionRun
    → ℕ
    → List AnswerAttempt
    → List SessionParticipant
    → List FinalAnswer
finals_of env questions run now attempts ps = map (final_of env questions run now attempts) ps

-- An answer for one participant leaves the others unsettled.
Unsettled-append :
    (run : SessionQuestionRun) (finals : List FinalAnswer) (f : FinalAnswer)
    (p : SessionParticipant) (ps : List SessionParticipant)
    → f.session_participant_id ≡ p.pk
    → All (λ x. x.pk ≢ p.pk) ps
    → Unsettled run finals ps
    → Unsettled run (finals ++ (f ∷ [])) ps
Unsettled-append run finals f p ps e apart free =
    All-both
      (λ x h k.
        any-append (λ y. y.run_id == run.pk && y.session_participant_id == x.pk) finals (f ∷ [])
        ∙ ground (arith, h, k, e))
      ps apart free

module _ (env : Env) (run : SessionQuestionRun) (now : ℕ) (attempts : List AnswerAttempt) where
  -- The whole loop, from any answers that are stored already.
  pub finalize_participants-ok :
      (g : Game) (ps : List SessionParticipant)
      → All (Countable g.version.questions run) attempts
      → DistinctPeople ps
      → Known g.participants ps
      → Unsettled run g.finals ps
      → finalize_participants env run now attempts g ps
        ≡ ok (record g {
          finals = g.finals ++ finals_of env g.version.questions run now attempts ps;
        })
  unfolding finalize_participants
  finalize_participants-ok g [] h distinct known free =
      ap (λ (fs : List FinalAnswer). ok (record g { finals = fs })) (sym (append-nil g.finals))
  finalize_participants-ok g (p ∷ ps) h distinct known free =
      let f : FinalAnswer = final_of env g.version.questions run now attempts p in
      let next : Game = record g { finals = g.finals ++ (f ∷ []) } in
      rw (finalize_participant-ok env run now g attempts p h known.0 free.0) (
        finalize_participants-ok next ps h distinct.1 known.1 (
          Unsettled-append run g.finals f p ps
            (final_of-keys env g.version.questions run now attempts p).1 distinct.0 free.1)
        ∙ ap (λ (fs : List FinalAnswer). ok (record g { finals = fs }))
            (append_assoc g.finals (f ∷ [])
              (finals_of env g.version.questions run now attempts ps)))
