-- ===== src/Session/Valid/Everybody.antt =====
-- Closing a question settles everybody once.
use umclick.Common.{
  ℕ, ◌==◌, ◌<◌, ◌≡◌, ◌≢◌, refl, ◌∙◌, leb, Bool, false, ◌&&◌, some, List, [], ◌∷◌, ◌++◌, any,
  count_if, count_if-append, insert_by, order_by, order_by-DistinctBy, DistinctBy, All, All-map,
  All-both, ok, arith, Bool-cases, inl, inr,
}
use umclick.Quiz.Model.{Question}
use umclick.Session.Model.{
  Game, SessionQuestionRun, SessionParticipant, AnswerAttempt, FinalAnswer, Env, live,
  question_results_opened,
}
use umclick.Session.Run.{participant_before, counted_attempts, finalize_locked}
use umclick.Session.Valid.{IsValid, Running, Current}
use umclick.Session.Valid.Finals.{Unsettled, final_of-keys, finals_of}
use umclick.Session.Valid.Change.{open_unsettled}
use umclick.Session.Valid.Close.{in_turn, new_finals, closed, close_run-closed, nobody-Unsettled}

-- The final answers of a participant for a run.
abbrev pub answers_for : SessionQuestionRun → List FinalAnswer → SessionParticipant → ℕ
answers_for r finals p = count_if (λ f. f.run_id == r.pk && f.session_participant_id == p.pk) finals

count_if-nobody :
    (p : FinalAnswer → Bool) (xs : List FinalAnswer) → any p xs ≡ false → count_if p xs ≡ 0
count_if-nobody p [] h = refl
count_if-nobody p (x ∷ xs) h = ground (arith, h, count_if-nobody p xs)

Unsettled-none :
    (r : SessionQuestionRun) (finals : List FinalAnswer) (ps : List SessionParticipant)
    → Unsettled r finals ps
    → All (λ p. answers_for r finals p ≡ 0) ps
Unsettled-none r finals ps h = All-map (λ p k. count_if-nobody _ finals k) ps h

All-inserted :
    (P : SessionParticipant → Type 0) (p : SessionParticipant) (ps : List SessionParticipant)
    → All P (insert_by participant_before p ps)
    → P p × All P ps
All-inserted P p [] h = h
All-inserted P p (q ∷ qs) h = elim (Bool-cases (participant_before p q)) [
  | inl e ↦ rw e at h
  | inr e ↦ let k = rw e at h in let (a, b) = All-inserted P p qs k.1 in (a, (k.0, b))
]

All-ordered :
    (P : SessionParticipant → Type 0) (ps : List SessionParticipant)
    → All P (order_by participant_before ps)
    → All P ps
All-ordered P [] h = tt
All-ordered P (p ∷ ps) h =
    let (a, b) = All-inserted P p (order_by participant_before ps) h in (a, All-ordered P ps b)

module _ (env : Env) (questions : List Question) (r : SessionQuestionRun) (now : ℕ)
    (attempts : List AnswerAttempt) where
  answers_for-other :
      (p : SessionParticipant) (ps : List SessionParticipant)
      → All (λ q. q.pk ≢ p.pk) ps
      → answers_for r (finals_of env questions r now attempts ps) p ≡ 0
  answers_for-other p [] h = refl
  answers_for-other p (q ∷ qs) h =
      ground (arith, h.0, final_of-keys env questions r now attempts q, answers_for-other p qs h.1)

  answers_for-own :
      (ps : List SessionParticipant)
      → DistinctBy (λ p. p.pk) ps
      → All (λ p. answers_for r (finals_of env questions r now attempts ps) p ≡ 1) ps
  answers_for-own [] h = tt
  answers_for-own (p ∷ ps) h = (
    ground (arith, final_of-keys env questions r now attempts p, answers_for-other p ps h.0),
    All-both (λ q k a. ground (arith, k, a, final_of-keys env questions r now attempts p)) ps h.0
        (answers_for-own ps h.1),
  )

-- On a valid live game whose newest run is current and open, once the delivery deadline is over,
-- `_finalize_locked` succeeds, and then every participant of the session has exactly one final
-- answer for the run.
pub finalize_locked-everybody :
    (env : Env) (g : Game) (r : SessionQuestionRun) (rs : List SessionQuestionRun) (now : ℕ)
    → IsValid g
    → g.session.status ≡ live
    → g.runs ≡ r ∷ rs
    → Current g.session (r ∷ rs) false
    → Running g.session
    → r.delivery_deadline_at < now
    → (g' : Game) × (finalize_locked env g r now ≡ ok (g', some question_results_opened))
      × (g'.participants ≡ g.participants)
      × All (λ p. answers_for r g'.finals p ≡ 1) g'.participants
unfolding finalize_locked
finalize_locked-everybody env g r rs now v is_live e current running late =
    let on_time : leb now r.delivery_deadline_at ≡ false = ground (arith, late) in
    let distinct = order_by-DistinctBy (λ p. p.pk) participant_before g.participants v.people in
    let own =
      answers_for-own env g.version.questions r now (counted_attempts g r) (in_turn g) distinct in
    let before =
      Unsettled-none r g.finals (in_turn g)
        (nobody-Unsettled r g.finals (in_turn g) (open_unsettled g r rs v e current.2)) in
    (
      closed env g r rs now,
      rw (current.2, on_time) (close_run-closed g r rs v e is_live running current now env),
      refl,
      All-ordered (λ p. answers_for r (g.finals ++ new_finals env g r now) p ≡ 1) g.participants
          (All-both
            (λ p a b.
              count_if-append (λ f. f.run_id == r.pk && f.session_participant_id == p.pk) g.finals
                (new_finals env g r now)
              ∙ omega (arith, a, b))
            (in_turn g) before own),
    )
