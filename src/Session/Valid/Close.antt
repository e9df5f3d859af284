-- ===== src/Session/Valid/Close.antt =====
-- Finalizing the current run keeps a game valid and cannot fail.
use umclick.Common.{
  ℕ, ◌+◌, ◌==◌, ◌≡◌, ◌≢◌, refl, sym, subst, leb, true, false, ◌&&◌, some, List, [], ◌∷◌, ◌++◌, any,
  keep, order_by, order_by-DistinctBy, All, All-map, All-keep, All-order_by, All-append, any-false,
  ok, arith, ==_iff,
}
use umclick.Quiz.Model.{Question}
use umclick.Session.Model.{
  Game, SessionQuestionRun, SessionParticipant, AnswerAttempt, FinalAnswer, Env, live, results,
  question_results_opened,
}
use umclick.Session.Save.{run_constraints}
use umclick.Session.Run.{
  closed_run, revealed, counted_attempts, attempt_before, participant_before, close_run,
}
use umclick.Session.Run.Store.{saved, save_session_lem}
use umclick.Session.Valid.{IsValid, Placed, Running, Current, Settled, AttemptValid}
use umclick.Session.Valid.Finals.{
  Countable, Unsettled, final_of-keys, finals_of, finalize_participants-ok,
}
use umclick.Session.Valid.Change.{
  Follows, open_unsettled, update_run-current, RunsValid-change, phase-Allowed,
}

own-people : (ps : List SessionParticipant) → All (λ p. any (λ x. x.pk == p.pk) ps ≡ true) ps
own-people [] = tt
own-people (p ∷ ps) =
    (ground (arith, (==_iff p.pk p.pk).1 refl), All-map (λ x h. ground arith) ps (own-people ps))

counted-Countable :
    (g : Game) (r : SessionQuestionRun)
    → IsValid g
    → All (Countable g.version.questions r) (counted_attempts g r)
counted-Countable g r v =
    All-order_by (Countable g.version.questions r) attempt_before
      (keep (λ a. a.run_id == r.pk && leb a.admitted_at r.delivery_deadline_at) g.attempts)
      (All-map (λ a h. (ground arith, h.0.0))
        (keep (λ a. a.run_id == r.pk && leb a.admitted_at r.delivery_deadline_at) g.attempts)
        (All-keep (AttemptValid g.version.questions g.attempts)
          (λ a. a.run_id == r.pk && leb a.admitted_at r.delivery_deadline_at) g.attempts
          v.attempts))

pub nobody-Unsettled :
    (r : SessionQuestionRun) (fs : List FinalAnswer) (ps : List SessionParticipant)
    → All (λ f. f.run_id ≢ r.pk) fs
    → Unsettled r fs ps
nobody-Unsettled r fs [] h = tt
nobody-Unsettled r fs (p ∷ ps) h = (
  any-false (λ x. x.run_id == r.pk && x.session_participant_id == p.pk) fs
      (All-map (λ f k. ground arith) fs h),
  nobody-Unsettled r fs ps h,
)

closed-Follows :
    (r : SessionQuestionRun) (now pause : ℕ)
    → run_constraints r ≡ true
    → Follows r (closed_run r now pause)
closed-Follows r now pause h = record {
  key = refl;
  question = refl;
  ordinal = refl;
  schedule = ground arith;
  dates = ground arith;
}

-- The participants in the order of the loop.
abbrev pub in_turn : Game → List SessionParticipant
in_turn g = order_by participant_before g.participants

-- The answers that closing a run adds.
abbrev pub new_finals : Env → Game → SessionQuestionRun → ℕ → List FinalAnswer
new_finals env g r now = finals_of env g.version.questions r now (counted_attempts g r) (in_turn g)

-- The game after `_finalize_locked`, where `rs` are the runs before the current one.
abbrev pub closed : Env → Game → SessionQuestionRun → List SessionQuestionRun → ℕ → Game
closed env g r rs now =
    saved
      (record g {
        finals = g.finals ++ new_finals env g r now;
        runs = closed_run r now g.version.results_time_sec ∷ rs;
      })
      (revealed g.session r now)

finals_of-Settled :
    (env : Env) (questions : List Question) (r : SessionQuestionRun) (rs : List SessionQuestionRun)
    (now pause : ℕ) (attempts : List AnswerAttempt) (ps : List SessionParticipant)
    → All
        (λ f. Settled (closed_run r now pause ∷ rs) f.run_id)
        (finals_of env questions r now attempts ps)
finals_of-Settled env questions r rs now pause attempts [] = tt
finals_of-Settled env questions r rs now pause attempts (p ∷ ps) = (
  ground (arith, final_of-keys env questions r now attempts p),
  finals_of-Settled env questions r rs now pause attempts ps,
)

module _ (g : Game) (r : SessionQuestionRun) (rs : List SessionQuestionRun) (v : IsValid g)
    (e : g.runs ≡ r ∷ rs) (is_live : g.session.status ≡ live) (running : Running g.session)
    (current : Current g.session (r ∷ rs) false) (now : ℕ) where
  dated : run_constraints r ≡ true
  dated = (subst (All (λ x. run_constraints x ≡ true)) e v.runs.dated).0

  pub close_run-closed :
      (env : Env) → close_run env g r now ≡ ok (closed env g r rs now, some question_results_opened)
  unfolding close_run
  close_run-closed env =
      let fs = g.finals ++ new_finals env g r now in
      let r' = closed_run r now g.version.results_time_sec in
      let f = closed-Follows r now g.version.results_time_sec dated in
      rw
        (finalize_participants-ok env r now (counted_attempts g r) g (in_turn g)
          (counted-Countable g r v)
          (order_by-DistinctBy (λ p. p.pk) participant_before g.participants v.people)
          (All-order_by (λ p. any (λ x. x.pk == p.pk) g.participants ≡ true) participant_before
            g.participants (own-people g.participants))
          (nobody-Unsettled r g.finals (in_turn g) (open_unsettled g r rs v e current.2)))
        (rw (update_run-current g r rs v e r' fs f current.2) (
          rw (
            save_session_lem env (record g { finals = fs; runs = r' ∷ rs })
              (revealed g.session r now)
              (phase-Allowed g r rs v e r'
                (record (revealed g.session r now) {
                  state_revision = g.session.state_revision + 1;
                })
                fs f is_live running.0 refl refl refl current.1 current.0))))

  Settled-before :
      (f : FinalAnswer)
      → Settled (r ∷ rs) f.run_id
      → Settled (closed_run r now g.version.results_time_sec ∷ rs) f.run_id
  Settled-before f h = ground (arith, h)

  pub closed-IsValid : (env : Env) → IsValid (closed env g r rs now)
  closed-IsValid env =
      let r' = closed_run r now g.version.results_time_sec in
      record {
        linked = v.linked;
        questions = v.questions;
        placed =
            subst (λ s. Placed s results (closed env g r rs now).session (r' ∷ rs)) (sym is_live)
              ((current.0, current.1, refl, refl), running);
        runs =
            RunsValid-change g r rs v e r' (closed-Follows r now g.version.results_time_sec dated);
        people = v.people;
        finals =
            All-append (λ f. Settled (r' ∷ rs) f.run_id) g.finals (new_finals env g r now)
              (All-map Settled-before g.finals
                (subst (λ xs. All (λ f. Settled xs f.run_id) g.finals) e v.finals))
              (finals_of-Settled env g.version.questions r rs now g.version.results_time_sec
                (counted_attempts g r) (in_turn g));
        attempts = v.attempts;
      }
