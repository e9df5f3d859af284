-- ===== src/Session/Valid/Change.antt =====
-- Changing the current run and the row of a live session.
use umclick.Common.{
  ℕ, ◌<◌, ◌≡◌, ◌≢◌, refl, ap, ◌∙◌, subst, inl, inr, is_some, Bool, true, false, some, List, [], ◌∷◌,
  All, All-map, ok, arith,
}
use umclick.Quiz.Model.{ordered_questions}
use umclick.Session.Model.{Game, LiveSession, SessionQuestionRun, FinalAnswer, Status, Phase, live}
use umclick.Session.Save.{question_belongs, run_constraints, same_schedule, update_run}
use umclick.Session.Save.Laws.{update_run_lem}
use umclick.Session.Run.Store.{Allowed, change_refused-open}
use umclick.Session.Valid.{IsValid, RunsValid, Current, Placed, Below, Settled}
use umclick.Session.Valid.Progress.{asked-own, Played-replace}

pub Placed-as :
    (g : Game) (s : Status) (p : Phase)
    → IsValid g
    → g.session.status ≡ s
    → g.session.phase ≡ p
    → Placed s p g.session g.runs
Placed-as g s p v es ep =
    subst (λ x. Placed s x g.session g.runs) ep
      (subst (λ x. Placed x g.session.phase g.session g.runs) es v.placed)

-- The current run, taken out of the list.
pub Current-head :
    (s : LiveSession) (runs : List SessionQuestionRun) (closed : Bool)
    → Current s runs closed
    → (r : SessionQuestionRun) × (rs : List SessionQuestionRun) × (runs ≡ r ∷ rs)
      × Current s (r ∷ rs) closed
Current-head s [] closed h = elim h [ ]
Current-head s (r ∷ rs) closed h = (r, rs, refl, h)

same_schedule_refl : (r : SessionQuestionRun) → same_schedule r r ≡ true
same_schedule_refl r = ground arith

-- What a change keeps of a run.
pub record Follows (r r' : SessionQuestionRun) : Type 0 where
  pub key : r'.pk ≡ r.pk
  pub question : r'.question_id ≡ r.question_id
  pub ordinal : r'.ordinal ≡ r.ordinal
  pub schedule : same_schedule r r' ≡ true
  pub dates : run_constraints r' ≡ true

Settled-Below : (n k : ℕ) (rs : List SessionQuestionRun) → Below n rs → Settled rs k → k < n
Settled-Below n k [] b h = absurd (cc)
Settled-Below n k (r ∷ rs) b h = ground (arith, Settled-Below r.pk k rs b.1)

-- No stored answer belongs to the current run while it is open.
pub open_unsettled :
    (g : Game) (r : SessionQuestionRun) (rs : List SessionQuestionRun)
    → IsValid g
    → g.runs ≡ r ∷ rs
    → is_some r.finalized_at ≡ false
    → All (λ f. f.run_id ≢ r.pk) g.finals
open_unsettled g r rs v e running =
    All-map
      (λ f h p. omega (
        arith,
        Settled-Below r.pk f.run_id rs (subst (Below g.next_run_pk) e v.runs.below).1 (
            open_tail f.run_id (subst (λ (xs : List SessionQuestionRun). Settled xs f.run_id) e h)),
      ))
      g.finals v.finals
  where
    open_tail : (k : ℕ) → Settled (r ∷ rs) k → Settled rs k
    open_tail k h = ground (arith, h, running)

module _ (g : Game) (r : SessionQuestionRun) (rs : List SessionQuestionRun) (v : IsValid g)
    (e : g.runs ≡ r ∷ rs) where
  pub current_known :
      question_belongs g.version g.session.quiz_version_id (some r.question_id) ≡ true
  current_known = ground (
    arith,
    v.linked,
    asked-own g.version r rs (subst (λ xs. RunsValid g.version g.next_run_pk xs) e v.runs).played,
  )

  -- `run.save` of the current run, while it is open.
  pub update_run-current :
      (r' : SessionQuestionRun) (fs : List FinalAnswer)
      → Follows r r'
      → is_some r.finalized_at ≡ false
      → update_run (record g { finals = fs }) r' ≡ ok (record g { finals = fs; runs = r' ∷ rs })
  update_run-current r' fs f running =
      update_run_lem (record g { finals = fs }) r r' (rw f.question current_known)
        (rw e (ground (arith, f.key))) f.schedule running f.dates
      ∙ ap (λ (xs : List SessionQuestionRun). ok (record g { finals = fs; runs = xs }))
          (rw e (ground (arith, f.key)))

  pub RunsValid-change :
      (r' : SessionQuestionRun) → Follows r r' → RunsValid g.version g.next_run_pk (r' ∷ rs)
  RunsValid-change r' f =
      let old = subst (λ xs. RunsValid g.version g.next_run_pk xs) e v.runs in
      record {
        below = rw f.key old.below;
        numbered = rw f.ordinal old.numbered;
        played = Played-replace (ordered_questions g.version) r r' rs f.question old.played;
        dated = (f.dates, old.dated.1);
      }

  -- A new row of the live session that stays with the current run.
  pub phase-Allowed :
      (r' : SessionQuestionRun) (s : LiveSession) (fs : List FinalAnswer)
      → Follows r r'
      → g.session.status ≡ live
      → is_some g.session.started_at ≡ true
      → s.origin ≡ g.session.origin
      → s.status ≡ g.session.status
      → s.started_at ≡ g.session.started_at
      → s.current_question_id ≡ some r.question_id
      → s.current_run_id ≡ some r.pk
      → Allowed (record g { finals = fs; runs = r' ∷ rs }) s
  phase-Allowed r' s fs f is_live running origin status started question run = record {
    belongs = rw (question, origin) current_known;
    matches = ground (arith, question, run, f.key, f.question);
    changed =
        change_refused-open g.session s (ground (arith, is_live)) origin
          (ground (arith, is_live, status)) (inr started);
    started = inr (rw started running);
    ended = inl (ground (arith, is_live, status));
  }
