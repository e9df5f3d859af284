-- ===== src/Session/Advance/Phases.antt =====
-- A due step of the timer, in each phase of a valid game.
use umclick.Common.{
  ℕ, ◌≡◌, subst, inl, inr, leb, true, false, some, List, ◌∷◌, Bool-cases, Option-cases, arith,
}
use umclick.Session.Model.{
  Game, SessionQuestionRun, Env, live, Phase, lobby, reading, answering, delivery, results, final,
  phase_is,
}
use umclick.Session.Spec.{close_reading, close_answering, close_delivery, Step-live}
use umclick.Session.Valid.{IsValid, Current, Running}
use umclick.Session.Valid.Change.{Placed-as}
use umclick.Session.Advance.{must_finalize, transition_may_be_due, fire}
use umclick.Session.Advance.Fires.{
  Fires, fire_finalize-Fires, fire_answering-Fires, fire_delivery-Fires, fire_results-Fires,
}

module _ (env : Env) (g : Game) (r : SessionQuestionRun) (rs : List SessionQuestionRun)
    (v : IsValid g) (e : g.runs ≡ r ∷ rs) (is_live : g.session.status ≡ live)
    (running : Running g.session) (now : ℕ)
    (due : transition_may_be_due g (some r) now ≡ true) where
  reading-Fires :
      g.session.phase ≡ reading
      → Current g.session (r ∷ rs) false
      → Fires g (fire env g (some r) now)
  unfolding fire transition_may_be_due
  reading-Fires ep current = elim (Bool-cases (must_finalize r now)) [
    | inl late ↦ rw late (
        fire_finalize-Fires env g r rs v e is_live running now current (ground (arith, late))
          (Step-live g reading is_live ep close_reading))
    | inr no_close ↦
        let ready : leb r.reading_ends_at now ≡ true = ground (arith, due, no_close, ep) in
        let here : phase_is g.session.phase reading ≡ true = ground (arith, ep) in
        rw (no_close, here, ready)
          (fire_answering-Fires env g r rs v e is_live running now ep current)
  ]

  answering-Fires :
      g.session.phase ≡ answering
      → Current g.session (r ∷ rs) false
      → Fires g (fire env g (some r) now)
  unfolding fire transition_may_be_due
  answering-Fires ep current = elim (Bool-cases (must_finalize r now)) [
    | inl late ↦ rw late (
        fire_finalize-Fires env g r rs v e is_live running now current (ground (arith, late))
          (Step-live g answering is_live ep close_answering))
    | inr no_close ↦
        let ready : leb r.answer_deadline_at now ≡ true = ground (arith, due, no_close, ep) in
        let past : phase_is g.session.phase reading ≡ false = ground (arith, ep) in
        let here : phase_is g.session.phase answering ≡ true = ground (arith, ep) in
        rw (no_close, past, here, ready)
          (fire_delivery-Fires env g r rs v e is_live running now ep current)
  ]

  delivery-Fires :
      g.session.phase ≡ delivery
      → Current g.session (r ∷ rs) false
      → Fires g (fire env g (some r) now)
  unfolding fire transition_may_be_due
  delivery-Fires ep current =
      let late : must_finalize r now ≡ true = ground (arith, due, ep) in
      rw late (
        fire_finalize-Fires env g r rs v e is_live running now current (ground (arith, late))
          (Step-live g delivery is_live ep close_delivery))

  results-Fires :
      g.session.phase ≡ results
      → Current g.session (r ∷ rs) true
      → Fires g (fire env g (some r) now)
  unfolding fire transition_may_be_due
  results-Fires ep current = elim (Option-cases r.results_ends_at) [
    | inl unset ↦ absurd (cc (rw unset at current.3))
    | inr (ends, set) ↦
        let closed : must_finalize r now ≡ false = ground (arith, current.2) in
        let ready : leb ends now ≡ true = ground (arith, due, closed, ep, set) in
        let past : phase_is g.session.phase reading ≡ false = ground (arith, ep) in
        let past' : phase_is g.session.phase answering ≡ false = ground (arith, ep) in
        let here : phase_is g.session.phase results ≡ true = ground (arith, ep) in
        rw (closed, past, past', here, set, ready)
          (fire_results-Fires env g r rs v e is_live running now ends ep current)
  ]

  -- Whatever the phase is, what is due happens.
  pub fire-Fires :
      (p : Phase)
      → g.session.phase ≡ p
      → g.session.current_run_id ≡ some r.pk
      → Fires g (fire env g (some r) now)
  fire-Fires lobby ep c = absurd (cc ((Placed-as g live lobby v is_live ep).0.1))
  fire-Fires reading ep c =
      reading-Fires ep
        (subst (λ xs. Current g.session xs false) e (Placed-as g live reading v is_live ep).0)
  fire-Fires answering ep c =
      answering-Fires ep
        (subst (λ xs. Current g.session xs false) e (Placed-as g live answering v is_live ep).0)
  fire-Fires delivery ep c =
      delivery-Fires ep
        (subst (λ xs. Current g.session xs false) e (Placed-as g live delivery v is_live ep).0)
  fire-Fires results ep c =
      results-Fires ep
        (subst (λ xs. Current g.session xs true) e (Placed-as g live results v is_live ep).0)
  fire-Fires final ep c = elim (Placed-as g live final v is_live ep) [ ]
