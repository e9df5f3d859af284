-- ===== src/Session/Advance/Due.antt =====
-- When the timer has something to do, said of the moments of the current run, and that the test of the
-- code agrees.
use umclick.Common.{
  ℕ, ◌<◌, ◌≤◌, ◌≡◌, refl, sym, ap, ◌∙◌, leb, ltb, Bool, true, false, ◌&&◌, Option, none, some,
  Bool-cases, Option-cases, inl, inr, arith,
}
use umclick.Session.Model.{
  Game, SessionQuestionRun, live, Phase, lobby, reading, answering, delivery, results, final,
  status_is,
}
use umclick.Session.Run.{current_run}
use umclick.Session.Run.Store.{status_is→eq}
use umclick.Session.Advance.{must_finalize, transition_may_be_due}

-- A run of a session that is played in this phase asks for a step: its delivery deadline is over and it
-- is not finalized, or the phase is one that ends, and its end has come.
pub data RunDue (phase : Phase) (run : SessionQuestionRun) (now : ℕ) : Type 0 where
  unfinished : run.finalized_at ≡ none → run.delivery_deadline_at < now → RunDue phase run now
  read : phase ≡ reading → run.reading_ends_at ≤ now → RunDue phase run now
  pressed : phase ≡ answering → run.answer_deadline_at ≤ now → RunDue phase run now
  shown :
      (ends : ℕ)
      → phase ≡ results
      → run.results_ends_at ≡ some ends
      → ends ≤ now
      → RunDue phase run now

pub record Due (g : Game) (now : ℕ) : Type 0 where
  pub is_live : g.session.status ≡ live
  pub run : SessionQuestionRun
  pub is_current : current_run g ≡ some run
  pub run_due : RunDue g.session.phase run now

-- What the reading before the transaction asks.
abbrev pub is_due : Game → ℕ → Bool
is_due g now = status_is g.session.status live && transition_may_be_due g (current_run g) now

ltb_le : (n m : ℕ) → ltb n m ≡ true → n < m
ltb_le n m h = ground (arith, h)

leb_le : (n m : ℕ) → leb n m ≡ true → n ≤ m
leb_le n m h = ground (arith, h)

lt_ltb : (n m : ℕ) → n < m → ltb n m ≡ true
lt_ltb n m h = ground (arith, h)

le_leb : (n m : ℕ) → n ≤ m → leb n m ≡ true
le_leb n m h = ground (arith, h)

must_finalize-RunDue :
    (phase : Phase) (run : SessionQuestionRun) (now : ℕ)
    → must_finalize run now ≡ true
    → RunDue phase run now
must_finalize-RunDue phase run now h = at_end run.finalized_at refl
  where
    at_end : (o : Option ℕ) → run.finalized_at ≡ o → RunDue phase run now
    at_end none e = unfinished e (ltb_le run.delivery_deadline_at now (rw e at h))
    at_end (some t) e = absurd (cc (rw e at h))

transition_may_be_due-RunDue :
    (g : Game) (run : SessionQuestionRun) (now : ℕ) (phase : Phase)
    → g.session.phase ≡ phase
    → transition_may_be_due g (some run) now ≡ true
    → RunDue g.session.phase run now
unfolding transition_may_be_due
transition_may_be_due-RunDue g run now phase ep h = elim (Bool-cases (must_finalize run now)) [
  | inl late ↦ must_finalize-RunDue g.session.phase run now late
  | inr settled ↦ in_phase phase ep settled
]
  where
    in_phase :
        (phase : Phase)
        → g.session.phase ≡ phase
        → must_finalize run now ≡ false
        → RunDue g.session.phase run now
    in_phase lobby ep e = absurd (ground (arith, ep, e, h))
    in_phase reading ep e = read ep (ground (arith, ep, e, h))
    in_phase answering ep e = pressed ep (ground (arith, ep, e, h))
    in_phase delivery ep e = absurd (ground (arith, ep, e, h))
    in_phase results ep e = elim (Option-cases run.results_ends_at) [
      | inl unset ↦ absurd (ground (arith, ep, e, h, unset))
      | inr (ends, set) ↦ shown ends ep set (ground (arith, ep, e, h, set))
    ]
    in_phase final ep e = absurd (ground (arith, ep, e, h))

RunDue-transition_may_be_due :
    (g : Game) (run : SessionQuestionRun) (now : ℕ)
    → RunDue g.session.phase run now
    → transition_may_be_due g (some run) now ≡ true
unfolding transition_may_be_due
RunDue-transition_may_be_due g run now (unfinished unset late) = rw (unset, lt_ltb _ _ late) refl
RunDue-transition_may_be_due g run now (read ep late) = ground (arith, ep, late)
RunDue-transition_may_be_due g run now (pressed ep late) = ground (arith, ep, late)
RunDue-transition_may_be_due g run now (shown ends ep er late) = ground (arith, ep, er, late)

both_true : (a b : Bool) → (a && b) ≡ true → (a ≡ true) × (b ≡ true)
both_true true b h = (refl, h)
both_true false b h = absurd (cc)

pub is_due-Due : (g : Game) (now : ℕ) → is_due g now ≡ true → Due g now
unfolding transition_may_be_due
is_due-Due g now h =
    let (is_live, asked) =
      both_true (status_is g.session.status live) (transition_may_be_due g (current_run g) now) h in
    elim (Option-cases (current_run g)) [
      | inl idle ↦ absurd (cc (ap (λ o. transition_may_be_due g o now) (sym idle) ∙ asked))
      | inr (run, is_current) ↦ record {
        is_live = status_is→eq g.session.status live is_live;
        run = run;
        is_current = is_current;
        run_due =
            transition_may_be_due-RunDue g run now g.session.phase refl
              (ap (λ o. transition_may_be_due g o now) (sym is_current) ∙ asked);
      }
    ]

pub Due-is_due : (g : Game) (now : ℕ) → Due g now → is_due g now ≡ true
unfolding transition_may_be_due
Due-is_due g now d =
    rw (d.is_live, d.is_current) (RunDue-transition_may_be_due g d.run now d.run_due)

-- Nothing is due.
pub is_due-none : (g : Game) (now : ℕ) → is_due g now ≡ false → ¬ Due g now
is_due-none g now h d = absurd (cc (h, Due-is_due g now d))
