-- ===== src/Session/Run/Store.antt =====
-- When `_save_session` and `_lock_current_run` succeed, and what they leave.
use umclick.Common.{
  ℕ, ◌+◌, ◌≡◌, refl, ap, ◌∙◌, ◌⊎◌, inl, inr, is_some, Bool, true, false, not, ◌&&◌, Option, none,
  some, List, ◌∷◌, ok, arith, option_eq_refl,
}
use umclick.Session.Model.{
  Game, LiveSession, SessionQuestionRun, Env, Status, Phase, waiting, live, status_is, phase_is,
  is_over, find_run, lobby, reading, answering, delivery, results, final,
}
use umclick.Session.Save.{question_belongs, run_matches, change_refused, stamp, or_now}
use umclick.Session.Save.Laws.{same_origin_refl, save_live_session_lem}
use umclick.Session.Run.{save_session, lock_current_run}

pub status_is→eq : (a b : Status) → status_is a b ≡ true → a ≡ b
status_is→eq a b h = ground arith

pub phase_is→eq : (a b : Phase) → phase_is a b ≡ true → a ≡ b
phase_is→eq lobby b h = ground arith
phase_is→eq reading b h = ground arith
phase_is→eq answering b h = ground arith
phase_is→eq delivery b h = ground arith
phase_is→eq results b h = ground arith
phase_is→eq final b h = ground arith

or_now-set : (due : Bool) (t : Option ℕ) (now : ℕ) → is_some t ≡ true → or_now due t now ≡ t
or_now-set due (some t) now h = refl
or_now-set due none now h = cc

or_now-false : (t : Option ℕ) (now : ℕ) → or_now false t now ≡ t
or_now-false none now = refl
or_now-false (some t) now = refl

-- A moment that `save` would fill in is not needed, or is there.
abbrev pub Stamped : Bool → Option ℕ → Type 0
Stamped due t = (due ≡ false) ⊎ (is_some t ≡ true)

or_now-Stamped : (due : Bool) (t : Option ℕ) (now : ℕ) → Stamped due t → or_now due t now ≡ t
or_now-Stamped due t now (inl e) = rw e (or_now-false t now)
or_now-Stamped due t now (inr e) = or_now-set due t now e

stamp-Stamped :
    (now : ℕ) (s : LiveSession)
    → Stamped (status_is s.status live) s.started_at
    → Stamped (is_over s.status) s.finished_at
    → stamp now s ≡ s
stamp-Stamped now s a b = λ i. record s {
  started_at = or_now-Stamped (status_is s.status live) s.started_at now a i;
  finished_at = or_now-Stamped (is_over s.status) s.finished_at now b i;
}

-- A change that `LiveSession.save` allows.
pub record Allowed (g : Game) (s : LiveSession) : Type 0 where
  pub belongs : question_belongs g.version s.quiz_version_id s.current_question_id ≡ true
  pub matches : run_matches g.runs s ≡ true
  pub changed : change_refused g.session s ≡ false
  pub started : Stamped (status_is s.status live) s.started_at
  pub ended : Stamped (is_over s.status) s.finished_at

abbrev pub saved : Game → LiveSession → Game
saved g s = record g { session = record s { state_revision = s.state_revision + 1 } }

pub save_session_lem :
    (env : Env) (g : Game) (s : LiveSession)
    → Allowed g (record s { state_revision = s.state_revision + 1 })
    → save_session env g s ≡ ok (saved g s)
unfolding save_session
save_session_lem env g s a =
    let next : LiveSession = record s { state_revision = s.state_revision + 1 } in
    save_live_session_lem env g next a.belongs a.matches a.changed
    ∙ ap (λ (t : LiveSession). ok (record g { session = t }))
        (stamp-Stamped env.timezone_now next a.started a.ended)

-- A row that keeps its origin and its start may be changed while the session is open.
pub change_refused-open :
    (old s : LiveSession)
    → is_over old.status ≡ false
    → s.origin ≡ old.origin
    → (not (status_is old.status waiting) && status_is s.status waiting) ≡ false
    → (is_some old.started_at ≡ false) ⊎ (s.started_at ≡ old.started_at)
    → change_refused old s ≡ false
change_refused-open old s over origin reopened (inl first) =
    rw (over, origin, same_origin_refl old.origin, reopened, first)
change_refused-open old s over origin reopened (inr same) =
    rw (over, origin, same_origin_refl old.origin, reopened, same, option_eq_refl old.started_at)
      (ground arith)

pub find_run-head :
    (r : SessionQuestionRun) (rs : List SessionQuestionRun) → find_run r.pk (r ∷ rs) ≡ some r
find_run-head r rs = ground arith

pub lock_current_run-head :
    (g : Game) (r : SessionQuestionRun) (rs : List SessionQuestionRun)
    → g.runs ≡ r ∷ rs
    → g.session.current_run_id ≡ some r.pk
    → lock_current_run g ≡ ok (some r)
unfolding lock_current_run
lock_current_run-head g r rs e c = rw (c, e, find_run-head r rs)

pub lock_current_run-none :
    (g : Game) → g.session.current_run_id ≡ none → lock_current_run g ≡ ok none
unfolding lock_current_run
lock_current_run-none g c = rw c
