-- ===== src/Session/History/Lasting.antt =====
-- What gameplay never takes back: the version that a session plays, and its end.
use umclick.Common.{ℕ, ◌≡◌, refl, sym, ap, ◌∙◌, Bool, true, false}
use umclick.Session.Model.{Game, Event, Env, is_over}
use umclick.Session.Spec.{
  Position, at, Step, begin, first, answer, deliver, close_reading, close_answering, close_delivery,
  next, finish, abort_waiting, abort_live,
}
use umclick.Session.Valid.{IsValid}
use umclick.Session.Transition.Moved.{Moved}
use umclick.Session.History.{
  Commit, History, here, after, Effect, same, applied, ticked, stored, Commit-Effect,
  History-IsValid,
}

-- The version stays, and a session that is over stays over.
pub record Lasts (g h : Game) : Type 0 where
  pub version : h.session.quiz_version_id ≡ g.session.quiz_version_id
  pub over : is_over g.session.status ≡ true → is_over h.session.status ≡ true

abbrev OpenPosition : Position → Type 0
OpenPosition (at s p n) = is_over s ≡ false

Step-open : {limit : ℕ} {event : Event} {a b : Position} → Step limit a event b → OpenPosition a
Step-open begin = refl
Step-open (first e lt) = refl
Step-open answer = refl
Step-open deliver = refl
Step-open close_reading = refl
Step-open close_answering = refl
Step-open close_delivery = refl
Step-open (next lt) = refl
Step-open (finish e) = refl
Step-open abort_waiting = refl
Step-open abort_live = refl

Moved-Lasts : (g g' : Game) (event : Event) → IsValid g → Moved g event g' → Lasts g g'
Moved-Lasts g g' event v m = record {
  version = sym m.valid.linked ∙ ap (λ w. w.pk) m.version ∙ v.linked;
  over = λ e. absurd (clash (Step-open m.step) e);
}
  where
    clash : {b : Bool} → b ≡ false → b ≡ true → ⊥
    clash e h = cc

Commit-Lasts : (env : Env) (g g' : Game) → IsValid g → Commit env g g' → Lasts g g'
Commit-Lasts env g g' v c = effect (Commit-Effect env g g' v c)
  where
    effect : Effect env g g' → Lasts g g'
    effect (same e) = record {
      version = ap (λ (x : Game). x.session.quiz_version_id) e;
      over = λ h. ap (λ (x : Game). is_over x.session.status) e ∙ h;
    }
    effect (applied kind input response h) = Moved-Lasts g g' _ v h.advanced
    effect (ticked h) = Moved-Lasts g g' _ v h.moved
    effect (stored input moment a h) = record {
      version = ap (λ s. s.quiz_version_id) h.session;
      over = λ e. ap (λ s. is_over s.status) h.session ∙ e;
    }

pub History-Lasts : (env : Env) (g h : Game) → IsValid g → History env g h → Lasts g h
History-Lasts env g h v here = record { version = refl; over = λ e. e }
History-Lasts env g h v (after {g = m} p c) =
    let first = History-Lasts env g m v p in
    let last = Commit-Lasts env m h (History-IsValid env g m v p) c in
    record { version = last.version ∙ first.version; over = λ e. last.over (first.over e) }
