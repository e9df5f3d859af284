-- ===== src/Session/Spec.antt =====
-- What a session promises: the abstract machine that backend/apps/session/gameplay.py implements. A
-- position says how far the session is; nothing is said of rows, deadlines or locks.
use umclick.Common.{ℕ, ◌+◌, ◌*◌, ◌-◌, ◌≤◌, ◌<◌, ◌≡◌, sym, subst, suc, length}
use umclick.Session.Model.{
  Status, waiting, live, finished, aborted, Phase, lobby, reading, answering, delivery, results,
  final, Event, session_started, question_reading_started, question_answering_started,
  answer_delivery_started, question_results_opened, session_finished, session_aborted, Game,
}

-- The status, the phase and the number of questions that have been opened.
pub data Position : Type 0 where
  at : Status → Phase → ℕ → Position

abbrev pub position : Game → Position
position g = at g.session.status g.session.phase (length g.runs)

abbrev pub total : Game → ℕ
total g = length g.version.questions

-- The steps of a session with `limit` questions, and what they announce.
pub data Step (limit : ℕ) : Position → Event → Position → Type 0 where
  begin : {n : ℕ} → Step limit (at waiting lobby n) session_started (at live lobby n)
  first :
      {n : ℕ}
      → n ≡ 0
      → 0 < limit
      → Step limit (at live lobby n) question_reading_started (at live reading (suc n))
  answer : {n : ℕ} → Step limit (at live reading n) question_answering_started (at live answering n)
  deliver : {n : ℕ} → Step limit (at live answering n) answer_delivery_started (at live delivery n)
  -- a timer that comes late closes a question from any of its phases
  close_reading :
      {n : ℕ} → Step limit (at live reading n) question_results_opened (at live results n)
  close_answering :
      {n : ℕ} → Step limit (at live answering n) question_results_opened (at live results n)
  close_delivery :
      {n : ℕ} → Step limit (at live delivery n) question_results_opened (at live results n)
  next :
      {n : ℕ}
      → n < limit
      → Step limit (at live results n) question_reading_started (at live reading (suc n))
  finish :
      {n : ℕ} → n ≡ limit → Step limit (at live results n) session_finished (at finished final n)
  abort_waiting :
      {p : Phase} {n : ℕ} → Step limit (at waiting p n) session_aborted (at aborted final n)
  abort_live : {p : Phase} {n : ℕ} → Step limit (at live p n) session_aborted (at aborted final n)

-- How far a position is: it grows with each step.
abbrev pub rank : ℕ → Position → ℕ
rank limit (at waiting p n) = 0
rank limit (at live lobby n) = 1
rank limit (at live reading n) = 4 * n - 2
rank limit (at live answering n) = 4 * n - 1
rank limit (at live delivery n) = 4 * n
rank limit (at live results n) = 4 * n + 1
rank limit (at live final n) = 4 * n + 1
rank limit (at finished p n) = 4 * limit + 2
rank limit (at aborted p n) = 4 * limit + 2

-- The questions that can have been opened where a session stands.
abbrev pub Fits : ℕ → Position → Type 0
Fits limit (at waiting p n) = n ≤ limit
Fits limit (at live lobby n) = n ≤ limit
Fits limit (at live p n) = (1 ≤ n) × (n ≤ limit)
Fits limit (at _ p n) = Unit

-- A step, from the status and the phase that a session is known to have.
pub Step-from :
    (g : Game) (s : Status) (p : Phase) {event : Event} {after : Position}
    → g.session.status ≡ s
    → g.session.phase ≡ p
    → Step (total g) (at s p (length g.runs)) event after
    → Step (total g) (position g) event after
Step-from g s p {event} {after} es ep h =
    subst (λ x. Step (total g) (at x g.session.phase (length g.runs)) event after) (sym es)
      (subst (λ x. Step (total g) (at s x (length g.runs)) event after) (sym ep) h)

-- A step after which the session is still live.
pub Step-live :
    (g : Game) (p : Phase) {event : Event} {p' : Phase} {n : ℕ}
    → g.session.status ≡ live
    → g.session.phase ≡ p
    → Step (total g) (at live p (length g.runs)) event (at live p' n)
    → Step (total g) (position g) event (at g.session.status p' n)
Step-live g p {event} {p'} {n} es ep h =
    subst (λ x. Step (total g) (position g) event (at x p' n)) (sym es) (Step-from g live p es ep h)
