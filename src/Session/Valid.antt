-- ===== src/Session/Valid.antt =====
-- When the rows of a game fit together: the invariant of backend/apps/session/gameplay.py.
pub mod Progress
pub mod Open
pub mod Finals
pub mod Change
pub mod Close
pub mod Everybody
mod Tests
pub mod Finish
use mathlib.Core.List.{reverse_aux}
use umclick.Common.{
  ℕ, ◌+◌, ◌≤◌, ◌<◌, ◌==◌, ◌≡◌, ◌≢◌, leb, is_some, Bool, true, false, ◌&&◌, Option, none, some, List,
  [], ◌∷◌, length, any, All, count_if, DistinctBy,
}
use umclick.Quiz.Model.{QuizVersion, Question, ordered_questions, find_choice}
use umclick.Session.Model.{
  Game, LiveSession, SessionQuestionRun, SessionParticipant, AnswerAttempt, FinalAnswer, Status,
  waiting, live, finished, aborted, Phase, lobby, reading, answering, delivery, results, final,
}
use umclick.Session.Save.{run_constraints}
use umclick.Session.Answer.{of_participant}
use Progress.{Distinct, Played}

-- No run is current.
abbrev pub Idle : LiveSession → Type 0
Idle s = (s.current_question_id ≡ none) × (s.current_run_id ≡ none)

-- The newest run is current, and finalized or not.
abbrev pub Current : LiveSession → List SessionQuestionRun → Bool → Type 0
Current s [] closed = ⊥
Current s (r ∷ rs) closed =
    (s.current_run_id ≡ some r.pk)
    × (s.current_question_id ≡ some r.question_id)
    × (is_some r.finalized_at ≡ closed)
    × (is_some r.results_ends_at ≡ closed)

abbrev pub Running : LiveSession → Type 0
Running s = (is_some s.started_at ≡ true) × (s.finished_at ≡ none)

abbrev pub answering_start : List SessionQuestionRun → Option ℕ
answering_start [] = none
answering_start (r ∷ rs) = some r.answering_started_at

-- What goes with a status and a phase. The pairs that are not listed do not occur.
abbrev pub Placed : Status → Phase → LiveSession → List SessionQuestionRun → Type 0
Placed waiting lobby s runs = Idle s × (runs ≡ []) × (s.started_at ≡ none) × (s.finished_at ≡ none)
Placed live lobby s runs = Idle s × (runs ≡ []) × Running s
Placed live reading s runs = Current s runs false × Running s
Placed live answering s runs =
    Current s runs false × Running s × (s.phase_started_at ≡ answering_start runs)
Placed live delivery s runs = Current s runs false × Running s
Placed live results s runs = Current s runs true × Running s
Placed finished final s runs = Idle s × (is_some s.finished_at ≡ true)
Placed aborted final s runs = Idle s × (is_some s.finished_at ≡ true)
Placed _ _ s runs = ⊥

-- Keys fall along the list, and stay below the next one.
abbrev pub Below : ℕ → List SessionQuestionRun → Type 0
Below n [] = Unit {0}
Below n (r ∷ rs) = (r.pk < n) × Below r.pk rs

-- Ordinals count the runs from 1.
abbrev pub Numbered : List SessionQuestionRun → Type 0
Numbered [] = Unit {0}
Numbered (r ∷ rs) = (r.ordinal ≡ length rs + 1) × Numbered rs

pub record RunsValid (v : QuizVersion) (next : ℕ) (runs : List SessionQuestionRun) : Type 0 where
  pub below : Below next runs
  pub numbered : Numbered runs
  pub played : Played (ordered_questions v) runs
  pub dated : All (λ r. run_constraints r ≡ true) runs

-- A run that is stored and finalized.
abbrev pub Settled : List SessionQuestionRun → ℕ → Type 0
Settled runs k = any (λ r. r.pk == k && is_some r.finalized_at) runs ≡ true

abbrev pub AttemptValid : List Question → List AnswerAttempt → AnswerAttempt → Type 0
AttemptValid questions attempts a =
    (is_some (find_choice questions a.choice_id) ≡ true)
    × (1 ≤ a.ordinal)
    × (a.ordinal ≤ count_if (of_participant a.run_id a.session_participant_id) attempts)

abbrev pub DistinctPeople : List SessionParticipant → Type 0
DistinctPeople = DistinctBy λ p. p.pk

pub record IsValid (g : Game) : Type 0 where
  pub linked : g.version.pk ≡ g.session.quiz_version_id
  pub questions : Distinct g.version.questions
  pub placed : Placed g.session.status g.session.phase g.session g.runs
  pub runs : RunsValid g.version g.next_run_pk g.runs
  pub people : DistinctPeople g.participants
  pub finals : All (λ f. Settled g.runs f.run_id) g.finals
  pub attempts : All (AttemptValid g.version.questions g.attempts) g.attempts
