-- ===== src/Session/History/Bound.antt =====
-- A session ends: the number of its revisions is bounded by the number of its questions.
use umclick.Common.{
  ℕ, ◌+◌, ◌*◌, ◌≤◌, ◌<◌, ◌≡◌, refl, sym, ap, ◌∙◌, subst, Bool, true, false, List, [], ◌∷◌, length,
  arith,
}
use umclick.Quiz.Model.{QuizVersion}
use umclick.Session.Model.{
  Game, LiveSession, SessionQuestionRun, Env, Event, Status, waiting, live, finished, aborted,
  Phase, lobby, reading, answering, delivery, results, final,
}
use umclick.Session.Spec.{
  Position, at, position, total, Step, begin, first, answer, deliver, close_reading,
  close_answering, close_delivery, next, finish, abort_waiting, abort_live, rank, Fits,
}
use umclick.Session.Transition.Moved.{Moved}
use umclick.Session.Valid.{IsValid, Placed, Current}
use umclick.Session.Valid.Progress.{asked-le}
use umclick.Session.History.{
  History, here, after, Effect, same, applied, ticked, stored, Commit-Effect, History-IsValid,
}

-- The rank grows with each step of the abstract machine.
pub Step-rank :
    {limit : ℕ} {p q : Position} {e : Event}
    → Step limit p e q
    → Fits limit p
    → rank limit p < rank limit q
Step-rank begin h = omega arith
Step-rank (first z p) h = omega arith
Step-rank answer h = omega arith
Step-rank deliver h = omega arith
Step-rank close_reading h = omega arith
Step-rank close_answering h = omega arith
Step-rank close_delivery h = omega arith
Step-rank (next l) h = omega arith
Step-rank (finish e) h = omega arith
Step-rank abort_waiting h = omega arith
Step-rank (abort_live {p = lobby}) h = omega arith
Step-rank (abort_live {p = reading}) h = omega arith
Step-rank (abort_live {p = answering}) h = omega arith
Step-rank (abort_live {p = delivery}) h = omega arith
Step-rank (abort_live {p = results}) h = omega arith
Step-rank (abort_live {p = final}) h = omega arith

Current-nonempty :
    (s : LiveSession) (runs : List SessionQuestionRun) (closed : Bool)
    → Current s runs closed
    → 1 ≤ length runs
Current-nonempty s [] closed h = elim h [ ]
Current-nonempty s (r ∷ rs) closed h = omega arith

Placed-Fits :
    (status : Status) (phase : Phase) (s : LiveSession) (runs : List SessionQuestionRun) (limit : ℕ)
    → Placed status phase s runs
    → length runs ≤ limit
    → Fits limit (at status phase (length runs))
Placed-Fits waiting lobby s runs limit h l = l
Placed-Fits live lobby s runs limit h l = l
Placed-Fits live reading s runs limit h l = (Current-nonempty s runs false h.0, l)
Placed-Fits live answering s runs limit h l = (Current-nonempty s runs false h.0, l)
Placed-Fits live delivery s runs limit h l = (Current-nonempty s runs false h.0, l)
Placed-Fits live results s runs limit h l = (Current-nonempty s runs true h.0, l)
Placed-Fits finished final s runs limit h l = tt
Placed-Fits aborted final s runs limit h l = tt
Placed-Fits _ _ s runs limit h l = elim h [ ]

pub position-Fits : (g : Game) → IsValid g → Fits (total g) (position g)
position-Fits g v =
    Placed-Fits g.session.status g.session.phase g.session g.runs (total g) v.placed
      (asked-le g.version g.runs v.runs.played)

rank-le : (limit : ℕ) (p : Position) → Fits limit p → rank limit p ≤ 4 * limit + 2
rank-le limit (at waiting p n) h = omega arith
rank-le limit (at live lobby n) h = omega arith
rank-le limit (at live reading n) h = omega arith
rank-le limit (at live answering n) h = omega arith
rank-le limit (at live delivery n) h = omega arith
rank-le limit (at live results n) h = omega arith
rank-le limit (at live final n) h = omega arith
rank-le limit (at finished p n) h = omega arith
rank-le limit (at aborted p n) h = omega arith

-- The revision has not run ahead of the position.
abbrev PacedAt : LiveSession → QuizVersion → List SessionQuestionRun → Type 0
PacedAt s v runs = s.state_revision ≤ rank (length v.questions) (at s.status s.phase (length runs))

abbrev pub Paced : Game → Type 0
Paced g = PacedAt g.session g.version g.runs

Moved-Paced : (g g' : Game) (event : Event) → IsValid g → Moved g event g' → Paced g → Paced g'
Moved-Paced g g' event v m h =
    let far = Step-rank m.step (position-Fits g v) in
    subst (λ w. g'.session.state_revision ≤ rank (length w.questions) (position g')) (sym m.version)
      (omega (arith, far, m.revision))

Effect-Paced : (env : Env) (g g' : Game) → IsValid g → Effect env g g' → Paced g → Paced g'
Effect-Paced env g g' v (same e) h = subst Paced (sym e) h
Effect-Paced env g g' v (applied kind input response a) h = Moved-Paced g g' a.event v a.advanced h
Effect-Paced env g g' v (ticked t) h = Moved-Paced g g' t.fired.event v t.moved h
Effect-Paced env g g' v (stored input moment a s) h =
    subst (λ x. PacedAt x g'.version g'.runs) (sym s.session)
      (subst (λ x. PacedAt g.session x g'.runs) (sym s.version)
        (subst (λ x. PacedAt g.session g.version x) (sym s.runs) h))

History-Paced : (env : Env) (g h : Game) → IsValid g → Paced g → History env g h → Paced h
History-Paced env g h v p here = p
History-Paced env g h v p (after {g = m} q c) =
    let valid = History-IsValid env g m v q in
    Effect-Paced env m h valid (Commit-Effect env m h valid c) (History-Paced env g m v p q)

Effect-version : (env : Env) (g g' : Game) → Effect env g g' → g'.version ≡ g.version
Effect-version env g g' (same e) = ap (λ (x : Game). x.version) e
Effect-version env g g' (applied kind input response a) = a.advanced.version
Effect-version env g g' (ticked t) = t.moved.version
Effect-version env g g' (stored input moment a s) = s.version

History-version : (env : Env) (g h : Game) → IsValid g → History env g h → h.version ≡ g.version
History-version env g h v here = refl
History-version env g h v (after {g = m} q c) =
    Effect-version env m h (Commit-Effect env m h (History-IsValid env g m v q) c)
    ∙ History-version env g m v q

-- From a valid session that nothing has happened to yet (revision 0), no history of commands, timer
-- calls and answers brings the revision above 4 * n + 2, where n is the number of questions of its
-- version: at most four changes of state for each question, and two for the session.
pub History-bounded :
    (env : Env) (g h : Game)
    → IsValid g
    → g.session.state_revision ≡ 0
    → History env g h
    → h.session.state_revision ≤ 4 * total g + 2
History-bounded env g h v new p =
    let valid = History-IsValid env g h v p in
    omega (
      arith,
      History-Paced env g h v (omega arith) p,
      rank-le (total h) (position h) (position-Fits h valid),
      ap (λ (w : QuizVersion). length w.questions) (History-version env g h v p),
    )
