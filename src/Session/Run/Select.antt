-- ===== src/Session/Run/Select.antt =====
-- `_select_final_attempts` of backend/apps/session/gameplay.py: the last attempt is the answer, and
-- its time is that of the earliest attempt from which the choice did not change any more.
use mathlib.Core.List.{reverse}
use umclick.Common.{ℕ, ◌==◌, if◌then◌else◌, Option, none, some, List, [], ◌∷◌}
use umclick.Session.Model.{AnswerAttempt}

-- The loop over the earlier attempts, latest first.
abbrev pub timing_from : ℕ → AnswerAttempt → List AnswerAttempt → AnswerAttempt
timing_from choice timing [] = timing
timing_from choice timing (a ∷ rest) =
    let further = timing_from choice a rest in if a.choice_id == choice then further else timing

abbrev pub select_latest : List AnswerAttempt → Option (AnswerAttempt × AnswerAttempt)
select_latest [] = none
select_latest (selected ∷ earlier) =
    some (selected, timing_from selected.choice_id selected earlier)

unfoldable pub select_final_attempts : List AnswerAttempt → Option (AnswerAttempt × AnswerAttempt)
select_final_attempts attempts = select_latest (reverse attempts)
