-- ===== src/Quiz/Refusals.antt =====
-- What the services of backend/apps/quiz/services.py raise, and create_live_session of
-- backend/apps/session/services.py.
use umclick.Common.{ℕ}
use umclick.Quiz.Validation.{Errors}

pub data Refusal : Type 0 where
  permission_denied quiz_not_found quiz_archived : Refusal
  -- `QuizRevisionConflict` carries the current revision
  quiz_revision_conflict : ℕ → Refusal
  -- `Conflict`: the card has no version
  no_version : Refusal
  -- `ValidationError` of the merge, with the indices of the key, and of the validation
  unknown_question : ℕ → Refusal
  unknown_choice : ℕ → ℕ → Refusal
  invalid_content : Errors → Refusal
  open_session history_protected : Refusal
  -- `LiveSession.save` of a new row found no free pin
  no_free_pin : Refusal
  key_error integrity_error history_conflict : Refusal
