-- ===== src/Session/Results/Legacy.antt =====
-- The leaderboard of the legacy schema, and the choice between the two, of
-- backend/apps/session/results.py.
pub mod Scores
pub mod Ranks
use umclick.Common.{
  ℕ, suc, ◌+◌, leb, ltb, ◌==◌, Bool, ◌&&◌, ◌||◌, List, [], ◌∷◌, keep, count_if, order_by, map,
}
use umclick.Quiz.Model.{Text}
use umclick.Session.Model.{Game, SessionParticipant, legacy, v2}
use umclick.Session.Results.{Row, build_stage_b_leaderboard}

-- The columns of `LegacyParticipantAnswer` that count.
pub record LegacyAnswer : Type 0 where
  pub session_participant_id : ℕ
  pub is_correct : Bool
  pub score_points : ℕ
  pub answer_elapsed_ms : ℕ

-- A row before its rank is known.
pub record LegacyScore : Type 0 where
  pub session_participant_id : ℕ
  pub participant_name : Text
  pub points : ℕ
  pub correct_answers : ℕ
  pub answer_time_ms : ℕ

pub record LegacyRow : Type 0 where
  pub score : LegacyScore
  pub open score use *
  pub rank : ℕ
  pub is_podium : Bool

abbrev pub answers_by : List LegacyAnswer → ℕ → List LegacyAnswer
answers_by answers participant =
    keep (λ (a : LegacyAnswer). a.session_participant_id == participant) answers

abbrev pub sum_of : (LegacyAnswer → ℕ) → List LegacyAnswer → ℕ
sum_of f [] = 0
sum_of f (a ∷ rest) = f a + sum_of f rest

-- The annotations of a participant.
abbrev pub legacy_score : List LegacyAnswer → SessionParticipant → LegacyScore
legacy_score answers p = record {
  session_participant_id = p.pk;
  participant_name = p.name_snapshot;
  points = sum_of (λ a. a.score_points) (answers_by answers p.pk);
  correct_answers = count_if (λ (a : LegacyAnswer). a.is_correct) (answers_by answers p.pk);
  answer_time_ms = sum_of (λ a. a.answer_elapsed_ms) (answers_by answers p.pk);
}

-- `order_by('-points', '-correct_answers', 'answer_time_ms', 'id')`
abbrev pub legacy_before : LegacyScore → LegacyScore → Bool
legacy_before a b =
    ltb b.points a.points
    || (a.points == b.points
        && (ltb b.correct_answers a.correct_answers
            || (a.correct_answers == b.correct_answers
                && (ltb a.answer_time_ms b.answer_time_ms
                    || (a.answer_time_ms == b.answer_time_ms
                        && leb a.session_participant_id b.session_participant_id)))))

-- `enumerate(records, start=1)`
abbrev pub legacy_rows : ℕ → List LegacyScore → List LegacyRow
legacy_rows index [] = []
legacy_rows index (score ∷ scores) =
    record { score = score; rank = index; is_podium = leb index 3 } ∷ legacy_rows (suc index) scores

-- `build_legacy_leaderboard`, without the telephone numbers.
unfoldable pub build_legacy_leaderboard : List LegacyAnswer → Game → List LegacyRow
build_legacy_leaderboard answers g =
    legacy_rows 1 (order_by legacy_before (map (legacy_score answers) g.participants))

pub data Leaderboard : Type 0 where
  legacy_board : List LegacyRow → Leaderboard
  stage_b_board : List Row → Leaderboard

unfoldable pub build_leaderboard : List LegacyAnswer → Game → Leaderboard
build_leaderboard answers g = elim g.session.gameplay_schema [
  | legacy ↦ legacy_board (build_legacy_leaderboard answers g)
  | v2 ↦ stage_b_board (build_stage_b_leaderboard g)
]
