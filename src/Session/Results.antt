-- ===== src/Session/Results.antt =====
-- backend/apps/session/results.py: the leaderboard of a session.
mod Kept
mod Rearranged
pub mod Scores
pub mod Places
pub mod Legacy
mod Tests
use umclick.Common.{
  ℕ, suc, ◌+◌, leb, ltb, ◌==◌, if◌then◌else◌, Bool, true, false, not, ◌&&◌, ◌||◌, Option, none,
  some, List, [], ◌∷◌, keep, count_if, order_by, map,
}
use umclick.Quiz.Model.{Text}
use umclick.Session.Model.{Game, SessionParticipant, FinalAnswer}

-- A row before its place is known.
pub record Score : Type 0 where
  pub session_participant_id : ℕ
  pub participant_name : Text
  pub correct_answers : ℕ
  pub correct_time_ms : ℕ

pub record Row : Type 0 where
  pub score : Score
  pub open score use *
  pub rank : ℕ
  pub is_podium : Bool

-- `key` of the loop
abbrev pub same_key : Score → Score → Bool
same_key a b = a.correct_answers == b.correct_answers && a.correct_time_ms == b.correct_time_ms

-- Whether the rank of the previous row is kept: the first row has no previous key.
abbrev pub rank_of : Option (Score × ℕ) → Score → ℕ → ℕ
rank_of none row index = index
rank_of (some (previous, rank)) row index = if same_key row previous then rank else index

-- The loop of `_with_places` from its state: the previous key with its rank, and the index.
abbrev pub places_from : Option (Score × ℕ) → ℕ → List Score → List Row
places_from previous index [] = []
places_from previous index (row ∷ rows) =
    let rank = rank_of previous row index in
    record { score = row; rank = rank; is_podium = leb rank 3 }
    ∷ places_from (some (row, rank)) (suc index) rows

unfoldable pub with_places : List Score → List Row
with_places rows = places_from none 1 rows

abbrev pub correct_final : ℕ → FinalAnswer → Bool
correct_final participant f = f.session_participant_id == participant && f.is_correct

-- `Sum` leaves missing values out.
abbrev pub sum_ms : List FinalAnswer → ℕ
sum_ms [] = 0
sum_ms (f ∷ rest) = elim f.ranking_elapsed_ms [ none ↦ sum_ms rest | some ms ↦ ms + sum_ms rest ]

-- The annotations of a participant.
abbrev pub score_of : Game → SessionParticipant → Score
score_of g p = record {
  session_participant_id = p.pk;
  participant_name = p.name_snapshot;
  correct_answers = count_if (correct_final p.pk) g.finals;
  correct_time_ms = sum_ms (keep (correct_final p.pk) g.finals);
}

-- `order_by('-correct_answers', 'correct_time_ms', 'id')`
abbrev pub score_before : Score → Score → Bool
score_before a b =
    ltb b.correct_answers a.correct_answers
    || (a.correct_answers == b.correct_answers
        && (ltb a.correct_time_ms b.correct_time_ms
            || (a.correct_time_ms == b.correct_time_ms
                && leb a.session_participant_id b.session_participant_id)))

-- `build_stage_b_leaderboard`, without the telephone numbers.
unfoldable pub build_stage_b_leaderboard : Game → List Row
build_stage_b_leaderboard g = with_places (order_by score_before (map (score_of g) g.participants))
