-- ===== src/Session/Results/Tests.antt =====
-- A leaderboard of three participants, in the order of their scores.
use mathlib.Core.List.{Permᴰ}
use umclick.Common.{
  ℕ, ◌≡◌, refl, Bool, true, false, Option, none, some, List, [], ◌∷◌, DistinctBy, map, All,
}
use umclick.Session.Model.{Game, SessionParticipant, FinalAnswer, answered}
use umclick.Session.Games.{answering_game}
use umclick.Session.Results.{Score, Row, with_places, build_stage_b_leaderboard}
use umclick.Session.Results.Legacy.{LegacyAnswer, LegacyScore, LegacyRow, build_legacy_leaderboard}
use umclick.Session.Results.Legacy.Scores.{LegacyScoresOf}
use umclick.Session.Results.Legacy.Ranks.{Descending, Ranked, build_legacy_leaderboard-Ranked}
use umclick.Session.Results.Scores.{ScoresOf}
use umclick.Session.Results.Places.{Sorted, PlacedAmong, build_stage_b_leaderboard-Placed}

abbrev named : ℕ → SessionParticipant
named k = record { pk = k; participant_id = k; token_digest = k; name_snapshot = k ∷ [] }

abbrev final_answer : ℕ → ℕ → Bool → Option ℕ → FinalAnswer
final_answer run participant is_correct ms = record {
  run_id = run;
  session_participant_id = participant;
  selected_attempt = none;
  timing_attempt = none;
  outcome = answered;
  is_correct = is_correct;
  actual_elapsed_ms = ms;
  ranking_elapsed_ms = ms;
  finalized_at = 40_000_000;
}

abbrev board_game : Game
board_game = record answering_game {
  participants = named 1 ∷ named 2 ∷ named 3 ∷ [];
  finals =
      final_answer 1 1 true (some 900)
      ∷ final_answer 1 2 true (some 400)
      ∷ final_answer 1 3 true (some 150)
      ∷ final_answer 2 1 false (some 100)
      ∷ final_answer 2 2 false none
      ∷ final_answer 2 3 true (some 250)
      ∷ final_answer 3 2 true (some 500)
      ∷ [];
}

board_test :
    map (λ (r : Row). r.score.session_participant_id) (build_stage_b_leaderboard board_game)
    ≡ 3 ∷ 2 ∷ 1 ∷ []
unfolding build_stage_b_leaderboard with_places
board_test = refl

build_stage_b_leaderboard-Placed_example :
    let rows = build_stage_b_leaderboard board_game in
    (scores : List Score) × ScoresOf board_game.finals board_game.participants scores
    × Permᴰ (map (λ (r : Row). r.score) rows) scores
    × Sorted (map (λ (r : Row). r.score) rows)
    × All (PlacedAmong scores) rows
build_stage_b_leaderboard-Placed_example = build_stage_b_leaderboard-Placed board_game

-- The first participant has more points, the second as many correct answers as the third.
abbrev old_answer : ℕ → Bool → ℕ → ℕ → LegacyAnswer
old_answer participant is_correct points ms = record {
  session_participant_id = participant;
  is_correct = is_correct;
  score_points = points;
  answer_elapsed_ms = ms;
}

abbrev old_answers : List LegacyAnswer
old_answers =
    old_answer 3 true 5 900
    ∷ old_answer 2 true 5 700
    ∷ old_answer 1 true 5 800
    ∷ old_answer 1 true 3 100
    ∷ []

legacy_test :
    map
      (λ (r : LegacyRow). r.score.session_participant_id)
      (build_legacy_leaderboard old_answers board_game)
    ≡ 1 ∷ 2 ∷ 3 ∷ []
unfolding build_legacy_leaderboard
legacy_test = refl

distinct : DistinctBy (λ (p : SessionParticipant). p.pk) board_game.participants
distinct = (((λ e. cc), ((λ e. cc), tt)), (((λ e. cc), tt), (tt, tt)))

build_legacy_leaderboard-Ranked_example :
    let rows = build_legacy_leaderboard old_answers board_game in
    (scores : List LegacyScore) × LegacyScoresOf old_answers board_game.participants scores
    × Permᴰ (map (λ (r : LegacyRow). r.score) rows) scores
    × Descending (map (λ (r : LegacyRow). r.score) rows)
    × Ranked 1 rows
build_legacy_leaderboard-Ranked_example =
    build_legacy_leaderboard-Ranked old_answers board_game distinct
