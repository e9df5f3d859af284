-- ===== src/Session/Valid/Tests.antt =====
-- The question of the concrete game is closed.
use umclick.Common.{◌≡◌, refl, some, [], All, ok, arith}
use umclick.Session.Model.{Game, question_results_opened}
use umclick.Session.Run.{finalize_locked}
use umclick.Session.Games.{env, run, answering_game, answering_game-IsValid}
use umclick.Session.Valid.Everybody.{answers_for, finalize_locked-everybody}

finalize_locked-everybody_example :
    (g' : Game) × (finalize_locked env answering_game run 29_000_000
      ≡ ok (g', some question_results_opened))
    × (g'.participants ≡ answering_game.participants)
    × All (λ p. answers_for run g'.finals p ≡ 1) g'.participants
finalize_locked-everybody_example =
    finalize_locked-everybody env answering_game run [] 29_000_000 answering_game-IsValid refl refl
      (refl, refl, refl, refl) (refl, refl) (omega arith)
