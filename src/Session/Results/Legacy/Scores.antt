-- ===== src/Session/Results/Legacy/Scores.antt =====
-- What the rows of the legacy leaderboard should say of the participants.
use umclick.Common.{
  ℕ, suc, ◌+◌, ◌==◌, ◌≡◌, ◌≢◌, refl, subst, Bool, true, false, List, [], ◌∷◌, length, keep,
  count_if, map, arith,
}
use umclick.Session.Model.{SessionParticipant}
use umclick.Session.Results.Kept.{keep-taken, keep-left_out}
use umclick.Session.Results.Legacy.{LegacyAnswer, LegacyScore, answers_by, sum_of, legacy_score}

-- The answers of participant `k` bring so many points, are correct so often, and took so long in all.
pub data LegacyTally (k : ℕ) : List LegacyAnswer → ℕ → ℕ → ℕ → Type 0 where
  no_answer : LegacyTally k [] 0 0 0
  right :
      (a : LegacyAnswer) (answers : List LegacyAnswer) (points n ms : ℕ)
      → a.session_participant_id ≡ k
      → a.is_correct ≡ true
      → LegacyTally k answers points n ms
      → LegacyTally k (a ∷ answers) (a.score_points + points) (suc n) (a.answer_elapsed_ms + ms)
  wrong :
      (a : LegacyAnswer) (answers : List LegacyAnswer) (points n ms : ℕ)
      → a.session_participant_id ≡ k
      → a.is_correct ≡ false
      → LegacyTally k answers points n ms
      → LegacyTally k (a ∷ answers) (a.score_points + points) n (a.answer_elapsed_ms + ms)
  of_another :
      (a : LegacyAnswer) (answers : List LegacyAnswer) (points n ms : ℕ)
      → a.session_participant_id ≢ k
      → LegacyTally k answers points n ms
      → LegacyTally k (a ∷ answers) points n ms

pub record IsLegacyScore (answers : List LegacyAnswer) (p : SessionParticipant) (s : LegacyScore)
    : Type 0 where
  pub participant : s.session_participant_id ≡ p.pk
  pub name : s.participant_name ≡ p.name_snapshot
  pub tally : LegacyTally p.pk answers s.points s.correct_answers s.answer_time_ms

-- The scores of the participants, one each and in their order.
abbrev pub LegacyScoresOf : List LegacyAnswer → List SessionParticipant → List LegacyScore → Type 0
LegacyScoresOf answers [] [] = Unit {0}
LegacyScoresOf answers (p ∷ ps) (s ∷ ss) = IsLegacyScore answers p s × LegacyScoresOf answers ps ss
LegacyScoresOf answers _ _ = ⊥

-- The tally that the sums over some answers make.
abbrev Sums : ℕ → List LegacyAnswer → List LegacyAnswer → Type 0
Sums k answers own =
    LegacyTally k answers (sum_of (λ a. a.score_points) own)
      (count_if (λ (a : LegacyAnswer). a.is_correct) own) (sum_of (λ a. a.answer_elapsed_ms) own)

own-Sums :
    (k : ℕ) (a : LegacyAnswer) (answers own : List LegacyAnswer) (correct : Bool)
    → a.session_participant_id ≡ k
    → a.is_correct ≡ correct
    → Sums k answers own
    → Sums k (a ∷ answers) (a ∷ own)
own-Sums k a answers own correct e c rest = entered correct c
  where
    Tallied : List LegacyAnswer → Type 0
    Tallied right_ones =
        LegacyTally k (a ∷ answers) (sum_of (λ x. x.score_points) (a ∷ own)) (length right_ones)
          (sum_of (λ x. x.answer_elapsed_ms) (a ∷ own))

    entered :
        (correct : Bool)
        → a.is_correct ≡ correct
        → Tallied (keep (λ (x : LegacyAnswer). x.is_correct) (a ∷ own))
    entered true c =
        subst Tallied (keep-taken (λ x. x.is_correct) a own c) (right a answers _ _ _ e c rest)
    entered false c =
        subst Tallied (keep-left_out (λ x. x.is_correct) a own c) (wrong a answers _ _ _ e c rest)

answers_by-Sums : (k : ℕ) (answers : List LegacyAnswer) → Sums k answers (answers_by answers k)
answers_by-Sums k [] = no_answer
answers_by-Sums k (a ∷ answers) =
    either (a.session_participant_id == k) refl (answers_by-Sums k answers)
  where
    either :
        (own : Bool)
        → (a.session_participant_id == k) ≡ own
        → Sums k answers (answers_by answers k)
        → Sums k (a ∷ answers) (answers_by (a ∷ answers) k)
    either true e rest =
        subst (Sums k (a ∷ answers)) (keep-taken (λ x. x.session_participant_id == k) a answers e)
          (own-Sums k a answers (answers_by answers k) a.is_correct (ground (arith, e)) refl rest)
    either false e rest =
        subst (Sums k (a ∷ answers))
          (keep-left_out (λ x. x.session_participant_id == k) a answers e)
          (of_another a answers _ _ _ (ground (arith, e)) rest)

pub map-LegacyScoresOf :
    (answers : List LegacyAnswer) (ps : List SessionParticipant)
    → LegacyScoresOf answers ps (map (legacy_score answers) ps)
map-LegacyScoresOf answers [] = tt
map-LegacyScoresOf answers (p ∷ ps) = (
  record { participant = refl; name = refl; tally = answers_by-Sums p.pk answers },
  map-LegacyScoresOf answers ps,
)
