-- ===== src/Session/Results/Scores.antt =====
-- What the rows of a leaderboard should say of the participants.
use umclick.Common.{
  ℕ, suc, ◌+◌, ◌==◌, ◌≡◌, ◌≢◌, refl, sym, subst, Bool, true, false, Option, none, some, List, [],
  ◌∷◌, length, keep, count_if, map, arith,
}
use umclick.Session.Model.{Game, SessionParticipant, FinalAnswer}
use umclick.Session.Results.Kept.{keep-taken, keep-left_out}
use umclick.Session.Results.{Score, correct_final, sum_ms, score_of}

-- So many of the answers are correct ones of participant `k`, in so many milliseconds in all. An answer
-- without a time counts without one.
pub data Tally (k : ℕ) : List FinalAnswer → ℕ → ℕ → Type 0 where
  no_answer : Tally k [] 0 0
  timed :
      (f : FinalAnswer) (fs : List FinalAnswer) (n ms t : ℕ)
      → f.session_participant_id ≡ k
      → f.is_correct ≡ true
      → f.ranking_elapsed_ms ≡ some ms
      → Tally k fs n t
      → Tally k (f ∷ fs) (suc n) (ms + t)
  untimed :
      (f : FinalAnswer) (fs : List FinalAnswer) (n t : ℕ)
      → f.session_participant_id ≡ k
      → f.is_correct ≡ true
      → f.ranking_elapsed_ms ≡ none
      → Tally k fs n t
      → Tally k (f ∷ fs) (suc n) t
  wrong :
      (f : FinalAnswer) (fs : List FinalAnswer) (n t : ℕ)
      → f.is_correct ≡ false
      → Tally k fs n t
      → Tally k (f ∷ fs) n t
  of_another :
      (f : FinalAnswer) (fs : List FinalAnswer) (n t : ℕ)
      → f.session_participant_id ≢ k
      → Tally k fs n t
      → Tally k (f ∷ fs) n t

pub record IsScore (finals : List FinalAnswer) (p : SessionParticipant) (s : Score) : Type 0 where
  pub participant : s.session_participant_id ≡ p.pk
  pub name : s.participant_name ≡ p.name_snapshot
  pub tally : Tally p.pk finals s.correct_answers s.correct_time_ms

-- The scores of the participants, one each and in their order.
abbrev pub ScoresOf : List FinalAnswer → List SessionParticipant → List Score → Type 0
ScoresOf finals [] [] = Unit {0}
ScoresOf finals (p ∷ ps) (s ∷ ss) = IsScore finals p s × ScoresOf finals ps ss
ScoresOf finals _ _ = ⊥

own-Tally :
    (k : ℕ) (f : FinalAnswer) (fs : List FinalAnswer) (n t : ℕ) (o : Option ℕ)
    → f.ranking_elapsed_ms ≡ o
    → f.session_participant_id ≡ k
    → f.is_correct ≡ true
    → Tally k fs n t
    → Tally k (f ∷ fs) (suc n) (elim f.ranking_elapsed_ms [ none ↦ t | some ms ↦ ms + t ])
own-Tally k f fs n t none m s c rest =
    subst (λ o. Tally k (f ∷ fs) (suc n) (elim o [ none ↦ t | some ms ↦ ms + t ])) (sym m)
      (untimed f fs n t s c m rest)
own-Tally k f fs n t (some ms) m s c rest =
    subst (λ o. Tally k (f ∷ fs) (suc n) (elim o [ none ↦ t | some ms ↦ ms + t ])) (sym m)
      (timed f fs n ms t s c m rest)

counted-Tally :
    (k : ℕ) (fs : List FinalAnswer)
    → Tally k fs (count_if (correct_final k) fs) (sum_ms (keep (correct_final k) fs))
counted-Tally k [] = no_answer
counted-Tally k (f ∷ fs) =
    either (f.session_participant_id == k) f.is_correct refl refl (counted-Tally k fs)
  where
    fits : List FinalAnswer → Type 0
    fits kept = Tally k (f ∷ fs) (length kept) (sum_ms kept)

    either :
        (own correct : Bool)
        → (f.session_participant_id == k) ≡ own
        → f.is_correct ≡ correct
        → Tally k fs (count_if (correct_final k) fs) (sum_ms (keep (correct_final k) fs))
        → fits (keep (correct_final k) (f ∷ fs))
    either false correct e c rest =
        subst fits (keep-left_out (correct_final k) f fs (cc))
          (of_another f fs _ _ (ground (arith, e)) rest)
    either true false e c rest =
        subst fits (keep-left_out (correct_final k) f fs (cc)) (wrong f fs _ _ c rest)
    either true true e c rest =
        subst fits (keep-taken (correct_final k) f fs (cc))
          (own-Tally k f fs _ _ f.ranking_elapsed_ms refl (ground (arith, e)) c rest)

pub map-ScoresOf :
    (g : Game) (ps : List SessionParticipant) → ScoresOf g.finals ps (map (score_of g) ps)
map-ScoresOf g [] = tt
map-ScoresOf g (p ∷ ps) = (
  record { participant = refl; name = refl; tally = counted-Tally p.pk g.finals },
  map-ScoresOf g ps,
)
