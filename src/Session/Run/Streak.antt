-- ===== src/Session/Run/Streak.antt =====
-- What `_select_final_attempts` picks out of a participant's attempts, which are in order of time.
use mathlib.Core.List.{reverse, reverse_aux, reverse-reverse}
use umclick.Common.{
  ℕ, ◌==◌, ◌≡◌, ◌≢◌, refl, sym, ap, ◌∙◌, subst, Option, none, some, List, [], ◌∷◌, ◌++◌, All,
  All-reverse_aux, reverse_aux-append, Bool-cases, inl, inr, ==_iff,
}
use umclick.Session.Model.{AnswerAttempt}
use umclick.Session.Run.Select.{timing_from, select_latest, select_final_attempts}

abbrev pub last : AnswerAttempt → List AnswerAttempt → AnswerAttempt
last a [] = a
last a (b ∷ rest) = last b rest

-- The list is empty, or its last attempt has another choice.
abbrev pub EndsElsewhere : ℕ → List AnswerAttempt → Type 0
EndsElsewhere choice [] = Unit {0}
EndsElsewhere choice (a ∷ rest) = (last a rest).choice_id ≢ choice

-- The answer is the last attempt, and the time is that of the first attempt of the longest unbroken
-- series of one choice that ends the list.
abbrev pub Picks : List AnswerAttempt → Option (AnswerAttempt × AnswerAttempt) → Type 0
Picks attempts none = attempts ≡ []
Picks attempts (some (selected, timing)) =
    (before : List AnswerAttempt) × (streak : List AnswerAttempt) × (attempts
      ≡ before ++ (timing ∷ streak))
    × (last timing streak ≡ selected)
    × All (λ a. a.choice_id ≡ selected.choice_id) (timing ∷ streak)
    × EndsElsewhere selected.choice_id before

last-append : (a b : AnswerAttempt) (xs : List AnswerAttempt) → last a (xs ++ (b ∷ [])) ≡ b
last-append a b [] = refl
last-append a b (x ∷ xs) = last-append x b xs

reverse_aux-EndsElsewhere :
    (choice : ℕ) (a : AnswerAttempt) (xs : List AnswerAttempt)
    → a.choice_id ≢ choice
    → EndsElsewhere choice (reverse_aux xs [] ++ (a ∷ []))
reverse_aux-EndsElsewhere choice a xs h = go (reverse_aux xs [])
  where
    go : (ys : List AnswerAttempt) → EndsElsewhere choice (ys ++ (a ∷ []))
    go [] = h
    go (y ∷ ys) = λ e. h (sym (ap (λ (z : AnswerAttempt). z.choice_id) (last-append y a ys)) ∙ e)

timing_from-Picks :
    (selected timing : AnswerAttempt) (streak earlier : List AnswerAttempt)
    → last timing streak ≡ selected
    → All (λ a. a.choice_id ≡ selected.choice_id) (timing ∷ streak)
    → Picks
        (reverse_aux earlier (timing ∷ streak))
        (some (selected, timing_from selected.choice_id timing earlier))
timing_from-Picks selected timing streak [] e h = ([], streak, refl, e, h, tt)
timing_from-Picks selected timing streak (a ∷ rest) e h =
    elim (Bool-cases (a.choice_id == selected.choice_id)) [
      | inl same ↦ rw same (
          timing_from-Picks selected a (timing ∷ streak) rest e
            ((==_iff a.choice_id selected.choice_id).0 same, h))
      | inr other ↦ rw other (
        reverse_aux rest (a ∷ []),
        streak,
        reverse_aux-append rest (a ∷ []) (timing ∷ streak),
        e,
        h,
        subst (EndsElsewhere selected.choice_id) (sym (reverse_aux-append rest [] (a ∷ []))) (
            reverse_aux-EndsElsewhere selected.choice_id a rest
              (λ p. cc ((==_iff a.choice_id selected.choice_id).1 p))),
      )
    ]

select_latest-Picks :
    (latest : List AnswerAttempt) → Picks (reverse_aux latest []) (select_latest latest)
select_latest-Picks [] = refl
select_latest-Picks (selected ∷ earlier) =
    timing_from-Picks selected selected [] earlier refl (refl, tt)

-- Whatever the attempts are, `_select_final_attempts` returns nothing exactly for no attempts, and
-- otherwise the last attempt together with the first attempt of the longest final series of
-- attempts that all have the last attempt's choice.
pub select_final_attempts-Picks :
    (attempts : List AnswerAttempt) → Picks attempts (select_final_attempts attempts)
unfolding select_final_attempts
select_final_attempts-Picks attempts =
    subst (λ xs. Picks xs (select_latest (reverse attempts))) (reverse-reverse attempts)
      (select_latest-Picks (reverse attempts))

abbrev pub Chosen : (AnswerAttempt → Type 0) → Option (AnswerAttempt × AnswerAttempt) → Type 0
Chosen P none = Unit {0}
Chosen P (some (selected, timing)) = P selected × P timing

timing_from-All :
    (P : AnswerAttempt → Type 0) (choice : ℕ) (timing : AnswerAttempt)
    (earlier : List AnswerAttempt)
    → P timing
    → All P earlier
    → P (timing_from choice timing earlier)
timing_from-All P choice timing [] h k = h
timing_from-All P choice timing (a ∷ rest) h k = elim (Bool-cases (a.choice_id == choice)) [
  | inl e ↦ rw e (timing_from-All P choice a rest k.0 k.1)
  | inr e ↦ rw e h
]

select_latest-Chosen :
    (P : AnswerAttempt → Type 0) (latest : List AnswerAttempt)
    → All P latest
    → Chosen P (select_latest latest)
select_latest-Chosen P [] h = tt
select_latest-Chosen P (selected ∷ earlier) h =
    (h.0, timing_from-All P selected.choice_id selected earlier h.0 h.1)

-- Both attempts that are picked are among the given ones.
pub select_final_attempts-Chosen :
    (P : AnswerAttempt → Type 0) (attempts : List AnswerAttempt)
    → All P attempts
    → Chosen P (select_final_attempts attempts)
unfolding select_final_attempts
select_final_attempts-Chosen P attempts h =
    select_latest-Chosen P (reverse attempts) (All-reverse_aux P attempts [] h tt)
