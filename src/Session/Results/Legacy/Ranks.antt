-- ===== src/Session/Results/Legacy/Ranks.antt =====
-- The ranks of the legacy leaderboard.
use mathlib.Core.List.{Permᴰ}
use umclick.Common.{
  ℕ, suc, leb, ltb, ◌<◌, ◌≡◌, ◌≢◌, refl, sym, ap, subst, true, false, List, [], ◌∷◌, order_by,
  insert_by, All, All-map, All-both, All-insert_by, DistinctBy, OrderedBy, order_by-DistinctBy, map,
  inl, inr, Bool-cases, arith,
}
use umclick.Session.Model.{Game, SessionParticipant}
use umclick.Session.Results.Rearranged.{order_by-Perm}
use umclick.Session.Results.Legacy.{
  LegacyAnswer, LegacyScore, LegacyRow, legacy_score, legacy_before, legacy_rows,
  build_legacy_leaderboard,
}
use umclick.Session.Results.Legacy.Scores.{LegacyScoresOf, map-LegacyScoresOf}

before_total : (x y : LegacyScore) → legacy_before x y ≡ false → legacy_before y x ≡ true
before_total x y h = ground (arith, h)

before_trans :
    (x y z : LegacyScore)
    → legacy_before x y ≡ true
    → legacy_before y z ≡ true
    → legacy_before x z ≡ true
before_trans x y z h k = ground (arith, h, k)

-- What puts a score ahead of another.
pub data Ahead (a b : LegacyScore) : Type 0 where
  more_points : b.points < a.points → Ahead a b
  more_correct : a.points ≡ b.points → b.correct_answers < a.correct_answers → Ahead a b
  less_time :
      a.points ≡ b.points
      → a.correct_answers ≡ b.correct_answers
      → a.answer_time_ms < b.answer_time_ms
      → Ahead a b
  smaller_key :
      a.points ≡ b.points
      → a.correct_answers ≡ b.correct_answers
      → a.answer_time_ms ≡ b.answer_time_ms
      → a.session_participant_id < b.session_participant_id
      → Ahead a b

-- Every score is ahead of those after it.
abbrev pub Descending : List LegacyScore → Type 0
Descending [] = Unit {0}
Descending (x ∷ xs) = All (Ahead x) xs × Descending xs

-- The ranks count from `n`, and the podium is the ranks up to three.
abbrev pub Ranked : ℕ → List LegacyRow → Type 0
Ranked n [] = Unit {0}
Ranked n (r ∷ rs) = (r.rank ≡ n) × (r.is_podium ≡ leb n 3) × Ranked (suc n) rs

before-Ahead :
    (x y : LegacyScore)
    → legacy_before x y ≡ true
    → y.session_participant_id ≢ x.session_participant_id
    → Ahead x y
before-Ahead x y h d = elim (Bool-cases (ltb y.points x.points)) [
  | inl e ↦ more_points (ground (arith, e))
  | inr e ↦ elim (Bool-cases (ltb y.correct_answers x.correct_answers)) [
    | inl c ↦ more_correct (ground (arith, h, e)) (ground (arith, c))
    | inr c ↦ elim (Bool-cases (ltb x.answer_time_ms y.answer_time_ms)) [
      | inl t ↦ less_time (ground (arith, h, e)) (ground (arith, h, e, c)) (ground (arith, t))
      | inr t ↦
          smaller_key (ground (arith, h, e)) (ground (arith, h, e, c)) (ground (arith, h, e, c, t))
            (ground (arith, h, d, e, c, t))
    ]
  ]
]

OrderedBy-Descending :
    (xs : List LegacyScore)
    → OrderedBy legacy_before xs
    → DistinctBy (λ s. s.session_participant_id) xs
    → Descending xs
OrderedBy-Descending [] h d = tt
OrderedBy-Descending (x ∷ xs) h d =
    (All-both (λ y b e. before-Ahead x y b e) xs h.0 d.0, OrderedBy-Descending xs h.1 d.1)

insert_by-OrderedBy :
    (x : LegacyScore) (xs : List LegacyScore)
    → OrderedBy legacy_before xs
    → OrderedBy legacy_before (insert_by legacy_before x xs)
insert_by-OrderedBy x [] h = (tt, tt)
insert_by-OrderedBy x (y ∷ ys) h = elim (Bool-cases (legacy_before x y)) [
  | inl e ↦ rw e ((e, All-map (λ z b. before_trans x y z e b) ys h.0), h)
  | inr e ↦ rw e (
    All-insert_by (λ z. legacy_before y z ≡ true) legacy_before x ys (before_total x y e) h.0,
    insert_by-OrderedBy x ys h.1,
  )
]

order_by-OrderedBy : (xs : List LegacyScore) → OrderedBy legacy_before (order_by legacy_before xs)
order_by-OrderedBy [] = tt
order_by-OrderedBy (x ∷ xs) =
    insert_by-OrderedBy x (order_by legacy_before xs) (order_by-OrderedBy xs)

legacy_rows-Ranked : (n : ℕ) (xs : List LegacyScore) → Ranked n (legacy_rows n xs)
legacy_rows-Ranked n [] = tt
legacy_rows-Ranked n (x ∷ xs) = (refl, refl, legacy_rows-Ranked (suc n) xs)

scores_of_rows :
    (n : ℕ) (xs : List LegacyScore) → map (λ (r : LegacyRow). r.score) (legacy_rows n xs) ≡ xs
scores_of_rows n [] = refl
scores_of_rows n (x ∷ xs) = ap (λ rest. x ∷ rest) (scores_of_rows (suc n) xs)

scores_distinct :
    (answers : List LegacyAnswer) (people : List SessionParticipant)
    → DistinctBy (λ (p : SessionParticipant). p.pk) people
    → DistinctBy (λ (s : LegacyScore). s.session_participant_id) (map (legacy_score answers) people)
scores_distinct answers [] d = tt
scores_distinct answers (p ∷ people) d = (mapped people d.0, scores_distinct answers people d.1)
  where
    mapped :
        (qs : List SessionParticipant)
        → All (λ (q : SessionParticipant). q.pk ≢ p.pk) qs
        → All (λ (s : LegacyScore). s.session_participant_id ≢ p.pk) (map (legacy_score answers) qs)
    mapped [] h = tt
    mapped (q ∷ qs) h = (h.0, mapped qs h.1)

-- Where the participants have different keys, the rows of the legacy leaderboard are, in another order,
-- one for each participant: with the participant's key and name, and over the participant's own answers
-- the points in all, the number of correct ones and the time in all. Every row is ahead of those after
-- it: with more points, or as many and more correct answers, or as many and less time, or the same and a
-- smaller key. The ranks count from one, and the podium is the ranks up to three.
pub build_legacy_leaderboard-Ranked :
    (answers : List LegacyAnswer) (g : Game)
    → DistinctBy (λ (p : SessionParticipant). p.pk) g.participants
    → let rows = build_legacy_leaderboard answers g in
      (scores : List LegacyScore) × LegacyScoresOf answers g.participants scores
      × Permᴰ (map (λ (r : LegacyRow). r.score) rows) scores
      × Descending (map (λ (r : LegacyRow). r.score) rows)
      × Ranked 1 rows
unfolding build_legacy_leaderboard
build_legacy_leaderboard-Ranked answers g d =
    let scores = map (legacy_score answers) g.participants in
    let sorted = order_by legacy_before scores in
    (
      scores,
      map-LegacyScoresOf answers g.participants,
      subst (λ xs. Permᴰ xs scores) (sym (scores_of_rows 1 sorted))
          (order_by-Perm legacy_before scores),
      subst Descending (sym (scores_of_rows 1 sorted)) (
          OrderedBy-Descending sorted (order_by-OrderedBy scores) (
            order_by-DistinctBy (λ s. s.session_participant_id) legacy_before scores
              (scores_distinct answers g.participants d))),
      legacy_rows-Ranked 1 sorted,
    )
