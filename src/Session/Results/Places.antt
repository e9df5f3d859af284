-- ===== src/Session/Results/Places.antt =====
-- The places of a leaderboard.
use mathlib.Core.List.{Permᴰ}
use umclick.Common.{
  ℕ, suc, ◌+◌, leb, ltb, ◌==◌, ◌≡◌, refl, sym, ap, ◌∙◌, subst, Bool, true, false, ◌&&◌, ◌||◌,
  Option, none, some, List, [], ◌∷◌, length, count_if, order_by, insert_by, All, All-map, All-both,
  All-insert_by, map, inl, inr, Bool-cases, arith,
}
use umclick.Session.Model.{Game}
use umclick.Session.Results.Rearranged.{order_by-Perm}
use umclick.Session.Results.Scores.{ScoresOf, map-ScoresOf}
use umclick.Session.Results.{
  Score, Row, same_key, rank_of, places_from, with_places, score_of, score_before,
  build_stage_b_leaderboard,
}

-- More correct answers, or as many in less time.
abbrev pub better : Score → Score → Bool
better a b =
    ltb b.correct_answers a.correct_answers
    || (a.correct_answers == b.correct_answers && ltb a.correct_time_ms b.correct_time_ms)

-- No row is better than one before it.
abbrev pub Sorted : List Score → Type 0
Sorted [] = Unit {0}
Sorted (x ∷ xs) = All (λ y. better y x ≡ false) xs × Sorted xs

abbrev better_count : Score → List Score → ℕ
better_count x xs = count_if (λ s. better s x) xs

-- The place of a row is one more than the number of better scores; ties share a place.
abbrev pub PlacedAmong : List Score → Row → Type 0
PlacedAmong scores r =
    (r.rank ≡ suc (count_if (λ s. better s r.score) scores)) × (r.is_podium ≡ leb r.rank 3)

better_irrefl : (x : Score) → better x x ≡ false
better_irrefl x = ground arith

better_lower :
    (x k y : Score)
    → better k y ≡ false
    → better x k ≡ false
    → same_key x k ≡ false
    → better y x ≡ true
better_lower x k y a b c = ground arith

better_negative : (x y z : Score) → better z y ≡ false → better y x ≡ false → better z x ≡ false
better_negative x y z a b = ground arith

better_same : (x k s : Score) → same_key x k ≡ true → better s x ≡ better s k
better_same x k s e = ground arith

count_if-none : (p : Score → Bool) (xs : List Score) → All (λ y. p y ≡ false) xs → count_if p xs ≡ 0
count_if-none p [] h = refl
count_if-none p (x ∷ xs) h = rw h.0 (count_if-none p xs h.1)

count_if-All :
    (p : Score → Bool) (xs : List Score) → All (λ y. p y ≡ true) xs → count_if p xs ≡ length xs
count_if-All p [] h = refl
count_if-All p (x ∷ xs) h = rw h.0 (ap (λ n. suc n) (count_if-All p xs h.1))

better_count-same :
    (x k : Score) (xs : List Score) → same_key x k ≡ true → better_count x xs ≡ better_count k xs
better_count-same x k [] e = refl
better_count-same x k (s ∷ xs) e = ground (arith, better_same x k s e, better_count-same x k xs e)

-- The state of the loop fits the rows that it has placed.
abbrev Loop : List Score → Option (Score × ℕ) → Type 0
Loop placed none = placed ≡ []
Loop placed (some (k, rank)) =
    (rank ≡ suc (better_count k placed))
    × All (λ y. better k y ≡ false) placed
    × ((x : Score) → All (λ y. better x y ≡ false) placed → better x k ≡ false)

-- The place of the next row among those placed before.
next_rank :
    (placed : List Score) (previous : Option (Score × ℕ)) (x : Score)
    → Loop placed previous
    → All (λ y. better x y ≡ false) placed
    → rank_of previous x (suc (length placed)) ≡ suc (better_count x placed)
next_rank placed none x h a = rw h refl
next_rank placed (some (k, rank)) x h a = elim (Bool-cases (same_key x k)) [
  | inl e ↦ rw e (h.0 ∙ ap (λ n. suc n) (sym (better_count-same x k placed e)))
  | inr e ↦ rw e (
      ap (λ n. suc n)
        (sym (
          count_if-All (λ s. better s x) placed
            (All-map (λ y b. better_lower x k y b (h.2 x a) e) placed h.1))))
]

Loop-next :
    (placed : List Score) (x : Score) (rank : ℕ)
    → rank ≡ suc (better_count x placed)
    → All (λ y. better x y ≡ false) placed
    → Loop (x ∷ placed) (some (x, rank))
Loop-next placed x rank e a = (rw (better_irrefl x) e, (better_irrefl x, a), λ z b. b.0)

-- What is counted does not depend on which of the two lists the next row is in.
move_row :
    (placed : List Score) (x : Score) (rest : List Score) (r : Row)
    → (r.rank ≡ suc (better_count r.score (x ∷ placed) + better_count r.score rest))
      × (r.is_podium ≡ leb r.rank 3)
    → (r.rank ≡ suc (better_count r.score placed + better_count r.score (x ∷ rest)))
      × (r.is_podium ≡ leb r.rank 3)
move_row placed x rest r (e, p) = (ground (arith, e), p)

places_from-Placed :
    (placed rest : List Score) (previous : Option (Score × ℕ))
    → Loop placed previous
    → Sorted rest
    → All (λ x. All (λ y. better x y ≡ false) placed) rest
    → All
        (λ r.
          (r.rank ≡ suc (better_count r.score placed + better_count r.score rest))
          × (r.is_podium ≡ leb r.rank 3))
        (places_from previous (suc (length placed)) rest)
places_from-Placed placed [] previous h s a = tt
places_from-Placed placed (x ∷ rest) previous h s a =
    let e = next_rank placed previous x h a.0 in
    let rank = rank_of previous x (suc (length placed)) in
    let after : All (λ z. All (λ y. better z y ≡ false) (x ∷ placed)) rest =
      All-both (λ z b c. (b, c)) rest s.0 a.1 in
    (
      (e ∙ ap (λ n. suc n) (omega (arith, later_none)), refl),
      All-map (move_row placed x rest)
          (places_from (some (x, rank)) (suc (suc (length placed))) rest)
          (places_from-Placed (x ∷ placed) rest (some (x, rank)) (Loop-next placed x rank e a.0) s.1
            after),
    )
  where
    later_none : better_count x (x ∷ rest) ≡ 0
    later_none = count_if-none (λ s. better s x) (x ∷ rest) (better_irrefl x, s.0)

with_places-Placed :
    (scores : List Score) → Sorted scores → All (PlacedAmong scores) (with_places scores)
unfolding with_places
with_places-Placed scores s =
    All-map (λ r h. (omega (arith, h.0), h.1)) (places_from none 1 scores)
      (places_from-Placed [] scores none refl s (All-map (λ x b. tt) scores (everything scores)))
  where
    everything : (xs : List Score) → All (λ x. x ≡ x) xs
    everything [] = tt
    everything (x ∷ xs) = (refl, everything xs)

insert_by-Sorted : (x : Score) (xs : List Score) → Sorted xs → Sorted (insert_by score_before x xs)
insert_by-Sorted x [] h = (tt, tt)
insert_by-Sorted x (y ∷ ys) h = elim (Bool-cases (score_before x y)) [
  | inl e ↦
      let first = not_better x y e in
      rw e ((first, All-map (λ z b. better_negative x y z b first) ys h.0), h)
  | inr e ↦ rw e (
    All-insert_by (λ z. better z y ≡ false) score_before x ys (not_before x y e) h.0,
    insert_by-Sorted x ys h.1,
  )
]
  where
    not_better : (x y : Score) → score_before x y ≡ true → better y x ≡ false
    not_better x y e = ground arith

    not_before : (x y : Score) → score_before x y ≡ false → better x y ≡ false
    not_before x y e = ground arith

order_by-Sorted : (xs : List Score) → Sorted (order_by score_before xs)
order_by-Sorted [] = tt
order_by-Sorted (x ∷ xs) = insert_by-Sorted x (order_by score_before xs) (order_by-Sorted xs)

count_if-insert_by :
    (p : Score → Bool) (x : Score) (xs : List Score)
    → count_if p (insert_by score_before x xs) ≡ count_if p (x ∷ xs)
count_if-insert_by p x [] = refl
count_if-insert_by p x (y ∷ ys) = ground (arith, count_if-insert_by p x ys)

count_if-order_by :
    (p : Score → Bool) (xs : List Score) → count_if p (order_by score_before xs) ≡ count_if p xs
count_if-order_by p [] = refl
count_if-order_by p (x ∷ xs) =
    count_if-insert_by p x (order_by score_before xs) ∙ ground (arith, count_if-order_by p xs)

scores_of_places :
    (previous : Option (Score × ℕ)) (index : ℕ) (xs : List Score)
    → map (λ (r : Row). r.score) (places_from previous index xs) ≡ xs
scores_of_places previous index [] = refl
scores_of_places previous index (x ∷ xs) =
    ap (λ rest. x ∷ rest) (scores_of_places (some (x, rank_of previous x index)) (suc index) xs)

-- The rows of the leaderboard are, in another order, one for each participant: with the participant's
-- key and name, the number of the participant's own correct final answers, and their time in all. No
-- row is better than one before it; the rank of each row is one more than the number of participants
-- with a better score, so equal scores share a place; and the podium is the ranks up to three.
pub build_stage_b_leaderboard-Placed :
    (g : Game)
    → let rows = build_stage_b_leaderboard g in
      (scores : List Score) × ScoresOf g.finals g.participants scores
      × Permᴰ (map (λ (r : Row). r.score) rows) scores
      × Sorted (map (λ (r : Row). r.score) rows)
      × All (PlacedAmong scores) rows
unfolding build_stage_b_leaderboard with_places
build_stage_b_leaderboard-Placed g =
    let scores = map (score_of g) g.participants in
    let sorted = order_by score_before scores in
    let rows = places_from none 1 sorted in
    (
      scores,
      map-ScoresOf g g.participants,
      subst (λ xs. Permᴰ xs scores) (sym (scores_of_places none 1 sorted))
          (order_by-Perm score_before scores),
      subst Sorted (sym (scores_of_places none 1 sorted)) (order_by-Sorted scores),
      All-map
          (λ r h. (h.0 ∙ ap (λ n. suc n) (count_if-order_by (λ s. better s r.score) scores), h.1))
          rows (with_places-Placed sorted (order_by-Sorted scores)),
    )
