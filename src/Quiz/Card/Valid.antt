-- ===== src/Quiz/Card/Valid.antt =====
-- What holds of a quiz card between two services, and which of its versions the services find.
use umclick.Common.{
  ℕ, ◌≤◌, ◌<◌, ◌==◌, ◌≡◌, refl, sym, ap, ◌∙◌, Bool, true, false, not, ◌&&◌, none, some, List, [],
  ◌∷◌, length, find, any, is_some, All, All-map, All-order_by, order_by, order_by-ordered,
  OrderedBy, insert_by, Bool-cases, inl, inr, arith, if◌then◌else◌,
}
use umclick.Quiz.Model.{Question, QuizVersion, VersionStatus, draft, fixed}
use umclick.Quiz.Content.Rows.{RowsTidy}
use umclick.Quiz.Card.{
  Card, is_draft, is_fixed, newer, older, get_effective_version, latest_fixed, locked_draft,
}
use umclick.Session.Model.{LiveSession, is_over}

pub record VersionValid (quiz next_version next_question : ℕ) (v : QuizVersion) : Type 0 where
  pub quiz_id : v.quiz_id ≡ quiz
  pub key : v.pk < next_version
  pub rows : RowsTidy v.questions
  pub below : All (λ (q : Question). q.pk < next_question) v.questions
  pub stamped : is_some v.fixed_at ≡ is_fixed v

-- Numbers and keys fall along the list, and only its first version can be a draft.
abbrev pub Falling : List QuizVersion → Type 0
Falling [] = Unit {0}
Falling (v ∷ vs) =
    All (λ (w : QuizVersion). (w.number < v.number) × (w.pk < v.pk) × (is_fixed w ≡ true)) vs
    × Falling vs

-- The session plays a fixed version of the card.
abbrev pub Plays : List QuizVersion → LiveSession → Type 0
Plays vs s = any (λ (v : QuizVersion). v.pk == s.quiz_version_id && is_fixed v) vs ≡ true

abbrev pub AllOver : List LiveSession → Type 0
AllOver = All λ (s : LiveSession). is_over s.status ≡ true

pub record IsValid (card : Card) : Type 0 where
  pub versions :
      All (VersionValid card.quiz.pk card.next_version_pk card.next_question_pk) card.versions
  pub falling : Falling card.versions
  pub present : 1 ≤ length card.versions
  pub sessions : All (Plays card.versions) card.sessions
  pub archived : is_some card.quiz.archived_at ≡ true → AllOver card.sessions

pub VersionValid-mono :
    {quiz a b c d : ℕ} (v : QuizVersion)
    → a ≤ b
    → c ≤ d
    → VersionValid quiz a c v
    → VersionValid quiz b d v
VersionValid-mono v h k w = record {
  quiz_id = w.quiz_id;
  key = omega (arith, w.key, h);
  rows = w.rows;
  below = All-map (λ (q : Question) lt. omega (arith, lt, k)) v.questions w.below;
  stamped = w.stamped;
}

fixed-not_draft : (v : QuizVersion) → is_fixed v ≡ true → is_draft v ≡ false
fixed-not_draft v h = fixed_case v.status h
  where
    fixed_case :
        (s : VersionStatus)
        → (elim s as (λ _. Bool) [ draft ↦ false | fixed ↦ true ]) ≡ true
        → (elim s as (λ _. Bool) [ draft ↦ true | fixed ↦ false ]) ≡ false
    fixed_case draft h = cc
    fixed_case fixed h = refl

pub draft_or_fixed : (v : QuizVersion) → is_draft v ≡ not (is_fixed v)
draft_or_fixed v = either v.status
  where
    either :
        (s : VersionStatus)
        → (elim s as (λ _. Bool) [ draft ↦ true | fixed ↦ false ])
          ≡ not (elim s as (λ _. Bool) [ draft ↦ false | fixed ↦ true ])
    either draft = refl
    either fixed = refl

pub draft-not_fixed : (v : QuizVersion) → is_draft v ≡ true → is_fixed v ≡ false
draft-not_fixed v e = flip (is_fixed v) (sym (draft_or_fixed v) ∙ e)
  where
    flip : (b : Bool) → not b ≡ true → b ≡ false
    flip b h = ground arith

pub not_draft-fixed : (v : QuizVersion) → is_draft v ≡ false → is_fixed v ≡ true
not_draft-fixed v e = flip (is_fixed v) (sym (draft_or_fixed v) ∙ e)
  where
    flip : (b : Bool) → not b ≡ false → b ≡ true
    flip b h = ground arith

Falling-OrderedBy : (vs : List QuizVersion) → Falling vs → OrderedBy newer vs
Falling-OrderedBy [] f = tt
Falling-OrderedBy (v ∷ vs) f =
    (All-map (λ (w : QuizVersion) h. first v w h.0) vs f.0, Falling-OrderedBy vs f.1)
  where
    first : (v w : QuizVersion) → w.number < v.number → newer v w ≡ true
    first v w h = ground arith

find-only :
    (p : QuizVersion → Bool) (le : QuizVersion → QuizVersion → Bool) (v : QuizVersion)
    (vs : List QuizVersion)
    → All (λ w. p w ≡ false) vs
    → find p (insert_by le v vs) ≡ (if p v then some v else none)
find-only p le v [] h = refl
find-only p le v (w ∷ ws) h = elim (Bool-cases (le v w)) [
  | inl e ↦ rw e (ap (λ o. if p v then some v else o) (nothing (w ∷ ws) h))
  | inr e ↦ rw e (rw h.0 (find-only p le v ws h.1))
]
  where
    nothing : (ws : List QuizVersion) → All (λ w. p w ≡ false) ws → find p ws ≡ none
    nothing [] h = refl
    nothing (w ∷ ws) h = rw h.0 (nothing ws h.1)

-- What the services find, where `v` is the newest version and `vs` are the others.
module _ (card : Card) (v : QuizVersion) (vs : List QuizVersion) (e : card.versions ≡ v ∷ vs)
    (f : Falling (v ∷ vs)) where
  pub effective_head : get_effective_version card ≡ some v
  unfolding get_effective_version
  effective_head =
      ap (λ (xs : List QuizVersion). find (λ v. true) (order_by newer xs)) e
      ∙ ap (find (λ v. true)) (order_by-ordered newer (v ∷ vs) (Falling-OrderedBy (v ∷ vs) f))

  pub locked_draft_head : locked_draft card ≡ (if is_draft v then some v else none)
  unfolding locked_draft
  locked_draft_head =
      ap (λ (xs : List QuizVersion). find is_draft (order_by older xs)) e
      ∙ find-only is_draft older v (order_by older vs) (
          All-order_by (λ w. is_draft w ≡ false) older vs
            (All-map (λ (w : QuizVersion) h. fixed-not_draft w h.2) vs f.0))

  pub latest_fixed_head : latest_fixed card ≡ find is_fixed (v ∷ vs)
  unfolding latest_fixed
  latest_fixed_head =
      ap (λ (xs : List QuizVersion). find is_fixed (order_by newer xs)) e
      ∙ ap (find is_fixed) (order_by-ordered newer (v ∷ vs) (Falling-OrderedBy (v ∷ vs) f))
