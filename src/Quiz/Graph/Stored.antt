-- ===== src/Quiz/Graph/Stored.antt =====
-- The stored content of tidy rows, as the merge relies on it, and the rows that its ids name.
use umclick.Common.{
  ℕ, ◌==◌, ◌≡◌, ◌≢◌, refl, sym, ◌∙◌, subst, true, Option, none, some, List, [], ◌∷◌, map, any, find,
  is_some, All, All-map, All-both, DistinctBy, Bool-cases, inl, inr, arith, any-order_by,
  find-order_by, order_by, order_by-DistinctBy,
}
use umclick.Quiz.Model.{Choice, Question, question_before}
use umclick.Quiz.Content.{
  ChoiceData, QuestionData, choice_before, ordered_choices, choice_data, question_data,
}
use umclick.Quiz.Content.Rows.{RowsTidy, question_data-Tidy}
use umclick.Quiz.Merge.{with_choice_id, with_question_id}
use umclick.Quiz.Merge.Known.{ChoiceKnown, QuestionKnown, IdApart, IdsDistinct, Stored}
use umclick.Quiz.Graph.Writes.{RowKnown, QuestionRow}

own_choices :
    (cs : List Choice)
    → All (λ (c : ChoiceData). ChoiceKnown (map choice_data cs) c.id) (map choice_data cs)
own_choices [] = tt
own_choices (c ∷ cs) =
    (ground arith, All-map (λ d k. weaken d.id k) (map choice_data cs) (own_choices cs))
  where
    weaken :
        (id : Option ℕ)
        → ChoiceKnown (map choice_data cs) id
        → ChoiceKnown (map choice_data (c ∷ cs)) id
    weaken none k = tt
    weaken (some j) k = ground (arith, k)

own_ids :
    (qs : List Question)
    → DistinctBy (λ (q : Question). q.pk) qs
    → IdsDistinct (map question_data qs)
      × All
          (λ (d : QuestionData). QuestionKnown (map question_data qs) d d.id)
          (map question_data qs)
own_ids [] h = (tt, tt)
own_ids (q ∷ qs) h =
    let (ids, known) = own_ids qs h.1 in
    (
      (ids_away qs h.0, ids),
      (
        (question_data q, ground arith, own_choices (ordered_choices q)),
        All-both (λ d k a. weaken d d.id k a) (map question_data qs) known (ids_away qs h.0),
      ),
    )
  where
    ids_away :
        (qs : List Question)
        → All (λ (x : Question). x.pk ≢ q.pk) qs
        → All (λ (d : QuestionData). IdApart q.pk d.id) (map question_data qs)
    ids_away [] h = tt
    ids_away (x ∷ xs) h = (h.0, ids_away xs h.1)

    weaken :
        (d : QuestionData) (id : Option ℕ)
        → QuestionKnown (map question_data qs) d id
        → IdApart q.pk id
        → QuestionKnown (map question_data (q ∷ qs)) d id
    weaken d none k a = k
    weaken d (some j) (x, found, known) a = (x, ground (arith, found, a), known)

own-All :
    (qs : List Question)
    → All
        (λ (q : QuestionData). All (λ (c : ChoiceData). ChoiceKnown q.choices c.id) q.choices)
        (map question_data qs)
own-All [] = tt
own-All (q ∷ qs) = (own_choices (ordered_choices q), own-All qs)

pub rows-Stored :
    (qs : List Question) → RowsTidy qs → Stored (map question_data (order_by question_before qs))
rows-Stored qs t =
    let (ids, own) =
      own_ids (order_by question_before qs)
        (order_by-DistinctBy (λ (q : Question). q.pk) question_before qs t.keys) in
    record {
      tidy = question_data-Tidy qs t;
      ids = ids;
      own = own;
      choices = own-All (order_by question_before qs);
    }

-- What is known to the merge is a row.
ChoiceKnown-row :
    (cs : List Choice) (id : Option ℕ)
    → ChoiceKnown (map choice_data (order_by choice_before cs)) id
    → RowKnown cs id
ChoiceKnown-row cs none h = tt
ChoiceKnown-row cs (some k) h =
    sym (any-order_by (λ (c : Choice). c.pk == k) choice_before cs)
    ∙ seen (order_by choice_before cs) h
  where
    seen :
        (cs : List Choice)
        → is_some (with_choice_id k (map choice_data cs)) ≡ true
        → any (λ (c : Choice). c.pk == k) cs ≡ true
    seen [] e = e
    seen (c ∷ cs) e = ground (arith, e, seen cs)

question_found :
    (k : ℕ) (d : QuestionData) (qs : List Question)
    → with_question_id k (map question_data qs) ≡ some d
    → (q : Question) × (find (λ (q : Question). q.pk == k) qs ≡ some q) × (question_data q ≡ d)
question_found k d [] e = absurd (cc)
question_found k d (q ∷ qs) e = elim (Bool-cases (q.pk == k)) [
  | inl t ↦ (q, rw t refl, some_eq (rw t at e))
  | inr t ↦ let (x, f, same) = question_found k d qs (rw t at e) in (x, rw t f, same)
]
  where
    some_eq : some (question_data q) ≡ some d → question_data q ≡ d
    some_eq p = cc

QuestionKnown-row :
    (qs : List Question) (d : QuestionData) (id : Option ℕ)
    → DistinctBy (λ (q : Question). q.pk) qs
    → QuestionKnown (map question_data (order_by question_before qs)) d id
    → QuestionRow qs d id
QuestionKnown-row qs d none keys h = All-map (λ c k. ChoiceKnown-row [] c.id k) d.choices h
QuestionKnown-row qs d (some k) keys (old, found, known) =
    let (q, f, same) = question_found k old (order_by question_before qs) found in
    (
      q,
      sym (find-order_by (λ (q : Question). q.pk) k question_before qs keys) ∙ f,
      All-map
          (λ c h.
            ChoiceKnown-row q.choices c.id
              (subst (λ (o : QuestionData). ChoiceKnown o.choices c.id) (sym same) h))
          d.choices known,
    )

pub known_rows :
    (qs : List Question) (ds : List QuestionData)
    → DistinctBy (λ (q : Question). q.pk) qs
    → All
        (λ (d : QuestionData).
          QuestionKnown (map question_data (order_by question_before qs)) d d.id)
        ds
    → All (λ (d : QuestionData). QuestionRow qs d d.id) ds
known_rows qs ds keys h = All-map (λ d k. QuestionKnown-row qs d d.id keys k) ds h
