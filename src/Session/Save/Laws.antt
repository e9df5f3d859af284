-- ===== src/Session/Save/Laws.antt =====
-- When the guards and constraints of `umclick.Session.Save` let a write through.
use umclick.Common.{
  ℕ, suc, ◌+◌, ◌==◌, ◌≡◌, refl, leb, is_some, Bool, true, false, ◌&&◌, ◌||◌, some, [], ◌∷◌, ◌++◌,
  any, ok, err, ==_iff,
}
use umclick.Session.Model.{
  Game, LiveSession, Origin, GameplaySchema, legacy, v2, SessionQuestionRun, FinalAnswer,
  AnswerAttempt, SessionCommand, Env, integrity_error, find_run,
}
use umclick.Session.Save.{
  question_belongs, run_matches, schema_is, same_origin, change_refused, stamp, save_live_session,
  run_constraints, insert_run, same_schedule, replace_run, update_run, attempt_fits,
  outcome_fields_match, insert_final, insert_command, insert_attempt,
}
use umclick.Quiz.Model.{Choice, choice_of_question}

schema_is_refl : (s : GameplaySchema) → schema_is s s ≡ true
schema_is_refl legacy = refl
schema_is_refl v2 = refl

eq_refl : (n : ℕ) → (n == n) ≡ true
eq_refl n = (==_iff n n).1 refl

pub same_origin_refl : (o : Origin) → same_origin o o ≡ true
same_origin_refl o = rw (
  eq_refl o.quiz_version_id,
  eq_refl o.created_by_id,
  eq_refl o.join_token,
  eq_refl o.pin,
  eq_refl o.created_at,
  schema_is_refl o.gameplay_schema,
)

pub save_live_session_lem :
    (env : Env) (g : Game) (s : LiveSession)
    → question_belongs g.version s.quiz_version_id s.current_question_id ≡ true
    → run_matches g.runs s ≡ true
    → change_refused g.session s ≡ false
    → save_live_session env g s ≡ ok (record g { session = stamp env.timezone_now s })
unfolding save_live_session
save_live_session_lem env g s belongs matches changed = rw (belongs, matches, changed)

pub insert_run_lem :
    (g : Game) (r : SessionQuestionRun)
    → question_belongs g.version g.session.quiz_version_id (some r.question_id) ≡ true
    → any (λ x. x.question_id == r.question_id || x.ordinal == r.ordinal) g.runs ≡ false
    → run_constraints r ≡ true
    → insert_run g r ≡ ok (record g { runs = r ∷ g.runs; next_run_pk = suc g.next_run_pk })
unfolding insert_run
insert_run_lem g r belongs fresh dates = rw (belongs, fresh, dates)

pub update_run_lem :
    (g : Game) (previous r : SessionQuestionRun)
    → question_belongs g.version g.session.quiz_version_id (some r.question_id) ≡ true
    → find_run r.pk g.runs ≡ some previous
    → same_schedule previous r ≡ true
    → is_some previous.finalized_at ≡ false
    → run_constraints r ≡ true
    → update_run g r ≡ ok (record g { runs = replace_run r g.runs })
unfolding update_run
update_run_lem g previous r belongs found same running dates =
    rw (belongs, found, same, running, dates)

pub insert_final_lem :
    (g : Game) (f : FinalAnswer)
    → any (λ p. p.pk == f.session_participant_id) g.participants ≡ true
    → attempt_fits f f.selected_attempt ≡ true
    → attempt_fits f f.timing_attempt ≡ true
    → any
        (λ x. x.run_id == f.run_id && x.session_participant_id == f.session_participant_id)
        g.finals
      ≡ false
    → outcome_fields_match f ≡ true
    → insert_final g f ≡ ok (record g { finals = g.finals ++ (f ∷ []) })
unfolding insert_final
insert_final_lem g f known selected timing fresh fields =
    rw (known, selected, timing, fresh, fields)

pub insert_command_lem :
    (g : Game) (c : SessionCommand)
    → any (λ x. x.command_id == c.command_id) g.commands ≡ false
    → c.applied_revision ≡ c.expected_revision + 1
    → insert_command g c ≡ ok (record g { commands = c ∷ g.commands })
unfolding insert_command
insert_command_lem g c fresh next =
    rw (fresh, (==_iff c.applied_revision (c.expected_revision + 1)).1 next)

pub insert_command_taken :
    (g : Game) (c : SessionCommand)
    → any (λ x. x.command_id == c.command_id) g.commands ≡ true
    → insert_command g c ≡ err integrity_error
unfolding insert_command
insert_command_taken g c taken = rw taken

-- An attempt of the table has the same participant and run, and the same press or ordinal.
abbrev pub clashes : AnswerAttempt → AnswerAttempt → Bool
clashes a x =
    x.run_id == a.run_id
    && x.session_participant_id == a.session_participant_id
    && (x.submission_id == a.submission_id || x.ordinal == a.ordinal)

pub insert_attempt_lem :
    (g : Game) (a : AnswerAttempt) (run : SessionQuestionRun) (c : Choice)
    → find_run a.run_id g.runs ≡ some run
    → any (λ p. p.pk == a.session_participant_id) g.participants ≡ true
    → choice_of_question g.version.questions run.question_id a.choice_id ≡ some c
    → (leb 1 a.ordinal && leb a.ordinal 20) ≡ true
    → any (clashes a) g.attempts ≡ false
    → insert_attempt g a
      ≡ ok (record g { attempts = g.attempts ++ (a ∷ []); next_attempt_pk = suc g.next_attempt_pk })
unfolding insert_attempt
insert_attempt_lem g a run c found known choice limited unique =
    rw (found, known, choice, limited, unique)
