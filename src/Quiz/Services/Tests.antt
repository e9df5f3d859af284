-- ===== src/Quiz/Services/Tests.antt =====
-- One card with a draft, on which the services are run.
use umclick.Common.{
  ℕ, ◌+◌, ◌==◌, ◌≡◌, refl, Bool, true, false, none, some, map, [], ◌∷◌, ok, err, arith,
}
use umclick.Quiz.Model.{Choice, QuizVersion, draft}
use umclick.Quiz.Refusals.{quiz_revision_conflict}
use umclick.Quiz.Merge.{Changes, merge_content, merge_questions, merge_choices}
use umclick.Quiz.Graph.{create_version_graph}
use umclick.Quiz.Card.{Actor, Card}
use umclick.Quiz.Card.Valid.{IsValid}
use umclick.Session.Games.{env}
use umclick.Quiz.Services.{
  Keys, Draw, create_quiz_with_draft, save_quiz_content, archive_quiz, restore_quiz, delete_quiz,
  place_pin, create_live_session,
}
use umclick.Quiz.Services.Save.{SaveEnds, save_quiz_content-ends}
use umclick.Quiz.Services.Create.{CreateEnds, create_quiz_with_draft-ends}
use umclick.Quiz.Services.Launch.{LaunchEnds, create_live_session-ends}
use umclick.Quiz.Services.Pins.{PinEnds, place_pin-ends}
use umclick.Quiz.Services.Shelve.{ArchiveEnds, DeleteEnds, archive_quiz-ends, delete_quiz-ends}
use umclick.Quiz.Services.History.{Services, Keeps, start, next, archived, restored, Services-Keeps}

abbrev is_space : ℕ → Bool
is_space c = c == b' '

abbrev teacher : Actor
teacher = record {
  pk = 5;
  is_authenticated = true;
  is_active = true;
  is_staff = false;
  in_teachers = true;
}

abbrev option : ℕ → Bool → Choice
option k right = record { pk = k; text = b'c' ∷ []; is_correct = right; order = k }

abbrev draft_version : QuizVersion
draft_version = record {
  pk = 1;
  quiz_id = 1;
  number = 1;
  status = draft;
  fixed_at = none;
  title = b'q' ∷ [];
  description = [];
  question_only_on_display = false;
  show_choices_on_participant = true;
  reading_time_sec = 15;
  results_time_sec = 10;
  questions =
      record {
        pk = 1;
        text = b'?' ∷ [];
        order = 1;
        time_limit_sec = 20;
        choices = option 1 false ∷ option 2 true ∷ [];
      }
      ∷ [];
}

abbrev card : Card
card = record {
  quiz = record { pk = 1; owner_id = 5; archived_at = none; content_revision = 1 };
  versions = draft_version ∷ [];
  sessions = [];
  next_version_pk = 2;
  next_question_pk = 2;
  next_choice_pk = 3;
  next_session_pk = 1;
}

card-IsValid : IsValid card
card-IsValid = record {
  versions = (
    record {
      quiz_id = refl;
      key = omega arith;
      rows = record {
        places = (tt, tt);
        keys = (tt, tt);
        choices = ((((λ e. omega (arith, e)), tt), (tt, tt)), tt);
      };
      below = (omega arith, tt);
      stamped = refl;
    },
    tt,
  );
  falling = (tt, tt);
  present = omega arith;
  sessions = tt;
  archived = λ e. tt;
}

-- Another title, and the stored question without a change.
abbrev renamed : Changes
renamed = record {
  title = some (b'n' ∷ []);
  description = none;
  question_only_on_display = none;
  show_choices_on_participant = none;
  reading_time_sec = none;
  results_time_sec = none;
  questions =
      some (record { id = some 1; text = none; time_limit_sec = none; choices = none } ∷ []);
}

abbrev stranger : Changes
stranger = record renamed {
  questions =
      some (record { id = some 9; text = none; time_limit_sec = none; choices = none } ∷ []);
}

overtaken_test :
    save_quiz_content is_space (some card) teacher 0 renamed ≡ err (quiz_revision_conflict 1)
unfolding save_quiz_content
overtaken_test = refl

save_quiz_content-ends_example :
    SaveEnds is_space card teacher 1 renamed
      (save_quiz_content is_space (some card) teacher 1 renamed)
save_quiz_content-ends_example = save_quiz_content-ends is_space card teacher 1 renamed card-IsValid

abbrev keys : Keys
keys = record { quiz = 1; version = 1; question = 1; choice = 1; session = 1 }

-- A request for a new quiz, over the defaults but for a title and a question.
abbrev asked : Changes
asked = record {
  title = some (b'q' ∷ []);
  description = none;
  question_only_on_display = none;
  show_choices_on_participant = none;
  reading_time_sec = none;
  results_time_sec = some 7;
  questions = some (
      record {
        id = none;
        text = some (b'w' ∷ []);
        time_limit_sec = none;
        choices = some (
            record { id = none; text = some (b'a' ∷ []); is_correct = some true }
            ∷ record { id = none; text = some (b'b' ∷ []); is_correct = none }
            ∷ []);
      }
      ∷ []);
}

asked_test :
    elim (create_quiz_with_draft is_space keys teacher asked) [
      | ok made ↦ map (λ (v : QuizVersion). v.reading_time_sec + v.results_time_sec) made.versions
      | err e ↦ []
    ]
    ≡ 22 ∷ []
unfolding create_quiz_with_draft merge_content merge_questions merge_choices create_version_graph
    umclick.Quiz.Validation.validate_quiz_data
asked_test = refl

create_quiz_with_draft-ends_example :
    CreateEnds is_space keys teacher asked (create_quiz_with_draft is_space keys teacher asked)
create_quiz_with_draft-ends_example = create_quiz_with_draft-ends is_space keys teacher asked

-- The first drawn pin is taken.
abbrev draw : Draw
draw = record {
  now = 7;
  join_token = 3;
  pins = λ i. 100 + i;
  open_pins = 100 ∷ [];
  used_tokens = [];
}

second_pin_test : place_pin draw.pins draw.open_pins false 20 0 ≡ ok 101
unfolding place_pin
second_pin_test = refl

place_pin-ends_example :
    PinEnds draw.pins draw.open_pins false 20 0 (place_pin draw.pins draw.open_pins false 20 0)
place_pin-ends_example = place_pin-ends draw.pins draw.open_pins false 20 0

create_live_session-ends_example :
    LaunchEnds is_space card teacher
      (b'h' ∷ [])
      draw
      (create_live_session is_space (some card) teacher (b'h' ∷ []) draw)
create_live_session-ends_example =
    create_live_session-ends is_space card teacher (b'h' ∷ []) draw card-IsValid

archive_quiz-ends_example : ArchiveEnds card teacher 9 (archive_quiz (some card) teacher 9)
archive_quiz-ends_example = archive_quiz-ends card teacher 9 card-IsValid

delete_quiz-ends_example : DeleteEnds card teacher (delete_quiz (some card) teacher)
delete_quiz-ends_example = delete_quiz-ends card teacher

abbrev shelved : Card
shelved = record card { quiz = record (card.quiz) { archived_at = some 9 } }

shelving : Services env is_space card card
unfolding archive_quiz restore_quiz
shelving =
    next shelved card (next card shelved start (archived teacher 9 shelved refl))
      (restored teacher card refl)

Services-Keeps_example : IsValid card × Keeps card card
Services-Keeps_example = Services-Keeps env is_space card card card-IsValid shelving
