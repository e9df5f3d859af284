-- ===== src/Quiz/Card.antt =====
-- The rows of one quiz card: `Quiz` of backend/apps/quiz/models.py with its versions and the sessions
-- that play them, and backend/apps/core/permissions.py. Versions are kept newest first.
pub mod Valid
pub mod Newest
use umclick.Common.{
  ℕ, ltb, ◌==◌, if◌then◌else◌, Bool, true, false, not, ◌&&◌, ◌||◌, Option, none, some, List, [],
  ◌∷◌, find, order_by, any,
}
use umclick.Quiz.Model.{QuizVersion, VersionStatus, draft, fixed}
use umclick.Session.Model.{LiveSession}

pub record Actor : Type 0 where
  pub pk : ℕ
  pub is_authenticated : Bool
  pub is_active : Bool
  pub is_staff : Bool
  -- `groups.filter(name='teacher').exists()`
  pub in_teachers : Bool

pub record Quiz : Type 0 where
  pub pk : ℕ
  pub owner_id : ℕ
  pub archived_at : Option ℕ
  pub content_revision : ℕ

-- The last four fields are the next keys that the database gives out.
pub record Card : Type 0 where
  pub quiz : Quiz
  pub versions : List QuizVersion
  pub sessions : List LiveSession
  pub next_version_pk : ℕ
  pub next_question_pk : ℕ
  pub next_choice_pk : ℕ
  pub next_session_pk : ℕ

abbrev pub is_admin : Actor → Bool
is_admin a = a.is_authenticated && a.is_active && a.is_staff

abbrev pub is_teacher : Actor → Bool
is_teacher a = a.is_authenticated && a.is_active && a.in_teachers

abbrev pub can_manage_quiz : Actor → Quiz → Bool
can_manage_quiz a q = is_admin a || (is_teacher a && q.owner_id == a.pk)

abbrev pub is_draft : QuizVersion → Bool
is_draft v = elim v.status [ draft ↦ true | fixed ↦ false ]

abbrev pub is_fixed : QuizVersion → Bool
is_fixed v = elim v.status [ draft ↦ false | fixed ↦ true ]

-- `order_by('-number', '-id')` and `order_by('number', 'id')`
abbrev pub newer : QuizVersion → QuizVersion → Bool
newer a b = ltb b.number a.number || (a.number == b.number && ltb b.pk a.pk)

abbrev pub older : QuizVersion → QuizVersion → Bool
older a b = newer b a

-- `get_effective_version`
unfoldable pub get_effective_version : Card → Option QuizVersion
get_effective_version card = find (λ v. true) (order_by newer card.versions)

-- The two parts of `lock_relevant_versions`. Of the fixed versions only the newest is read.
unfoldable pub latest_fixed : Card → Option QuizVersion
latest_fixed card = find is_fixed (order_by newer card.versions)

unfoldable pub locked_draft : Card → Option QuizVersion
locked_draft card = find is_draft (order_by older card.versions)
