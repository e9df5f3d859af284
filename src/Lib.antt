-- ===== src/Lib.antt =====
-- A verification library for the backend of umclick, a live quiz: a host opens a session, people
-- join it, questions run through timed phases, presses are recorded, and every question is closed
-- with one final answer for each participant.
--
-- The parts and how they interact:
--   Quiz/Model        backend/apps/quiz/models.py: the version of a quiz that a session plays, its
--                     questions and choices, and the order of the questions.
--   Quiz/Validation   backend/apps/quiz/validation.py: `validate_quiz_instance` with its dictionary of
--                     errors.
--   Quiz/Content      `quiz_data` of the same file, and `_canonical` of backend/apps/quiz/services.py;
--                     Content/Rows relates rows of questions to the dictionaries they hold.
--   Quiz/Merge        `_merge_content` of services.py. Merge/Laws says what it makes of stored content,
--                     Merge/Errors what it refuses with, Merge/Requested what a request for a new
--                     quiz asks for.
--   Quiz/Card         a quiz with its versions and its sessions, `get_effective_version`,
--                     `lock_relevant_versions`, and backend/apps/core/permissions.py. Card/Valid is the
--                     invariant of a card, Card/Newest its newest version.
--   Quiz/Graph        `_create_version_graph` and `_update_draft_graph`; Graph/Writes says what is in the
--                     rows that they leave.
--   Quiz/Services     the services of services.py, `create_live_session` of
--                     backend/apps/session/services.py, and the loop of `LiveSession.save` that draws
--                     a pin. The modules below it prove each service, and Services/History their
--                     histories, in which a session starts as the game that Session is about.
--   Quiz/Refusals     what the services raise.
--   Quiz/Tests        two versions; Services/Tests a card.
--   Session/Model     backend/apps/session/models.py: the rows. A `Game` is the row of one LiveSession
--                     with the rows that refer to it.
--   Session/Save      the `save` methods of those models with the constraints of their tables:
--                     `save_live_session`, `insert_run`, `update_run`, `insert_attempt`,
--                     `insert_final`, `insert_command`.
--   Session/Run       backend/apps/session/gameplay.py: `_basic_state`, `_next_question`,
--                     `_lock_current_run`, `_save_session`, `_start_question`, `_finish_session`,
--                     `_finalize_locked`; Run/Select is `_select_final_attempts`.
--   Session/Transition  `_apply_transition`, one function for each command.
--   Session/Command   `execute_manual_command`.
--   Session/Advance   `_transition_may_be_due`, `_automatic_command_id`, `advance_one_transition`.
--                     Advance/Due says by the moments of a run when a step is due.
--   Session/Answer    `_lock_trusted_current_run_for_answer`, `record_answer_attempt`.
--   Session/Spec      the abstract machine: a position is a status, a phase and the number of
--                     opened questions, and `Step` lists what may follow what.
--   Session/Valid     the invariant `IsValid` of a game, and that each change of the rows keeps it.
--   Session/History   the committed transactions of a session, one after another; History/Lasting is
--                     what Quiz/Services relies on.
--   Session/Access    backend/apps/session/participation.py and access.py: `join_session`, with `save` of
--                     Participant and SessionParticipant, `resolve_access`, `resolve_join_session`, and
--                     `is_valid` of SessionDisplayAccess; Access/Tests has a waiting session.
--   Session/Games     concrete games, to which Session/Tests and Valid/Tests apply the theorems.
--   Core/RateLimit    backend/apps/core/rate_limit.py: the limits, the Lua script of the token buckets
--                     (`token_bucket`), `RedisRateLimiter.check` and `enforce_rate_limits`.
--   Core/Leases       backend/apps/core/websocket_limits.py: the scripts `LUA_WS_OPEN`, `LUA_WS_ACCESS`,
--                     `LUA_WS_HEARTBEAT` and `LUA_WS_RELEASE` on sorted sets of leases, over the buckets of
--                     RateLimit, and `RedisWebSocketGuard`. Leases/Calls puts calls in a row and says
--                     what each may do to a set.
--   Core/Identity     backend/apps/core/request_identity.py: `_canonical_client_address`, on the texts of
--                     the two headers; Identity/Spoof is about what a client writes into them.
--   Core/Tests        concrete buckets; Leases/Tests has concrete connections.
--   Session/Results   backend/apps/session/results.py: `_with_places` and `build_stage_b_leaderboard`;
--                     Results/Scores says what a row should say of its participant, Results/Rearranged
--                     and Results/Kept are about sorted and filtered lists, and Results/Tests has a
--                     concrete board.
--   Session/Results/Legacy  `build_legacy_leaderboard` and `build_leaderboard` of results.py; Legacy/Scores
--                     says what a row should say, and Legacy/Ranks is about the ranks.
--   Session/Views     backend/apps/session/realtime.py: what the host, the participants and the display
--                     are shown of a game. Views/Questions has the questions and their shuffled
--                     choices, Views/Reveal the answers, Views/States the snapshots of the host and
--                     the display, Views/Participant that of a participant, Views/Edit a game with
--                     other texts and marks, Views/Secret is about hidden texts and marks, Views/Pressed
--                     about a press and the snapshot after it, and Views/Tests a game with hidden texts.
--   Session/Consumer  backend/apps/session/consumers.py: `_state_if_allowed` and `_access_is_allowed` on
--                     stored rows, which read Session/Access, Session/Views and Quiz/Card.
--                     Consumer/Connection is the state of a `SessionConsumer`, Consumer/Handlers its
--                     handlers and tasks, Consumer/Steps all of them in any order over a database that
--                     changes. Consumer/Entitled says who may see what, Consumer/Sound has an
--                     invariant of a connection, and Always and Runs go through the steps.
--
-- How the code is read:
--   * A function of the code that may raise returns a `Result`; a transaction that raises leaves the
--     database as it was, so only its `ok` results are states. Locks are the order of the steps of a
--     history. Where the code reads before it locks (`advance_one_transition`,
--     `record_answer_attempt`, `join_session`) the definition takes two states, what the first reading
--     saw and what is locked, without any relation between them.
--   * Moments are microseconds and durations of the code are multiplied out by `seconds`. UUIDs,
--     digests, PINs and primary keys are numbers, and text is a list of numbers. Numbers are not
--     bounded: the columns are PostgreSQL integers whose overflow is not modelled.
--   * SHA-256, `uuid5`, `timezone.now` and the floating point of `total_seconds() * 1000` are the
--     fields of `Env`, or of `Outside` in Session/Access, about which nothing is assumed;
--     `str.isspace` is an argument of the validation. The database's clock is an argument of each
--     operation. That it has not gone back behind the start of the phase is the hypothesis `Timely`
--     where a theorem needs it.
--   * `order_by` is a stable sort of a list, `filter` and `first` are searches of a list.
--   * Loops go along lists. The one that draws a pin takes the number of draws that are left, twenty at
--     the start as in the code. No definition has fuel.
--   * A missing field of a request is `none`; a new row of a question or choice without a text has an
--     empty one, which the validation refuses. The content-write and session-creation contexts only tell
--     the guards of the models that a service writes, and are left out. A database that fails is not
--     modelled; a missing row that the code would look up is, and is proved not to occur.
--   * What stands outside the snapshots is a field of `Outlook`: the places to which a seeded shuffle
--     moves a list, and a rounded percentage. Tokens of accounts and the users they name are fields of
--     `Services`, and what the guard answers to a connection is part of each step.
--   * A handler of a connection is cut where it waits for the database or for the guard, and
--     `_close_with_error` where it waits for its message, so that tasks may run in between and may be
--     cancelled there. Between two cuts nothing else runs. That Channels hands a consumer its frames
--     and events one after another is used for frames only. An exception that a handler does not catch
--     leaves the connection as it was. After the message of `_close_with_error` its release of the lease
--     and its close are one step. A refused opening leaves the source without a `deadline_task`; the
--     model has one that may run. The session's UUID in a URL is well formed: the close with 4000 before
--     the guard is asked is left out.
--   * A deleted card is `none`: that its versions, sessions and their rows go with it, and the signals
--     of that, are not modelled further.
--   * The quotas keep milliseconds. Each limit of a call stands with what Redis has stored under its
--     key; the keys of one call are taken to be different, and a hash that has expired is a missing
--     one. Redis computes in doubles, exact for whole numbers below 2 ^ 53.
--
-- Not modelled: the HTTP layer, serializers, administration, migrations, settings and scripts (glue
-- and configuration), the Flutter client, delivery of broadcasts through Channels (a broadcast is
-- an entry of `events`), `own_result`, the parsing of the headers of a request, the telephone column
-- of the leaderboards, and `get_next_question` and `compute_question_ends_at` of realtime.py, which no
-- snapshot uses.
pub mod Common
pub mod Core
pub mod Quiz
pub mod Session
