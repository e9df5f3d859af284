-- ===== src/Session.antt =====
-- backend/apps/session: one live session and the rows that refer to it.
pub mod Model
pub mod Spec
pub mod Save
pub mod Run
pub mod Transition
pub mod Command
pub mod Advance
pub mod Answer
pub mod Valid
pub mod History
pub mod Results
pub mod Games
pub mod Access
pub mod Views
pub mod Consumer
mod Tests
