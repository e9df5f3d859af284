-- ===== src/Session/Views.antt =====
-- backend/apps/session/realtime.py: the snapshots of a session that each role is sent. They are read
-- from the stored rows of one game.
pub mod Questions
pub mod Reveal
pub mod States
pub mod Participant
pub mod Pressed
pub mod Edit
pub mod Secret
mod Tests
