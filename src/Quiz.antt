-- ===== src/Quiz.antt =====
-- backend/apps/quiz: cards, versions and their content.
pub mod Model
pub mod Content
pub mod Validation
pub mod Refusals
pub mod Merge
pub mod Card
pub mod Graph
pub mod Services
mod Tests
