-- ===== src/Core.antt =====
-- The parts of backend/apps/core that every application uses.
pub mod RateLimit
pub mod Leases
pub mod Identity
mod Tests
