-- ===== src/Adl.antt =====
-- Auto-deleveraging: backend/src/services/adl/mod.rs.
pub mod Types
pub mod Ranking
pub mod Execute
mod Tests
