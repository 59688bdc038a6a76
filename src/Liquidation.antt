-- ===== src/Liquidation.antt =====
-- The liquidation engine: backend/src/services/liquidation/mod.rs.
pub mod Types
pub mod Conditions
pub mod Execute
pub mod Sweep
mod Tests
