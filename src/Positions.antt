-- ===== src/Positions.antt =====
-- Perpetual positions: backend/src/services/position/mod.rs and backend/src/models/position.rs.
pub mod Types
pub mod Formulas
pub mod Store
pub mod Decrease
pub mod OpenRows
pub mod Increase
pub mod Collateral
pub mod Tests
