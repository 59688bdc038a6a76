-- ===== src/Matching.antt =====
-- The perpetual matching engine: backend/src/services/matching.
pub mod Types
pub mod Fill
pub mod Levels
pub mod Orderbook
pub mod Books
pub mod Engine
mod Tests
