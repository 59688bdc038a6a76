-- ===== src/Margin.antt =====
-- The unified margin account: backend/src/services/unified_margin.
pub mod Tiers
pub mod Risk
pub mod Gate
pub mod Totals
pub mod Opening
mod Tests
