-- ===== src/Spot.antt =====
-- The spot exchange: backend/src/services/spot.
pub mod Types
pub mod Book
pub mod Hits
pub mod Ledger
pub mod Settle
pub mod Engine
pub mod Place
pub mod Cancel
pub mod MarketOrder
pub mod Recovery
pub mod Wallet
pub mod Commands
mod Tests
